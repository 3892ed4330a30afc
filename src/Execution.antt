-- ===== src/Execution.antt =====
-- src/execution-references/execution-placement.ts: the domain and the capability that an item of a
-- document belongs to. The loop takes fuel; `none` is a loop that the fuel did not finish. A refusal
-- keeps what its reason is made of.
pub mod Placed
use nola_hq_backend.Common.{
  ℕ, zero, suc, Option, none, some, List, [], ◌∷◌, ◌==◌, string_eq, contains, if◌then◌else◌, String,
}
use nola_hq_backend.Common.Text.{or_null}

-- What the rule reads of an item, a capability and a domain.
pub record ExecutionManifestItem : Type 0 where
  pub source_key : String
  pub parent_key : Option String

pub record Capability : Type 0 where
  pub id : String
  pub domain_id : String

pub record Domain : Type 0 where
  pub id : String

pub data PlacementVerdict : Type 0 where
  placed : (domain_id capability_id : Option String) → PlacementVerdict
  cyclic : (source_key : String) → PlacementVerdict
  unknown : (parent_key : String) → PlacementVerdict

-- `cursor?.parentKey` as the loop's test: an empty key is none
abbrev pub declared_parent : ExecutionManifestItem → Option String
declared_parent item = elim item.parent_key [ none ↦ none | some key ↦ or_null key ]

module _ (by_key : String → Option ExecutionManifestItem) (domain_by_code : String → Option Domain)
    (capability_by_code : String → Option Capability) where
  unfoldable pub resolve_from :
      ℕ → (seen : List String) → ExecutionManifestItem → Option PlacementVerdict
  resolve_from zero seen cursor = none
  resolve_from (suc fuel) seen cursor =
      let up =
        λ (parent : ExecutionManifestItem). resolve_from fuel (cursor.source_key ∷ seen) parent in
      elim (declared_parent cursor) [
        | none ↦ some (placed none none)
        | some key ↦
            if contains seen cursor.source_key
            then some (cyclic cursor.source_key)
            else elim (capability_by_code key) [
              | some c ↦ some (placed (some c.domain_id) (some c.id))
              | none ↦ elim (domain_by_code key) [
                | some d ↦ some (placed (some d.id) none)
                | none ↦ elim (by_key key) [ none ↦ some (unknown key) | some parent ↦ up parent ]
              ]
            ]
      ]

  -- `resolvePlacement`
  unfoldable pub resolve_placement : ℕ → ExecutionManifestItem → Option PlacementVerdict
  unfolding resolve_from
  resolve_placement fuel item = resolve_from fuel [] item
