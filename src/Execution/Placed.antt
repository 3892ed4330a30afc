-- ===== src/Execution/Placed.antt =====
-- What the verdict of `resolvePlacement` says.
use nola_hq_backend.Common.{
  ℕ, zero, suc, ◌<◌, ◌≡◌, refl, sym, inl, inr, Option, none, some, List, [], ◌∷◌, string_eq,
  contains, In, length, String, arith, Bool-cases, Option-cases, contains→In, ◌⊎◌,
}
use nola_hq_backend.Common.Graph.{Reaches, here, step, Reaches-trans}
use nola_hq_backend.Common.Seen.{unseen, unseen-cons-lt, unseen-le-length}
use nola_hq_backend.Execution.{
  ExecutionManifestItem, Capability, Domain, PlacementVerdict, placed, cyclic, unknown,
  declared_parent, resolve_from, resolve_placement,
}

module _ (by_key : String → Option ExecutionManifestItem) (domain_by_code : String → Option Domain)
    (capability_by_code : String → Option Capability) where
  -- `b` is the item that `a` declares as its parent.
  pub data Up : ExecutionManifestItem → ExecutionManifestItem → Type 0 where
    up :
        {a b : ExecutionManifestItem} (key : String)
        → declared_parent a ≡ some key
        → by_key key ≡ some b
        → Up a b

  -- Why the climb ends at `a` with a verdict.
  pub data Ends (a : ExecutionManifestItem) : PlacementVerdict → Type 0 where
    unfiled : declared_parent a ≡ none → Ends a (placed none none)
    in_capability :
        (key : String) (c : Capability)
        → declared_parent a ≡ some key
        → capability_by_code key ≡ some c
        → Ends a (placed (some c.domain_id) (some c.id))
    in_domain :
        (key : String) (d : Domain)
        → declared_parent a ≡ some key
        → capability_by_code key ≡ none
        → domain_by_code key ≡ some d
        → Ends a (placed (some d.id) none)
    lost :
        (key : String)
        → declared_parent a ≡ some key
        → capability_by_code key ≡ none
        → domain_by_code key ≡ none
        → by_key key ≡ none
        → Ends a (unknown key)
    looped :
        (b m : ExecutionManifestItem)
        → b.source_key ≡ a.source_key
        → Up b m
        → Reaches Up m a
        → Ends a (cyclic a.source_key)

  -- The marked keys are those of items that the climb has left.
  abbrev Left : List String → ExecutionManifestItem → Type 0
  Left seen cursor =
      (key : String)
      → In key seen
      → (b : ExecutionManifestItem) × (m : ExecutionManifestItem) × (b.source_key ≡ key)
        × Up b m
        × Reaches Up m cursor

  module _ (dom : List String)
      (finite : (key : String) (i : ExecutionManifestItem)
        → by_key key ≡ some i
        → In i.source_key dom) where
    climb_lem :
        (fuel : ℕ) (seen : List String) (cursor : ExecutionManifestItem)
        → unseen seen dom < fuel
        → In cursor.source_key dom
        → Left seen cursor
        → (v : PlacementVerdict) × (resolve_from by_key domain_by_code capability_by_code fuel seen
              cursor
            ≡ some v)
          × (a : ExecutionManifestItem) × Reaches Up cursor a
          × Ends a v
    unfolding resolve_from
    climb_lem zero seen cursor h m left = absurd (omega arith)
    climb_lem (suc fuel) seen cursor h m left = elim (Option-cases (declared_parent cursor)) [
      | inl free ↦ (placed none none, rw (free, resolve_from) refl, cursor, here, unfiled free)
      | inr (key, asks) ↦ elim (Bool-cases (contains seen cursor.source_key)) [
        | inl old ↦
            let (b, n, same, link, path) =
              left cursor.source_key (contains→In seen cursor.source_key old) in
            (
              cyclic cursor.source_key,
              rw (asks, old, resolve_from) refl,
              cursor,
              here,
              looped b n same link path,
            )
        | inr new ↦ elim (Option-cases (capability_by_code key)) [
          | inr (c, is) ↦ (
            placed (some c.domain_id) (some c.id),
            rw (asks, new, is, resolve_from) refl,
            cursor,
            here,
            in_capability key c asks is,
          )
          | inl no_capability ↦ elim (Option-cases (domain_by_code key)) [
            | inr (d, is) ↦ (
              placed (some d.id) none,
              rw (asks, new, no_capability, is, resolve_from) refl,
              cursor,
              here,
              in_domain key d asks no_capability is,
            )
            | inl no_domain ↦ elim (Option-cases (by_key key)) [
              | inl missing ↦ (
                unknown key,
                rw (asks, new, no_capability, no_domain, missing, resolve_from) refl,
                cursor,
                here,
                lost key asks no_capability no_domain missing,
              )
              | inr (parent, is) ↦
                  let link : Up cursor parent = up key asks is in
                  let (v, runs, a, path, ends) =
                    climb_lem fuel (cursor.source_key ∷ seen) parent
                      (omega (arith, unseen-cons-lt seen dom cursor.source_key m new))
                      (finite key parent is)
                      (λ k among. extend seen cursor parent link left k among) in
                  (
                    v,
                    rw (asks, new, no_capability, no_domain, is, resolve_from) runs,
                    a,
                    step link path,
                    ends,
                  )
            ]
          ]
        ]
      ]
    ]
      where
        extend :
            (seen : List String) (cursor parent : ExecutionManifestItem)
            → Up cursor parent
            → Left seen cursor
            → (k : String) → (k ≡ cursor.source_key) ⊎ In k seen
            → (b : ExecutionManifestItem) × (m : ExecutionManifestItem) × (b.source_key ≡ k)
              × Up b m
              × Reaches Up m parent
        extend seen cursor parent link left k (inl e) = (cursor, parent, sym e, link, here)
        extend seen cursor parent link left k (inr among) =
            let (b, m, same, out, path) = left k among in
            (b, m, same, out, Reaches-trans path (step link here))

    -- With fuel for one more step than there are keys, the placement of an item is decided, and the
    -- verdict is that of an item reached by declared parents: one without a parent is not filed, one
    -- whose parent is a capability or a domain is placed there, one whose parent is in neither
    -- register nor document is refused, and so is one whose key the climb had left before.
    pub resolve_placement_lem :
        (item : ExecutionManifestItem)
        → In item.source_key dom
        → (v : PlacementVerdict) × (resolve_placement by_key domain_by_code capability_by_code
              (suc (length dom))
              item
            ≡ some v)
          × (a : ExecutionManifestItem) × Reaches Up item a
          × Ends a v
    unfolding resolve_placement
    resolve_placement_lem item m =
        climb_lem (suc (length dom)) [] item (omega (arith, unseen-le-length [] dom)) m
          (λ key among. absurd among)
