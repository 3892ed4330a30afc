-- ===== src/Tests/Access.antt =====
-- A handoff redeemed, and an item placed by its epic.
use nola_hq_backend.Common.{
  ◌≡◌, refl, inl, inr, Option, none, some, List, [], ◌∷◌, ◌==◌, string_eq, find, String, In, arith,
  find_sound,
}
use nola_hq_backend.Common.Graph.{Reaches}
use nola_hq_backend.Assist.{Handoff, read, redeem, create_handoff}
use nola_hq_backend.Assist.Redeem.{redeem-once, create_handoff-redeem}
use nola_hq_backend.Execution.{
  ExecutionManifestItem, Capability, Domain, PlacementVerdict, resolve_placement,
}
use nola_hq_backend.Execution.Placed.{Up, Ends, resolve_placement_lem}

abbrev handoff : Handoff
handoff = record {
  access_token = "a";
  refresh_token = "r";
  realm = "hq";
  app = "shop";
  mode = read;
  by = "ana";
  by_name = none;
  reason = "help";
  target_user_id = "u";
  expires_at = 100;
}

redeem-once_example : (redeem (redeem (("c", handoff) ∷ []) "c" 90).0 "c" 95).1 ≡ none
redeem-once_example = (redeem-once (("c", handoff) ∷ []) "c" 90 95).1

create_handoff-redeem_example :
    (redeem (create_handoff [] handoff "c" 5).0 "c" 60005).1
    ≡ some (record handoff { expires_at = 60005 })
create_handoff-redeem_example =
    create_handoff-redeem [] handoff "c" 5 60005 refl (omega arith) (omega arith)

abbrev epic_item : ExecutionManifestItem
epic_item = record { source_key = "E1"; parent_key = some "C1" }

abbrev story_item : ExecutionManifestItem
story_item = record { source_key = "S1"; parent_key = some "E1" }

abbrev document : List ExecutionManifestItem
document = epic_item ∷ story_item ∷ []

abbrev by_key : String → Option ExecutionManifestItem
by_key key = find (λ (i : ExecutionManifestItem). i.source_key == key) document

abbrev no_domain : String → Option Domain
no_domain code = none

abbrev one_capability : String → Option Capability
one_capability code =
    find (λ (c : Capability). c.id == code) (record { id = "C1"; domain_id = "D1" } ∷ [])

keys_finite :
    (key : String) (i : ExecutionManifestItem)
    → by_key key ≡ some i
    → In i.source_key ("E1" ∷ "S1" ∷ [])
keys_finite key i h =
    pick i (find_sound (λ (i : ExecutionManifestItem). i.source_key == key) document h).0
  where
    pick : (i : ExecutionManifestItem) → In i document → In i.source_key ("E1" ∷ "S1" ∷ [])
    pick i (inl e) = inl (cc)
    pick i (inr (inl e)) = inr (inl (cc))
    pick i (inr (inr n)) = absurd n

resolve_placement_lem_example :
    (v : PlacementVerdict) × (resolve_placement by_key no_domain one_capability 3 story_item
      ≡ some v)
    × (a : ExecutionManifestItem) × Reaches (Up by_key no_domain one_capability) story_item a
    × Ends by_key no_domain one_capability a v
resolve_placement_lem_example =
    resolve_placement_lem by_key no_domain one_capability ("E1" ∷ "S1" ∷ []) keys_finite story_item
      (inr (inl refl))
