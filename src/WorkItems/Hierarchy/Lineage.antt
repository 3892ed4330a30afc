-- ===== src/WorkItems/Hierarchy/Lineage.antt =====
-- The chain that `lineageOf` returns.
use nola_hq_backend.Common.{
  ℕ, zero, suc, ◌<◌, ◌≡◌, Option, none, some, List, [], ◌∷◌, ◌++◌, contains, In, inl, inr, true,
  false, Bool-cases, Option-cases, arith, nat_eq, length, ◌∙◌,
}
use mathlib.Core.List.{append_assoc, append-nil}
use nola_hq_backend.Common.Seen.{unseen, unseen-cons-lt, unseen-le-length}
use nola_hq_backend.WorkItems.Hierarchy.{HierarchyNode, lineage_from, lineage_of}

-- A climb from `cursor` that has passed the ids of `seen`: nearest first, no id twice, and it ends
-- only at the top, at an id passed before, or at one that resolves to nothing.
pub data IsLineage (ancestors : ℕ → Option HierarchyNode)
    : List ℕ → Option ℕ → List HierarchyNode → Type 0 where
  top : {seen : List ℕ} → IsLineage ancestors seen none []
  repeated : {seen : List ℕ} {c : ℕ} → contains seen c ≡ true → IsLineage ancestors seen (some c) []
  missing : {seen : List ℕ} {c : ℕ} → ancestors c ≡ none → IsLineage ancestors seen (some c) []
  above :
      {seen : List ℕ} {c : ℕ} {node : HierarchyNode} {rest : List HierarchyNode}
      → contains seen c ≡ false
      → ancestors c ≡ some node
      → IsLineage ancestors (c ∷ seen) node.parent_id rest
      → IsLineage ancestors seen (some c) (node ∷ rest)

module _ (ancestors : ℕ → Option HierarchyNode) (dom : List ℕ)
    (finite : (i : ℕ) (node : HierarchyNode) → ancestors i ≡ some node → In i dom) where
  lineage_from_lem :
      (fuel : ℕ) (chain : List HierarchyNode) (seen : List ℕ) (cursor : Option ℕ)
      → unseen seen dom < fuel
      → (rest : List HierarchyNode) × (lineage_from ancestors fuel chain seen cursor
          ≡ some (chain ++ rest))
        × IsLineage ancestors seen cursor rest
  unfolding lineage_from
  lineage_from_lem fuel chain seen none h = ([], rw append-nil, top)
  lineage_from_lem zero chain seen (some c) h = absurd (omega arith)
  lineage_from_lem (suc fuel) chain seen (some c) h = elim (Bool-cases (contains seen c)) [
    | inl old ↦ ([], rw (old, append-nil), repeated old)
    | inr new ↦ elim (Option-cases (ancestors c)) [
      | inl lost ↦ ([], rw (new, append-nil) (rw (lost, lineage_from)), missing lost)
      | inr (node, found) ↦
          let (rest, runs, fits) =
            lineage_from_lem fuel (chain ++ node ∷ []) (c ∷ seen) node.parent_id
              (omega (arith, unseen-cons-lt seen dom c (finite c node found) new)) in
          (
            node ∷ rest,
            rw new (rw (found, lineage_from) (runs ∙ (rw append_assoc))),
            above new found fits,
          )
    ]
  ]

  -- With fuel for one more step than there are items that resolve, `lineageOf` ends, and returns
  -- the whole climb from the item's parent, which never passes the item itself.
  pub lineage_of_lem :
      (node : HierarchyNode)
      → (chain : List HierarchyNode) × (lineage_of ancestors (suc (length dom)) node ≡ some chain)
        × IsLineage ancestors (node.id ∷ []) node.parent_id chain
  unfolding lineage_of
  lineage_of_lem node =
      lineage_from_lem (suc (length dom)) [] (node.id ∷ []) node.parent_id
        (omega (arith, unseen-le-length (node.id ∷ []) dom))
