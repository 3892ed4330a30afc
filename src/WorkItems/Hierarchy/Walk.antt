-- ===== src/WorkItems/Hierarchy/Walk.antt =====
-- The walks of work-item-hierarchy.ts end, and what a legal verdict means for the ids above.
use nola_hq_backend.Common.{
  ℕ, zero, suc, ◌<◌, ◌≡◌, refl, Option, none, some, List, [], ◌∷◌, ◌++◌, ◌==◌, contains, In, inl,
  inr, Bool-cases, Option-cases, arith, nat_eq, length,
}
use nola_hq_backend.Common.Seen.{unseen, unseen-cons-lt, unseen-le-length}
use nola_hq_backend.WorkItems.Types.{type_eq}
use nola_hq_backend.WorkItems.Hierarchy.{
  HierarchyNode, HierarchyViolation, parent_of, climb, check_parent, cycle, self, forbidden,
  allowed_parent_types,
}

module _ (ancestors : ℕ → Option HierarchyNode) (dom : List ℕ)
    (finite : (i : ℕ) (node : HierarchyNode) → ancestors i ≡ some node → In i dom) where
  -- With fuel for the ids that resolve, the walk of `checkParent` ends.
  pub climb_total :
      (fuel child : ℕ) (path seen : List ℕ) (cursor : Option ℕ)
      → unseen seen dom < fuel
      → (v : Option HierarchyViolation) × (climb ancestors fuel child path seen cursor ≡ some v)
  unfolding climb
  climb_total fuel child path seen none h = (none, refl)
  climb_total zero child path seen (some c) h = absurd (omega arith)
  climb_total (suc fuel) child path seen (some c) h = elim (Bool-cases (c == child)) [
    | inl hit ↦ (some (cycle (path ++ child ∷ [])), rw hit)
    | inr miss ↦ elim (Bool-cases (contains seen c)) [
      | inl old ↦ (none, rw (miss, old))
      | inr new ↦ elim (Option-cases (ancestors c)) [
        | inl lost ↦ (none, rw (miss, new, lost))
        | inr (node, found) ↦
            rw (miss, new)
              (climb_total fuel child (path ++ c ∷ []) (c ∷ seen) (parent_of (ancestors c))
                (omega (arith, unseen-cons-lt seen dom c (finite c node found) new)))
      ]
    ]
  ]

  -- `checkParent` gives a verdict with fuel for one more step than the list has entries, if every
  -- item that resolves is in the list.
  pub check_parent_total :
      (child : HierarchyNode) (parent : Option HierarchyNode)
      → (v : Option HierarchyViolation) × (check_parent ancestors (suc (length dom)) child parent
          ≡ some v)
  unfolding check_parent
  check_parent_total child none = (none, refl)
  check_parent_total child (some parent) = elim (Bool-cases (parent.id == child.id)) [
    | inl hit ↦ (some self, rw hit)
    | inr miss ↦ elim (Bool-cases (contains (allowed_parent_types child.type) parent.type)) [
      | inr refused ↦ (
        some (forbidden child.type parent.type (allowed_parent_types child.type)),
        rw (miss, refused),
      )
      | inl allowed ↦
          rw (miss, allowed)
            (climb_total (suc (length dom)) child.id (parent.id ∷ []) (parent.id ∷ [])
              parent.parent_id (omega (arith, unseen-le-length (parent.id ∷ []) dom)))
    ]
  ]
