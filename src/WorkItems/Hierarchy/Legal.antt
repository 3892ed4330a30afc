-- ===== src/WorkItems/Hierarchy/Legal.antt =====
-- What the verdict of `checkParent` means for the forest of parents.
use nola_hq_backend.Common.{
  ℕ, zero, suc, ◌≡◌, refl, sym, Option, none, some, List, [], ◌∷◌, ◌++◌, ◌==◌, contains, In, inl,
  inr, ◌⊎◌, true, Bool-cases, beq→eq, contains→In, beq→ne, nat_eq, if◌then◌else◌, subst,
}
use nola_hq_backend.Common.Graph.{
  Reaches, here, step, IsAcyclic, AddsOnly, add-IsAcyclic, Reaches-map,
}
use nola_hq_backend.WorkItems.Types.{type_eq}
use nola_hq_backend.WorkItems.Hierarchy.{
  HierarchyNode, parent_of, climb, check_parent, cycle, allowed_parent_types,
}

-- `y` is the parent of `x`.
abbrev pub Parent : (ℕ → Option HierarchyNode) → ℕ → ℕ → Type 0
Parent ancestors x y = parent_of (ancestors x) ≡ some y

-- The parents once `child` is filed under `parent`.
abbrev pub reparent :
    (ℕ → Option HierarchyNode) → HierarchyNode → Option HierarchyNode → ℕ → Option HierarchyNode
reparent ancestors child parent i =
    if i == child.id
    then some (record child { parent_id = elim parent [ none ↦ none | some p ↦ some p.id ] })
    else ancestors i

module _ (ancestors : ℕ → Option HierarchyNode) (child : ℕ) where
  -- The loop's invariant: the marked ids are left only towards the cursor.
  abbrev Leaves : List ℕ → Option ℕ → Type 0
  Leaves seen cursor = (x y : ℕ) → In x seen → Parent ancestors x y → In y seen ⊎ (cursor ≡ some y)

  stays :
      (seen : List ℕ)
      → ((x y : ℕ) → In x seen → Parent ancestors x y → In y seen)
      → {x y : ℕ} → In x seen
      → Reaches (Parent ancestors) x y
      → In y seen
  stays seen closed m here = m
  stays seen closed {x} m (step {b = b} s p) = stays seen closed (closed x b m s) p

  climb_sound :
      (fuel : ℕ) (path seen : List ℕ) (cursor : Option ℕ)
      → climb ancestors fuel child path seen cursor ≡ some none
      → Leaves seen cursor
      → ¬ In child seen
      → (x : ℕ) → In x seen
      → ¬ Reaches (Parent ancestors) x child
  unfolding climb
  climb_sound fuel path seen none e leaves out x m r =
      out
        (stays seen (λ a b ma s. elim (leaves a b ma s) [ inl q ↦ q | inr q ↦ absurd (cc q) ]) m r)
  climb_sound zero path seen (some c) e leaves out x m r = cc
  climb_sound (suc fuel) path seen (some c) e leaves out x m r = elim (Bool-cases (c == child)) [
    | inl hit ↦ cc (rw (hit, climb) at e)
    | inr miss ↦ elim (Bool-cases (contains seen c)) [
      | inl old ↦ out (
          stays seen
            (λ a b ma s. elim (leaves a b ma s) [
              | inl q ↦ q
              | inr q ↦ contains→In seen b (subst (λ t. contains seen t ≡ true) (cc q) old)
            ])
            m r)
      | inr new ↦
          climb_sound fuel (path ++ c ∷ []) (c ∷ seen) (parent_of (ancestors c))
            (rw (miss, new, climb) at e) (λ a b ma s. marked a b s ma)
            (λ h. elim h [ inl q ↦ beq→ne c child miss (sym q) | inr q ↦ out q ]) x (inr m) r
    ]
  ]
    where
      marked :
          (a b : ℕ)
          → Parent ancestors a b
          → (a ≡ c) ⊎ In a seen
          → ((b ≡ c) ⊎ In b seen) ⊎ (parent_of (ancestors c) ≡ some b)
      marked a b s (inl q) = inr (subst (λ t. Parent ancestors t b) q s)
      marked a b s (inr ma) = elim (leaves a b ma s) [
        | inl q ↦ inl (inr q)
        | inr q ↦ inl (inl (cc q))
      ]

  climb_cycle :
      (fuel : ℕ) (path seen found : List ℕ) (from : ℕ) (cursor : Option ℕ)
      → parent_of (ancestors from) ≡ cursor
      → climb ancestors fuel child path seen cursor ≡ some (some (cycle found))
      → Reaches (Parent ancestors) from child
  unfolding climb
  climb_cycle fuel path seen found from none p e = cc
  climb_cycle zero path seen found from (some c) p e = cc
  climb_cycle (suc fuel) path seen found from (some c) p e = elim (Bool-cases (c == child)) [
    | inl hit ↦ step p (subst (λ t. Reaches (Parent ancestors) c t) (beq→eq c child hit) here)
    | inr miss ↦ elim (Bool-cases (contains seen c)) [
      | inl old ↦ cc (rw (miss, old, climb) at e)
      | inr new ↦ step p (
          climb_cycle fuel (path ++ c ∷ []) (c ∷ seen) found c (parent_of (ancestors c)) refl
            (rw (miss, new, climb) at e))
    ]
  ]

reparent_adds :
    (ancestors : ℕ → Option HierarchyNode) (child parent : HierarchyNode)
    → AddsOnly
        (Parent ancestors)
        (Parent (reparent ancestors child (some parent)))
        child.id
        parent.id
reparent_adds ancestors child parent a b s = elim (Bool-cases (a == child.id)) [
  | inl same ↦ inr (beq→eq a child.id same, cc (rw same at s))
  | inr other ↦ inl (rw other at s)
]

check_parent-unreached :
    (ancestors : ℕ → Option HierarchyNode) (fuel : ℕ) (child parent : HierarchyNode)
    → ancestors parent.id ≡ some parent
    → check_parent ancestors fuel child (some parent) ≡ some none
    → ¬ Reaches (Parent ancestors) parent.id child.id
unfolding check_parent
check_parent-unreached ancestors fuel child parent stored e =
    elim (Bool-cases (parent.id == child.id)) [
      | inl hit ↦ absurd (cc (rw (hit, check_parent) at e))
      | inr miss ↦ elim (Bool-cases (contains (allowed_parent_types child.type) parent.type)) [
        | inr refused ↦ absurd (cc (rw (miss, refused, check_parent) at e))
        | inl allowed ↦
            climb_sound ancestors child.id fuel (parent.id ∷ []) (parent.id ∷ []) parent.parent_id
              (rw (miss, allowed, check_parent) at e) (λ x y m s. inr (start x y m s))
              (λ h. elim h [ inl q ↦ beq→ne _ _ miss (sym q) | inr q ↦ q ]) parent.id (inl refl)
      ]
    ]
  where
    start : (x y : ℕ) → (x ≡ parent.id) ⊎ ⊥ → Parent ancestors x y → parent.parent_id ≡ some y
    start x y (inl q) s = rw (q, stored) at s
    start x y (inr q) s = absurd q

reparent-none :
    (ancestors : ℕ → Option HierarchyNode) (child : HierarchyNode) (a b : ℕ)
    → Parent (reparent ancestors child none) a b
    → Parent ancestors a b
reparent-none ancestors child a b s = elim (Bool-cases (a == child.id)) [
  | inl same ↦ absurd (cc (rw same at s))
  | inr other ↦ rw other at s
]

-- A reattachment that `checkParent` finds legal leaves no item above itself, if no item was above
-- itself before and the proposed parent is stored under its own id. Detaching (no parent) never
-- makes a cycle.
pub check_parent-IsAcyclic :
    (ancestors : ℕ → Option HierarchyNode) (fuel : ℕ) (child : HierarchyNode)
    (parent : Option HierarchyNode)
    → ((p : HierarchyNode) → parent ≡ some p → ancestors p.id ≡ some p)
    → IsAcyclic (Parent ancestors)
    → check_parent ancestors fuel child parent ≡ some none
    → IsAcyclic (Parent (reparent ancestors child parent))
check_parent-IsAcyclic ancestors fuel child none stored acyclic e a b s p =
    acyclic a b (reparent-none ancestors child a b s)
      (Reaches-map (reparent-none ancestors child) p)
check_parent-IsAcyclic ancestors fuel child (some parent) stored acyclic e a b s p =
    add-IsAcyclic (Parent ancestors) (Parent (reparent ancestors child (some parent))) child.id
      parent.id (reparent_adds ancestors child parent)
      (check_parent-unreached ancestors fuel child parent (stored parent refl) e) acyclic a b s p

-- A reattachment is refused as a cycle only where the child is above the proposed parent, if that
-- parent is stored under its own id.
pub check_parent-cycle_sound :
    (ancestors : ℕ → Option HierarchyNode) (fuel : ℕ) (child parent : HierarchyNode) (path : List ℕ)
    → ancestors parent.id ≡ some parent
    → check_parent ancestors fuel child (some parent) ≡ some (some (cycle path))
    → Reaches (Parent ancestors) parent.id child.id
unfolding check_parent
check_parent-cycle_sound ancestors fuel child parent path stored e =
    elim (Bool-cases (parent.id == child.id)) [
      | inl hit ↦ absurd (cc (rw (hit, check_parent) at e))
      | inr miss ↦ elim (Bool-cases (contains (allowed_parent_types child.type) parent.type)) [
        | inr refused ↦ absurd (cc (rw (miss, refused, check_parent) at e))
        | inl allowed ↦
            climb_cycle ancestors child.id fuel (parent.id ∷ []) (parent.id ∷ []) path parent.id
              parent.parent_id (rw stored) (rw (miss, allowed, check_parent) at e)
      ]
    ]
