-- ===== src/WorkItems/Planning/Dependencies/Acyclic.antt =====
-- The dependency table stays free of cycles.
use nola_hq_backend.Common.{
  ℕ, ◌≡◌, ◌≢◌, Bool, true, false, not, ◌⊎◌, inl, inr, some, List, [], ◌∷◌, ◌++◌, ◌==◌, nat_eq,
  string_eq, option_eq, filter, In, arith, Bool-cases, String, ok, ◌∙◌, subst,
}
use nola_hq_backend.Common.Graph.{IsAcyclic, add-IsAcyclic, Reaches-map}
use nola_hq_backend.WorkItems.Planning.Dependencies.{
  WorkItemDependency, DependencyTables, targets, reaches, search_fuel, add_dependency,
  remove_dependency,
}
use nola_hq_backend.WorkItems.Planning.Dependencies.Search.{DependsOn, reaches_decides}

targets-append :
    (edges : List WorkItemDependency) (e : WorkItemDependency) (a b : ℕ)
    → DependsOn (edges ++ e ∷ []) a b
    → DependsOn edges a b ⊎ ((a ≡ e.work_item_id) × (b ≡ e.depends_on_id))
targets-append [] e a b m = elim (Bool-cases (e.work_item_id == a)) [
  | inr other ↦ absurd (rw other at m)
  | inl same ↦ last (ground arith) (rw same at m)
]
  where
    last :
        a ≡ e.work_item_id
        → (b ≡ e.depends_on_id) ⊎ ⊥
        → ⊥ ⊎ ((a ≡ e.work_item_id) × (b ≡ e.depends_on_id))
    last p (inl q) = inr (p, q)
    last p (inr q) = absurd q
targets-append (x ∷ edges) e a b m = elim (Bool-cases (x.work_item_id == a)) [
  | inr other ↦ rw other (targets-append edges e a b (rw other at m))
  | inl same ↦ rw same (first (rw same at m) (targets-append edges e a b))
]
  where
    first :
        (b ≡ x.depends_on_id) ⊎ In b (targets (edges ++ e ∷ []) a)
        → (In b (targets (edges ++ e ∷ []) a)
            → DependsOn edges a b ⊎ ((a ≡ e.work_item_id) × (b ≡ e.depends_on_id)))
        → ((b ≡ x.depends_on_id) ⊎ In b (targets edges a))
          ⊎ ((a ≡ e.work_item_id) × (b ≡ e.depends_on_id))
    first (inl q) ih = inl (inl q)
    first (inr q) ih = elim (ih q) [ inl r ↦ inl (inr r) | inr r ↦ inr r ]

targets-filter :
    (p : WorkItemDependency → Bool) (edges : List WorkItemDependency) (a b : ℕ)
    → DependsOn (filter p edges) a b
    → DependsOn edges a b
targets-filter p [] a b m = m
targets-filter p (x ∷ edges) a b m = elim (Bool-cases (p x)) [
  | inr drop ↦ elim (Bool-cases (x.work_item_id == a)) [
    | inl same ↦ rw same (inr (targets-filter p edges a b (rw drop at m)))
    | inr other ↦ rw other (targets-filter p edges a b (rw drop at m))
  ]
  | inl keep ↦ elim (Bool-cases (x.work_item_id == a)) [
    | inl same ↦ rw same (both (rw (keep, same) at m) (targets-filter p edges a b))
    | inr other ↦ rw other (targets-filter p edges a b (rw (keep, other) at m))
  ]
]
  where
    both :
        (b ≡ x.depends_on_id) ⊎ In b (targets (filter p edges) a)
        → (In b (targets (filter p edges) a) → In b (targets edges a))
        → (b ≡ x.depends_on_id) ⊎ In b (targets edges a)
    both (inl q) ih = inl q
    both (inr q) ih = inr (ih q)

-- What the table of an accepted dependency is.
accepted :
    (t t' : DependencyTables) (fuel w d : ℕ) (actor new_id : String) (now : ℕ)
    (e : WorkItemDependency)
    → add_dependency t fuel w d actor new_id now ≡ some (ok (t', e))
    → (reaches t.dependencies fuel d w ≡ some false)
      × (t'.dependencies ≡ t.dependencies ++ e ∷ [])
      × (e.work_item_id ≡ w)
      × (e.depends_on_id ≡ d)
      × (w ≢ d)
unfolding add_dependency
accepted t t' fuel w d actor new_id now e h =
    (ground arith, ground arith, ground arith, ground arith, ground arith)

-- A dependency that is accepted leaves no cycle in the table, if there was none.
pub add_dependency-IsAcyclic :
    (t t' : DependencyTables) (fuel w d : ℕ) (actor new_id : String) (now : ℕ)
    (e : WorkItemDependency)
    → IsAcyclic (DependsOn t.dependencies)
    → fuel ≡ search_fuel t.dependencies
    → add_dependency t fuel w d actor new_id now ≡ some (ok (t', e))
    → IsAcyclic (DependsOn t'.dependencies)
add_dependency-IsAcyclic t t' fuel w d actor new_id now e acyclic full h =
    let (answer, stored, from, to, _) = accepted t t' fuel w d actor new_id now e h in
    let (b, runs, means) = reaches_decides t.dependencies d w in
    add-IsAcyclic (DependsOn t.dependencies) (DependsOn t'.dependencies) w d
      (λ a b s.
        let m = targets-append t.dependencies e a b (rw stored at s) in
        elim m [ inl q ↦ inl q | inr q ↦ inr (q.0 ∙ from, q.1 ∙ to) ])
      (λ r. let found : b ≡ true = means.1 r in cc (rw full at answer)) acyclic

-- Removing a dependency leaves no cycle in the table, if there was none.
pub remove_dependency-IsAcyclic :
    (t t' : DependencyTables) (id actor : String) (now : ℕ)
    → IsAcyclic (DependsOn t.dependencies)
    → remove_dependency t id actor now ≡ ok t'
    → IsAcyclic (DependsOn t'.dependencies)
unfolding remove_dependency
remove_dependency-IsAcyclic t t' id actor now acyclic h a b s p =
    let keep = λ (e : WorkItemDependency). not (e.id == id) in
    let stored : t'.dependencies ≡ filter keep t.dependencies = ground arith in
    let part = λ (x y : ℕ) (q : DependsOn t'.dependencies x y).
      targets-filter keep t.dependencies x y (subst (λ l. DependsOn l x y) stored q) in
    acyclic a b (part a b s) (Reaches-map part p)
