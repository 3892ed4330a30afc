-- ===== src/WorkItems/Planning/Dependencies/Search.antt =====
-- The breadth-first search of `reaches` ends and decides reachability.
use nola_hq_backend.Common.{
  ℕ, zero, suc, ◌+◌, ◌≤◌, ◌<◌, ◌≡◌, refl, sym, subst, Bool, true, false, not, ◌⊎◌, inl, inr, ◌↔◌,
  some, List, [], ◌∷◌, ◌++◌, ◌==◌, nat_eq, contains, length, In, arith, Bool-cases, count_if,
  beq→eq, beq→ne, contains→In, length-append, In-append_left, In-append_right, In-append_cases,
}
use nola_hq_backend.Common.Graph.{Reaches, here, step, Reaches-trans}
use nola_hq_backend.WorkItems.Planning.Dependencies.{
  WorkItemDependency, targets, reach_loop, reaches, search_fuel,
}

-- A row says that `a` depends on `b`.
abbrev pub DependsOn : List WorkItemDependency → ℕ → ℕ → Type 0
DependsOn edges a b = In b (targets edges a)

-- The rows whose source has not been expanded.
pending : List ℕ → List WorkItemDependency → ℕ
pending seen = count_if (λ (e : WorkItemDependency). not (contains seen e.work_item_id))

pending-cons :
    (seen : List ℕ) (c : ℕ) (edges : List WorkItemDependency)
    → contains seen c ≡ false
    → pending (c ∷ seen) edges + length (targets edges c) ≡ pending seen edges
unfolding pending
pending-cons seen c [] h = omega arith
pending-cons seen c (e ∷ edges) h = elim (Bool-cases (e.work_item_id == c)) [
  | inl same ↦
      let new : contains seen e.work_item_id ≡ false = rw (beq→eq e.work_item_id c same) h in
      let flip : (c == e.work_item_id) ≡ true = ground arith in
      rw (same, flip, new) (omega (arith, pending-cons seen c edges h))
  | inr other ↦
      let flip : (c == e.work_item_id) ≡ false = ground arith in
      elim (Bool-cases (contains seen e.work_item_id)) [
        | inl old ↦ rw (other, flip, old) (pending-cons seen c edges h)
        | inr new ↦ rw (other, flip, new) (omega (arith, pending-cons seen c edges h))
      ]
]

pending-le : (seen : List ℕ) (edges : List WorkItemDependency) → pending seen edges ≤ length edges
unfolding pending
pending-le seen [] = omega arith
pending-le seen (e ∷ edges) = ground (arith, pending-le seen edges)

module _ (edges : List WorkItemDependency) (target : ℕ) where
  reach_loop_total :
      (fuel : ℕ) (seen queue : List ℕ)
      → length queue + pending seen edges < fuel
      → (b : Bool) × (reach_loop edges fuel target seen queue ≡ some b)
  unfolding reach_loop
  reach_loop_total fuel seen [] h = (false, refl)
  reach_loop_total zero seen (c ∷ queue) h = absurd (omega arith)
  reach_loop_total (suc fuel) seen (c ∷ queue) h = elim (Bool-cases (c == target)) [
    | inl hit ↦ (true, rw hit)
    | inr miss ↦ elim (Bool-cases (contains seen c)) [
      | inl old ↦ rw (miss, old) (reach_loop_total fuel seen queue (omega arith))
      | inr new ↦
          rw (miss, new)
            (reach_loop_total fuel (c ∷ seen) (queue ++ targets edges c)
              (omega (arith, pending-cons seen c edges new, length-append queue (targets edges c))))
    ]
  ]

  reach_loop_sound :
      (fuel from : ℕ) (seen queue : List ℕ)
      → ((a : ℕ) → In a queue → Reaches (DependsOn edges) from a)
      → reach_loop edges fuel target seen queue ≡ some true
      → Reaches (DependsOn edges) from target
  unfolding reach_loop
  reach_loop_sound fuel from seen [] inv e = cc
  reach_loop_sound zero from seen (c ∷ queue) inv e = cc
  reach_loop_sound (suc fuel) from seen (c ∷ queue) inv e = elim (Bool-cases (c == target)) [
    | inl hit ↦
        subst (λ t. Reaches (DependsOn edges) from t) (beq→eq c target hit) (inv c (inl refl))
    | inr miss ↦ elim (Bool-cases (contains seen c)) [
      | inl old ↦
          reach_loop_sound fuel from seen queue (λ a m. inv a (inr m))
            (rw (miss, old, reach_loop) at e)
      | inr new ↦
          reach_loop_sound fuel from (c ∷ seen) (queue ++ targets edges c)
            (λ a m. elim (In-append_cases a queue (targets edges c) m) [
              | inl q ↦ inv a (inr q)
              | inr q ↦ Reaches-trans (inv c (inl refl)) (step q here)
            ])
            (rw (miss, new, reach_loop) at e)
    ]
  ]

  -- The invariant of a search that has not met the target: what is marked is left only towards
  -- what is marked or waits.
  abbrev Covers : List ℕ → List ℕ → Type 0
  Covers seen queue =
      ((a b : ℕ) → In a seen → DependsOn edges a b → In b seen ⊎ In b queue) × (¬ In target seen)

  stays :
      (seen : List ℕ)
      → ((a b : ℕ) → In a seen → DependsOn edges a b → In b seen ⊎ In b [])
      → {x y : ℕ} → In x seen
      → Reaches (DependsOn edges) x y
      → In y seen
  stays seen closed m here = m
  stays seen closed {x} m (step {b = b} s p) = elim (closed x b m s) [
    | inl q ↦ stays seen closed q p
    | inr q ↦ absurd q
  ]

  reach_loop_complete :
      (fuel from : ℕ) (seen queue : List ℕ)
      → Covers seen queue
      → In from seen ⊎ In from queue
      → reach_loop edges fuel target seen queue ≡ some false
      → ¬ Reaches (DependsOn edges) from target
  unfolding reach_loop
  reach_loop_complete fuel from seen [] inv (inl m) e r = inv.1 (stays seen inv.0 m r)
  reach_loop_complete fuel from seen [] inv (inr m) e r = m
  reach_loop_complete zero from seen (c ∷ queue) inv m e r = cc
  reach_loop_complete (suc fuel) from seen (c ∷ queue) inv m e r = elim (Bool-cases (c == target)) [
    | inl hit ↦ cc (rw (hit, reach_loop) at e)
    | inr miss ↦ elim (Bool-cases (contains seen c)) [
      | inl old ↦
          reach_loop_complete fuel from seen queue
            (λ a b ma s. drop b (contains→In seen c old) (inv.0 a b ma s), inv.1)
            (drop from (contains→In seen c old) m) (rw (miss, old, reach_loop) at e) r
      | inr new ↦
          reach_loop_complete fuel from (c ∷ seen) (queue ++ targets edges c)
            (next, λ h. elim h [ inl q ↦ beq→ne c target miss (sym q) | inr q ↦ inv.1 q ])
            (shift from m) (rw (miss, new, reach_loop) at e) r
    ]
  ]
    where
      drop : (x : ℕ) → In c seen → In x seen ⊎ ((x ≡ c) ⊎ In x queue) → In x seen ⊎ In x queue
      drop x mc (inl q) = inl q
      drop x mc (inr (inl q)) = inl (subst (λ t. In t seen) (sym q) mc)
      drop x mc (inr (inr q)) = inr q

      shift :
          (x : ℕ)
          → In x seen ⊎ ((x ≡ c) ⊎ In x queue)
          → ((x ≡ c) ⊎ In x seen) ⊎ In x (queue ++ targets edges c)
      shift x (inl q) = inl (inr q)
      shift x (inr (inl q)) = inl (inl q)
      shift x (inr (inr q)) = inr (In-append_left x queue (targets edges c) q)

      next :
          (a b : ℕ)
          → (a ≡ c) ⊎ In a seen
          → DependsOn edges a b
          → ((b ≡ c) ⊎ In b seen) ⊎ In b (queue ++ targets edges c)
      next a b (inl q) s =
          inr (In-append_right b queue (targets edges c) (subst (λ t. In b (targets edges t)) q s))
      next a b (inr q) s = shift b (inv.0 a b q s)

-- With `search_fuel` the search ends, and its answer is whether the rows lead from `from` to
-- `target`.
pub reaches_decides :
    (edges : List WorkItemDependency) (from target : ℕ)
    → (b : Bool) × (reaches edges (search_fuel edges) from target ≡ some b)
      × ((b ≡ true) ↔ Reaches (DependsOn edges) from target)
unfolding reaches
reaches_decides edges from target =
    let (b, runs) =
      reach_loop_total edges target (search_fuel edges) [] (from ∷ [])
        (omega (arith, pending-le [] edges)) in
    (b, runs, answer b runs)
  where
    answer :
        (b : Bool)
        → reach_loop edges (search_fuel edges) target [] (from ∷ []) ≡ some b
        → (b ≡ true) ↔ Reaches (DependsOn edges) from target
    answer true runs = (
      λ _.
          reach_loop_sound edges target (search_fuel edges) from [] (from ∷ [])
            (λ a m. elim m [
              | inl q ↦ subst (λ t. Reaches (DependsOn edges) from t) (sym q) here
              | inr q ↦ absurd q
            ])
            runs,
      λ _. refl,
    )
    answer false runs = (
      λ h. cc,
      λ r. absurd (
          reach_loop_complete edges target (search_fuel edges) from [] (from ∷ [])
            (λ a b m s. absurd m, λ m. m) (inr (inl refl)) runs r),
    )
