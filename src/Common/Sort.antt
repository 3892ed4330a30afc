-- ===== src/Common/Sort.antt =====
-- `Array.prototype.sort`, which is stable: an insertion sort, by a strict test `lt`.
use nola_hq_backend.Common.Tests.{Eq, ◌==◌, Bool-cases, if◌then◌else◌}
use nola_hq_backend.Common.Lists.{In, length, contains, Distinct}
use Prim.Native.Nat.{suc}
use mathlib.Core.Path.{◌≡◌, refl, ap, ◌∙◌}
use mathlib.Core.Logic.{◌⊎◌, inl, inr}
use mathlib.Core.Bool.{Bool, false, ◌||◌}
use mathlib.Core.List.{List, [], ◌∷◌, map}
use native.Mathlib.Omega.{arith}

module _ {A : Type 0} (lt : A → A → Bool) where
  -- Before the first entry that is not smaller.
  unfoldable pub insert : A → List A → List A
  insert x [] = x ∷ []
  insert x (y ∷ ys) = if lt y x then y ∷ insert x ys else x ∷ y ∷ ys

  unfoldable pub sort : List A → List A
  unfolding insert
  sort [] = []
  sort (x ∷ xs) = insert x (sort xs)

  length-insert : (x : A) (xs : List A) → length (insert x xs) ≡ suc (length xs)
  unfolding insert
  length-insert x [] = refl
  length-insert x (y ∷ ys) = ground (arith, length-insert x ys)

  pub length-sort : (xs : List A) → length (sort xs) ≡ length xs
  unfolding sort
  length-sort [] = refl
  length-sort (x ∷ xs) = length-insert x (sort xs) ∙ ap suc (length-sort xs)

  In-insert : (a x : A) (xs : List A) → In a (insert x xs) → (a ≡ x) ⊎ In a xs
  unfolding insert
  In-insert a x [] h = h
  In-insert a x (y ∷ ys) h = elim (Bool-cases (lt y x)) [
    | inl t ↦ swap (rw (t, insert) at h) (In-insert a x ys)
    | inr t ↦ rw (t, insert) at h
  ]
    where
      swap :
          (a ≡ y) ⊎ In a (insert x ys)
          → (In a (insert x ys) → (a ≡ x) ⊎ In a ys)
          → (a ≡ x) ⊎ ((a ≡ y) ⊎ In a ys)
      swap (inl p) ih = inr (inl p)
      swap (inr m) ih = elim (ih m) [ inl p ↦ inl p | inr r ↦ inr (inr r) ]

  pub In-sort : (a : A) (xs : List A) → In a (sort xs) → In a xs
  unfolding sort
  In-sort a [] h = h
  In-sort a (x ∷ xs) h = elim (In-insert a x (sort xs) h) [
    | inl p ↦ inl p
    | inr m ↦ inr (In-sort a xs m)
  ]

  In-insert_of : (a x : A) (xs : List A) → (a ≡ x) ⊎ In a xs → In a (insert x xs)
  unfolding insert
  In-insert_of a x [] h = h
  In-insert_of a x (y ∷ ys) h = elim (Bool-cases (lt y x)) [
    | inl t ↦ rw t (swap h (In-insert_of a x ys))
    | inr t ↦ rw t h
  ]
    where
      swap :
          (a ≡ x) ⊎ ((a ≡ y) ⊎ In a ys)
          → ((a ≡ x) ⊎ In a ys → In a (insert x ys))
          → (a ≡ y) ⊎ In a (insert x ys)
      swap (inl p) ih = inr (ih (inl p))
      swap (inr (inl p)) ih = inl p
      swap (inr (inr m)) ih = inr (ih (inr m))

  pub In-sort_of : (a : A) (xs : List A) → In a xs → In a (sort xs)
  unfolding sort
  In-sort_of a [] h = h
  In-sort_of a (x ∷ xs) (inl p) = In-insert_of a x (sort xs) (inl p)
  In-sort_of a (x ∷ xs) (inr m) = In-insert_of a x (sort xs) (inr (In-sort_of a xs m))

  -- Distinct keys stay distinct.
  module _ {K : Type 0} ⦃e : Eq K⦄ (key : A → K) where
    contains-insert :
        (k : K) (x : A) (xs : List A)
        → contains (map key (insert x xs)) k ≡ (key x == k || contains (map key xs) k)
    unfolding insert
    contains-insert k x [] = refl
    contains-insert k x (y ∷ ys) = ground (arith, contains-insert k x ys)

    Distinct-insert :
        (x : A) (xs : List A)
        → contains (map key xs) (key x) ≡ false
        → Distinct (map key xs)
        → Distinct (map key (insert x xs))
    unfolding insert
    Distinct-insert x [] h d = (h, tt)
    Distinct-insert x (y ∷ ys) h d = elim (Bool-cases (lt y x)) [
      | inl t ↦ rw t (
        ground (
          arith,
          contains-insert (key y) x ys,
          e.beq_iff (key x) (key y),
          e.beq_iff (key y) (key x),
        ),
        Distinct-insert x ys (ground arith) d.1,
      )
      | inr t ↦ rw t (h, d)
    ]

    contains-sort : (k : K) (xs : List A) → contains (map key (sort xs)) k ≡ contains (map key xs) k
    unfolding sort
    contains-sort k [] = refl
    contains-sort k (x ∷ xs) = rw (contains-insert k x (sort xs), contains-sort k xs)

    pub Distinct-sort : (xs : List A) → Distinct (map key xs) → Distinct (map key (sort xs))
    unfolding sort
    Distinct-sort [] d = d
    Distinct-sort (x ∷ xs) d =
        Distinct-insert x (sort xs) (rw (contains-sort (key x) xs) d.0) (Distinct-sort xs d.1)
