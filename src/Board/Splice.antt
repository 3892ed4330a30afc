-- ===== src/Board/Splice.antt =====
-- `target.splice(index, 0, moved)`.
use nola_hq_backend.Common.{
  ℕ, zero, suc, ◌≤◌, ◌≡◌, refl, some, List, [], ◌∷◌, Eq, ◌==◌, ◌||◌, true, false, contains,
  Distinct, map, length, get_elem?, In, inl, inr, ◌⊎◌, arith, filter, Bool, Bool-cases,
}

module _ {A : Type 0} where
  unfoldable pub splice : ℕ → A → List A → List A
  splice zero x xs = x ∷ xs
  splice (suc k) x [] = x ∷ []
  splice (suc k) x (y ∷ ys) = y ∷ splice k x ys

  pub get_elem?-splice :
      (k : ℕ) (x : A) (xs : List A) → k ≤ length xs → get_elem? (splice k x xs) k ≡ some x
  unfolding splice
  get_elem?-splice zero x xs h = refl
  get_elem?-splice (suc k) x [] h = elim h [ ]
  get_elem?-splice (suc k) x (y ∷ ys) h = get_elem?-splice k x ys (omega arith)

  pub In-splice : (k : ℕ) (a x : A) (xs : List A) → In a (splice k x xs) → (a ≡ x) ⊎ In a xs
  unfolding splice
  In-splice zero a x xs h = h
  In-splice (suc k) a x [] h = h
  In-splice (suc k) a x (y ∷ ys) (inl e) = inr (inl e)
  In-splice (suc k) a x (y ∷ ys) (inr m) = elim (In-splice k a x ys m) [
    | inl e ↦ inl e
    | inr r ↦ inr (inr r)
  ]

module _ {A K : Type 0} ⦃e : Eq K⦄ (key : A → K) where
  contains-splice :
      (i : K) (k : ℕ) (x : A) (xs : List A)
      → contains (map key (splice k x xs)) i ≡ (key x == i || contains (map key xs) i)
  unfolding splice
  contains-splice i zero x xs = refl
  contains-splice i (suc k) x [] = refl
  contains-splice i (suc k) x (y ∷ ys) = ground (arith, contains-splice i k x ys)

  pub Distinct-splice :
      (k : ℕ) (x : A) (xs : List A)
      → contains (map key xs) (key x) ≡ false
      → Distinct (map key xs)
      → Distinct (map key (splice k x xs))
  unfolding splice
  Distinct-splice zero x xs h d = (h, d)
  Distinct-splice (suc k) x [] h d = (h, tt)
  Distinct-splice (suc k) x (y ∷ ys) h d = (
    ground (
      arith,
      contains-splice (key y) k x ys,
      e.beq_iff (key x) (key y),
      e.beq_iff (key y) (key x),
    ),
    Distinct-splice k x ys (ground arith) d.1,
  )

  -- Filtering keeps keys distinct.
  pub contains-filter :
      (p : A → Bool) (i : K) (xs : List A)
      → contains (map key xs) i ≡ false
      → contains (map key (filter p xs)) i ≡ false
  contains-filter p i [] h = refl
  contains-filter p i (x ∷ xs) h = ground (arith, contains-filter p i xs)

  pub Distinct-filter :
      (p : A → Bool) (xs : List A) → Distinct (map key xs) → Distinct (map key (filter p xs))
  Distinct-filter p [] d = tt
  Distinct-filter p (x ∷ xs) d = elim (Bool-cases (p x)) [
    | inl keep ↦ rw keep (contains-filter p (key x) xs d.0, Distinct-filter p xs d.1)
    | inr drop ↦ rw drop (Distinct-filter p xs d.1)
  ]

  -- A key that no entry has.
  pub contains-map_none :
      (i : K) (xs : List A)
      → ((a : A) → In a xs → (key a == i) ≡ false)
      → contains (map key xs) i ≡ false
  contains-map_none i [] h = refl
  contains-map_none i (x ∷ xs) h = rw (h x (inl refl)) (contains-map_none i xs (λ a m. h a (inr m)))

  clash :
      (xs : List A) (a x : A) → In a xs → contains (map key xs) (key x) ≡ false → key a ≡ key x → ⊥
  clash [] a x m h p = m
  clash (y ∷ ys) a x (inl q) h p =
      let t : (key y == key x) ≡ true = (e.beq_iff (key y) (key x)).1 (cc) in ground arith
  clash (y ∷ ys) a x (inr m) h p = clash ys a x m (ground arith) p

  -- Two entries of one key are one.
  pub Distinct-eq :
      (xs : List A) (a b : A) → Distinct (map key xs) → In a xs → In b xs → key a ≡ key b → a ≡ b
  Distinct-eq [] a b d ma mb h = absurd ma
  Distinct-eq (x ∷ xs) a b d (inl p) (inl q) h = cc
  Distinct-eq (x ∷ xs) a b d (inl p) (inr m) h = absurd (clash xs b x m d.0 (cc))
  Distinct-eq (x ∷ xs) a b d (inr m) (inl q) h = absurd (clash xs a x m d.0 (cc))
  Distinct-eq (x ∷ xs) a b d (inr m) (inr n) h = Distinct-eq xs a b d.1 m n h
