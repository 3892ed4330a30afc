-- ===== src/Board/Renumber.antt =====
-- What the two renumbering loops list for an item.
use nola_hq_backend.Common.{
  ℕ, zero, suc, ◌+◌, ◌≡◌, ◌≢◌, refl, true, false, not, ◌||◌, ◌⊎◌, inl, inr, Option, none, some,
  List, [], ◌∷◌, ◌++◌, map, Eq, ◌==◌, nat_eq, contains, Distinct, find, get_elem?, In, arith,
  Bool-cases, beq_self,
}
use nola_hq_backend.Board.{BoardItem, Placement, renumber, close_gaps}

module _ {Key Status : Type 0} ⦃ei : Eq Key⦄ ⦃es : Eq Status⦄ where
  -- `placements.find((c) => c.id === id)`
  abbrev pub placed : Key → List (Placement Key Status) → Option (Placement Key Status)
  placed i = find (λ c. c.id == i)

  -- The list has the item's new place, or none because the item is there already.
  abbrev pub Assigns : Option (Placement Key Status) → BoardItem Key Status → Status → ℕ → Type 0
  Assigns found item status k =
      (found ≡ some (record { id = item.id; status = status; position = k }))
      ⊎ ((found ≡ none) × (item.status ≡ status) × (item.position ≡ k))

  pub placed-append :
      (i : Key) (xs ys : List (Placement Key Status))
      → placed i xs ≡ none
      → placed i (xs ++ ys) ≡ placed i ys
  placed-append i [] ys h = refl
  placed-append i (x ∷ xs) ys h = ground (arith, placed-append i xs ys)

  pub placed-append_some :
      (i : Key) (xs ys : List (Placement Key Status)) (c : Placement Key Status)
      → placed i xs ≡ some c
      → placed i (xs ++ ys) ≡ some c
  placed-append_some i [] ys c h = cc
  placed-append_some i (x ∷ xs) ys c h = ground (arith, placed-append_some i xs ys c)

  pub placed-renumber-none :
      (i : Key) (status : Status) (k : ℕ) (xs : List (BoardItem Key Status))
      → contains (map (λ (x : BoardItem Key Status). x.id) xs) i ≡ false
      → placed i (renumber status k xs) ≡ none
  unfolding renumber
  placed-renumber-none i status k [] h = refl
  placed-renumber-none i status k (x ∷ xs) h =
      ground (arith, placed-renumber-none i status (suc k) xs)

  pub placed-close_gaps-none :
      (i : Key) (status : Status) (k : ℕ) (xs : List (BoardItem Key Status))
      → contains (map (λ (x : BoardItem Key Status). x.id) xs) i ≡ false
      → placed i (close_gaps status k xs) ≡ none
  unfolding close_gaps
  placed-close_gaps-none i status k [] h = refl
  placed-close_gaps-none i status k (x ∷ xs) h =
      ground (arith, placed-close_gaps-none i status (suc k) xs)

  contains_get :
      (xs : List (BoardItem Key Status)) (k : ℕ) (item : BoardItem Key Status)
      → get_elem? xs k ≡ some item
      → contains (map (λ (x : BoardItem Key Status). x.id) xs) item.id ≡ true
  contains_get [] k item h = cc
  contains_get (x ∷ xs) zero item h = ground (arith, ei.beq_iff x.id item.id)
  contains_get (x ∷ xs) (suc k) item h = ground (arith, contains_get xs k item)

  pub renumber-Assigns :
      (status : Status) (base k : ℕ) (xs : List (BoardItem Key Status))
      (item : BoardItem Key Status)
      → Distinct (map (λ (x : BoardItem Key Status). x.id) xs)
      → get_elem? xs k ≡ some item
      → Assigns (placed item.id (renumber status base xs)) item status (base + k)
  unfolding renumber
  renumber-Assigns status base k [] item d h = cc
  renumber-Assigns status base zero (x ∷ xs) item d h = ground (
    arith,
    beq_self x.id,
    es.beq_iff x.status status,
    placed-renumber-none x.id status (suc base) xs d.0,
  )
  renumber-Assigns status base (suc k) (x ∷ xs) item d h = ground (
    arith,
    ei.beq_iff x.id item.id,
    contains_get xs k item,
    renumber-Assigns status (suc base) k xs item d.1,
  )

  pub close_gaps-Assigns :
      (status : Status) (base k : ℕ) (xs : List (BoardItem Key Status))
      (item : BoardItem Key Status)
      → Distinct (map (λ (x : BoardItem Key Status). x.id) xs)
      → ((a : BoardItem Key Status) → In a xs → a.status ≡ status)
      → get_elem? xs k ≡ some item
      → Assigns (placed item.id (close_gaps status base xs)) item status (base + k)
  unfolding close_gaps
  close_gaps-Assigns status base k [] item d s h = cc
  close_gaps-Assigns status base zero (x ∷ xs) item d s h =
      ground
        (arith, beq_self x.id, s x (inl refl), placed-close_gaps-none x.id status (suc base) xs d.0)
  close_gaps-Assigns status base (suc k) (x ∷ xs) item d s h = ground (
    arith,
    ei.beq_iff x.id item.id,
    contains_get xs k item,
    close_gaps-Assigns status (suc base) k xs item d.1 (λ a m. s a (inr m)),
  )

  -- Nothing is listed that would be written as it stands.
  pub renumber-changes :
      (status : Status) (k : ℕ) (xs : List (BoardItem Key Status)) (c : Placement Key Status)
      → In c (renumber status k xs)
      → (item : BoardItem Key Status) × In item xs
        × (item.id ≡ c.id)
        × ((item.status ≢ c.status) ⊎ (item.position ≢ c.position))
  unfolding renumber
  renumber-changes status k [] c m = absurd m
  renumber-changes status k (x ∷ xs) c m =
      elim (Bool-cases (not (x.status == status) || not (x.position == k))) [
        | inl listed ↦ go (rw (listed, renumber) at m) listed (renumber-changes status (suc k) xs c)
        | inr kept ↦
            let (item, there, same, differs) =
              renumber-changes status (suc k) xs c (rw (kept, renumber) at m) in
            (item, inr there, same, differs)
      ]
    where
      go :
          (c ≡ record { id = x.id; status = status; position = k })
            ⊎ In c (renumber status (suc k) xs)
          → (not (x.status == status) || not (x.position == k)) ≡ true
          → (In c (renumber status (suc k) xs)
              → (item : BoardItem Key Status) × In item xs
                × (item.id ≡ c.id)
                × ((item.status ≢ c.status) ⊎ (item.position ≢ c.position)))
          → (item : BoardItem Key Status) × In item (x ∷ xs)
            × (item.id ≡ c.id)
            × ((item.status ≢ c.status) ⊎ (item.position ≢ c.position))
      go (inl e) listed ih = (x, inl refl, cc, ground (arith, es.beq_iff x.status status))
      go (inr r) listed ih =
          let (item, there, same, differs) = ih r in (item, inr there, same, differs)
