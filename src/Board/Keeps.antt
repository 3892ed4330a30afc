-- ===== src/Board/Keeps.antt =====
-- A plan of `planMove` gives no row but the moved one another status.
use nola_hq_backend.Common.{
  ℕ, suc, ◌≡◌, ◌≢◌, refl, Bool, not, ◌||◌, ◌⊎◌, inl, inr, some, List, [], ◌∷◌, map, Eq, ◌==◌,
  nat_eq, Distinct, find, In, In-append_cases, find_sound, Bool-cases, beq→eq,
}
use nola_hq_backend.Board.{
  ℤ, BoardItem, Placement, renumber, close_gaps, column_without, landing, plan_move,
}
use nola_hq_backend.Board.Splice.{Distinct-eq}
use nola_hq_backend.Board.Renumber.{placed}
use nola_hq_backend.Board.Dense.{column-In, landing-In}

module _ {Key Status : Type 0} ⦃ei : Eq Key⦄ ⦃es : Eq Status⦄ where
  -- A placement is that of an item of the column, in the column's status.
  abbrev Places : Status → List (BoardItem Key Status) → Placement Key Status → Type 0
  Places status column p =
      (item : BoardItem Key Status) × In item column × (p.id ≡ item.id) × (p.status ≡ status)

  later :
      (status : Status) (column : List (BoardItem Key Status)) (x : BoardItem Key Status)
      (p : Placement Key Status)
      → Places status column p
      → Places status (x ∷ column) p
  later status column x p (item, m, e, f) = (item, inr m, e, f)

  renumber-Places :
      (status : Status) (k : ℕ) (column : List (BoardItem Key Status)) (p : Placement Key Status)
      → In p (renumber status k column)
      → Places status column p
  unfolding renumber
  renumber-Places status k [] p m = absurd m
  renumber-Places status k (x ∷ column) p m =
      elim (Bool-cases (not (x.status == status) || not (x.position == k))) [
        | inr same ↦
            later status column x p
              (renumber-Places status (suc k) column p (rw (same, renumber) at m))
        | inl moves ↦ first (renumber-Places status (suc k) column p) (rw (moves, renumber) at m)
      ]
    where
      first :
          (In p (renumber status (suc k) column) → Places status column p)
          → (p ≡ record { id = x.id; status = status; position = k })
            ⊎ In p (renumber status (suc k) column)
          → Places status (x ∷ column) p
      first rest (inl e) = (x, inl refl, rw e refl, rw e refl)
      first rest (inr m) = later status column x p (rest m)

  close_gaps-Places :
      (status : Status) (k : ℕ) (column : List (BoardItem Key Status)) (p : Placement Key Status)
      → In p (close_gaps status k column)
      → Places status column p
  unfolding close_gaps
  close_gaps-Places status k [] p m = absurd m
  close_gaps-Places status k (x ∷ column) p m = elim (Bool-cases (not (x.position == k))) [
    | inr same ↦
        later status column x p
          (close_gaps-Places status (suc k) column p (rw (same, close_gaps) at m))
    | inl moves ↦ first (close_gaps-Places status (suc k) column p) (rw (moves, close_gaps) at m)
  ]
    where
      first :
          (In p (close_gaps status (suc k) column) → Places status column p)
          → (p ≡ record { id = x.id; status = status; position = k })
            ⊎ In p (close_gaps status (suc k) column)
          → Places status (x ∷ column) p
      first rest (inl e) = (x, inl refl, rw e refl, rw e refl)
      first rest (inr m) = later status column x p (rest m)

module _ {Key Status : Type 0} ⦃ei : Eq Key⦄ ⦃es : Eq Status⦄ (id_lt : Key → Key → Bool)
    (all : List (BoardItem Key Status)) (moved_id : Key) (moved : BoardItem Key Status)
    (target_status : Status) (target_position : ℤ)
    (distinct : Distinct (map (λ (x : BoardItem Key Status). x.id) all))
    (found : find (λ i. i.id == moved_id) all ≡ some moved) (row : BoardItem Key Status)
    (there : In row all) (other : row.id ≢ moved.id) where
  same_row :
      (status : Status) (p : Placement Key Status) (item : BoardItem Key Status)
      → p.id ≡ row.id
      → In item (column_without id_lt all moved_id status)
      → p.id ≡ item.id
      → p.status ≡ status
      → p.status ≡ row.status
  same_row status p item mine m e is =
      let (here, has, _) =
        column-In id_lt all moved_id moved target_status target_position distinct found status item
          m in
      let one : item ≡ row =
        Distinct-eq (λ (x : BoardItem Key Status). x.id) all item row distinct here there (cc) in
      cc

  -- A row that the plan places keeps its status, if it is not the moved one: identifiers are
  -- distinct, and the moved item and the row are among the items.
  pub plan_move-keeps_status :
      (p : Placement Key Status)
      → placed row.id (plan_move id_lt all moved_id target_status target_position) ≡ some p
      → p.status ≡ row.status
  unfolding plan_move
  plan_move-keeps_status p h =
      let (m, test) = find_sound (λ (c : Placement Key Status). c.id == row.id) _ h in
      let mine : p.id ≡ row.id = beq→eq p.id row.id test in
      elim (In-append_cases p _ _ (rw (found, plan_move, In) at m)) [
        | inl l ↦ target p mine (renumber-Places target_status 0 _ p l)
        | inr r ↦ elim (Bool-cases (not (moved.status == target_status))) [
          | inr same ↦ absurd (rw same at r)
          | inl differs ↦ source p mine (close_gaps-Places moved.status 0 _ p (rw differs at r))
        ]
      ]
    where
      target :
          (p : Placement Key Status)
          → p.id ≡ row.id
          → Places target_status (landing id_lt all moved moved_id target_status target_position) p
          → p.status ≡ row.status
      target p mine (item, m, e, is) =
          elim (landing-In id_lt all moved_id moved target_status target_position distinct found
            item m) [
              | inl q ↦ absurd (other (cc))
              | inr n ↦ same_row target_status p item mine n e is
            ]

      source :
          (p : Placement Key Status)
          → p.id ≡ row.id
          → Places moved.status (column_without id_lt all moved_id moved.status) p
          → p.status ≡ row.status
      source p mine (item, m, e, is) = same_row moved.status p item mine m e is
