-- ===== src/Board/Dense.antt =====
-- `planMove` leaves both columns dense.
use nola_hq_backend.Common.{
  ℕ, zero, suc, ◌+◌, ◌≡◌, ◌≢◌, refl, sym, Bool, true, false, not, ◌⊎◌, inl, inr, Option, none, some,
  List, [], ◌∷◌, ◌++◌, map, Eq, ◌==◌, contains, Distinct, find, get_elem?, In, In-filter,
  find_sound, arith, Bool-cases, if◌then◌else◌, beq→eq, beq→ne, and-eq-true,
}
use nola_hq_backend.Common.Sort.{In-sort, Distinct-sort}
use nola_hq_backend.Common.{min, length}
use nola_hq_backend.Board.Splice.{get_elem?-splice}
use nola_hq_backend.Board.{at_least_zero}
use nola_hq_backend.Board.{
  ℤ, BoardItem, Placement, renumber, close_gaps, by_position, column_without, landing, plan_move,
}
use nola_hq_backend.Board.Splice.{
  In-splice, Distinct-splice, contains-map_none, Distinct-filter, Distinct-eq,
}
use nola_hq_backend.Board.Renumber.{
  placed, Assigns, placed-append, placed-append_some, placed-renumber-none, placed-close_gaps-none,
  renumber-Assigns, close_gaps-Assigns,
}

-- The row as `move` rewrites it: status and position of its placement, if it has one.
unfoldable pub place_row :
    {Key Status : Type 0} ⦃ei : Eq Key⦄ ⦃es : Eq Status⦄
    → List (Placement Key Status)
    → BoardItem Key Status
    → BoardItem Key Status
place_row changes row = elim (placed row.id changes) [
  | none ↦ row
  | some c ↦ record row { status = c.status; position = c.position }
]

In-get : {A : Type 0} (xs : List A) (k : ℕ) {a : A} → get_elem? xs k ≡ some a → In a xs
In-get [] k h = cc
In-get (x ∷ xs) zero h = inl (sym (ground arith))
In-get (x ∷ xs) (suc k) h = inr (In-get xs k h)

module _ {Key Status : Type 0} ⦃ei : Eq Key⦄ ⦃es : Eq Status⦄ (id_lt : Key → Key → Bool)
    (all : List (BoardItem Key Status)) (moved_id : Key) (moved : BoardItem Key Status)
    (target_status : Status) (target_position : ℤ)
    (distinct : Distinct (map (λ (x : BoardItem Key Status). x.id) all))
    (found : find (λ i. i.id == moved_id) all ≡ some moved) where
  abbrev key : BoardItem Key Status → Key
  key x = x.id

  moved-In : In moved all × ((moved.id == moved_id) ≡ true)
  moved-In = find_sound (λ i. i.id == moved_id) all found

  pub column-In :
      (status : Status) (a : BoardItem Key Status)
      → In a (column_without id_lt all moved_id status)
      → In a all × (a.status ≡ status) × ((a.id == moved_id) ≡ false)
  column-In status a m =
      let (there, test) = In-filter _ a all (In-sort (by_position id_lt) a _ m) in
      let (same, other) = and-eq-true (a.status == status) (not (a.id == moved_id)) test in
      (there, beq→eq a.status status same, ground arith)

  column-Distinct :
      (status : Status) → Distinct (map key (column_without id_lt all moved_id status))
  column-Distinct status =
      Distinct-sort (by_position id_lt) key _ (Distinct-filter key _ all distinct)

  pub landing-In :
      (a : BoardItem Key Status)
      → In a (landing id_lt all moved moved_id target_status target_position)
      → (a ≡ moved) ⊎ In a (column_without id_lt all moved_id target_status)
  landing-In a = In-splice _ a moved (column_without id_lt all moved_id target_status)

  landing-Distinct :
      Distinct (map key (landing id_lt all moved moved_id target_status target_position))
  landing-Distinct =
      Distinct-splice key _ moved (column_without id_lt all moved_id target_status)
        (contains-map_none key moved.id _ (λ a m.
          let (there, same, other) = column-In target_status a m in
          ground (
            arith,
            ei.beq_iff a.id moved.id,
            ei.beq_iff a.id moved_id,
            ei.beq_iff moved.id moved_id,
            moved-In.1,
          )))
        (column-Distinct target_status)

  -- An item of the source column is not in the target column.
  apart :
      moved.status ≢ target_status
      → (a b : BoardItem Key Status) → In a (column_without id_lt all moved_id moved.status)
      → In b (landing id_lt all moved moved_id target_status target_position)
      → (b.id == a.id) ≡ false
  apart differs a b ma mb =
      let (there, same, other) = column-In moved.status a ma in
      elim (Bool-cases (b.id == a.id)) [
        | inr ne ↦ ne
        | inl eq ↦ absurd (elim (landing-In b mb) [
          | inl e ↦
              beq→ne a.id moved_id other
                (cc (beq→eq b.id a.id eq, e, beq→eq moved.id moved_id moved-In.1))
          | inr m ↦
              let (there', same', _) = column-In target_status b m in
              differs (
                cc (
                  same,
                  same',
                  Distinct-eq key all b a distinct there' there (beq→eq b.id a.id eq),
                ))
        ])
      ]

  abbrev plan : List (Placement Key Status)
  plan = plan_move id_lt all moved_id target_status target_position

  abbrev target_part : List (Placement Key Status)
  target_part =
      renumber target_status 0 (landing id_lt all moved moved_id target_status target_position)

  abbrev source_part : List (Placement Key Status)
  source_part =
      if not (moved.status == target_status)
      then close_gaps moved.status 0 (column_without id_lt all moved_id moved.status)
      else []

  plan-parts : plan ≡ target_part ++ source_part
  unfolding plan_move
  plan-parts = rw (found, plan_move)

  place_row-Assigns :
      (row : BoardItem Key Status) (status : Status) (k : ℕ)
      → Assigns (placed row.id plan) row status k
      → place_row plan row ≡ record row { status = status; position = k }
  unfolding place_row
  place_row-Assigns row status k (inl e) = rw (e, place_row)
  place_row-Assigns row status k (inr e) = rw (e.0, place_row) (ground arith)

  landing_row :
      (k : ℕ) (row : BoardItem Key Status)
      → get_elem? (landing id_lt all moved moved_id target_status target_position) k ≡ some row
      → Assigns (placed row.id plan) row target_status k
  landing_row k row h =
      rw plan-parts (combine (renumber-Assigns target_status 0 k _ row landing-Distinct h))
    where
      silent : placed row.id source_part ≡ none
      silent = elim (Bool-cases (moved.status == target_status)) [
        | inl same ↦ rw same refl
        | inr differs ↦ rw differs (
            placed-close_gaps-none row.id moved.status 0 _ (
              contains-map_none key row.id _ (λ a m. ground (
                arith,
                apart (beq→ne _ _ differs) a row m (In-get _ k h),
                ei.beq_iff a.id row.id,
                ei.beq_iff row.id a.id,
              ))))
      ]

      combine :
          Assigns (placed row.id target_part) row target_status (0 + k)
          → Assigns (placed row.id (target_part ++ source_part)) row target_status k
      combine (inl e) = inl (ground (arith, placed-append_some row.id target_part source_part _ e))
      combine (inr e) =
          inr
            (rw (placed-append row.id target_part source_part e.0) silent, e.1, omega (arith, e.2))

  source_row :
      moved.status ≢ target_status
      → (k : ℕ) (row : BoardItem Key Status)
      → get_elem? (column_without id_lt all moved_id moved.status) k ≡ some row
      → Assigns (placed row.id plan) row moved.status k
  source_row differs k row h =
      let quiet : placed row.id target_part ≡ none =
        placed-renumber-none row.id target_status 0 _
          (contains-map_none key row.id _ (λ b m. apart differs row b (In-get _ k h) m)) in
      let test : (moved.status == target_status) ≡ false =
        ground (arith, es.beq_iff moved.status target_status) in
      rw plan-parts (
        rw (placed-append row.id target_part source_part quiet) (
          rw test (
            subst0 (
              close_gaps-Assigns moved.status 0 k _ row (column-Distinct moved.status)
                (λ a m. (column-In moved.status a m).1) h))))
    where
      subst0 :
          {found : Option (Placement Key Status)}
          → Assigns found row moved.status (0 + k)
          → Assigns found row moved.status k
      subst0 (inl e) = inl (ground arith)
      subst0 (inr e) = inr (e.0, e.1, omega (arith, e.2))

  absent :
      (row : BoardItem Key Status)
      → In row all
      → (moved.id == row.id) ≡ false
      → row.status ≢ target_status
      → contains (map key (landing id_lt all moved moved_id target_status target_position)) row.id
        ≡ false
  absent row there other differs = contains-map_none key row.id _ (λ a m.
      elim (Bool-cases (a.id == row.id)) [
        | inr ne ↦ ne
        | inl eq ↦ elim (landing-In a m) [
          | inl e ↦ absurd (beq→ne moved.id row.id other (cc (e, beq→eq a.id row.id eq)))
          | inr mc ↦
              let (there', same, _) = column-In target_status a mc in
              absurd (
                differs
                  (cc (same, Distinct-eq key all a row distinct there' there (beq→eq _ _ eq))))
        ]
      ])

  untouched :
      (row : BoardItem Key Status)
      → In row all
      → (moved.id == row.id) ≡ false
      → row.status ≢ target_status
      → row.status ≢ moved.status
      → place_row plan row ≡ row
  unfolding place_row
  untouched row there other differs differs' =
      rw (plan-parts, place_row)
        (rw (
          placed-append row.id target_part source_part
              (placed-renumber-none row.id target_status 0 _ (absent row there other differs)),
          silent,
          place_row,
        ))
    where
      silent : placed row.id source_part ≡ none
      silent = elim (Bool-cases (moved.status == target_status)) [
        | inl same ↦ rw same refl
        | inr t ↦ rw t (
            placed-close_gaps-none row.id moved.status 0 _ (
              contains-map_none key row.id _ (λ a m.
                let (there', same, _) = column-In moved.status a m in
                elim (Bool-cases (a.id == row.id)) [
                  | inr ne ↦ ne
                  | inl eq ↦ absurd (
                      differs' (
                        cc (same, Distinct-eq key all a row distinct there' there (beq→eq _ _ eq))))
                ])))
      ]

  -- Once the placements of `planMove` are written, the target column holds the positions 0, 1, …
  -- in its order with the moved item spliced in; so does the source column without it, if the
  -- columns differ; the moved item stands in the target column at the asked index, clamped to the
  -- column; and no row of another column has changed. Identifiers are distinct, and the moved item
  -- is one of the rows.
  pub plan_move-dense :
      ((k : ℕ) (row : BoardItem Key Status)
        → get_elem? (landing id_lt all moved moved_id target_status target_position) k ≡ some row
        → place_row plan row ≡ record row { status = target_status; position = k })
      × (moved.status ≢ target_status
          → (k : ℕ) (row : BoardItem Key Status)
          → get_elem? (column_without id_lt all moved_id moved.status) k ≡ some row
          → place_row plan row ≡ record row { status = moved.status; position = k })
      × (place_row plan moved ≡ record moved {
        status = target_status;
        position =
            min
              (at_least_zero target_position)
              (length (column_without id_lt all moved_id target_status));
      })
      × ((row : BoardItem Key Status)
          → In row all
          → row.id ≢ moved.id
          → row.status ≢ target_status
          → row.status ≢ moved.status
          → place_row plan row ≡ row)
  plan_move-dense = (
    λ k row h. place_row-Assigns row target_status k (landing_row k row h),
    λ differs k row h. place_row-Assigns row moved.status k (source_row differs k row h),
    place_row-Assigns moved target_status _ (
        landing_row _ moved (
          get_elem?-splice _ moved (column_without id_lt all moved_id target_status)
            (omega arith))),
    λ row there other. untouched row there (ground (arith, ei.beq_iff moved.id row.id)),
  )
