-- ===== src/Business/Numbers/Refined.antt =====
-- The table of counters and its two ways of being written, against one counter for each prefix and
-- year.
use nola_hq_backend.Common.{
  ℕ, suc, ◌≡◌, refl, sym, ap, ◌∙◌, Bool, true, false, ◌&&◌, Option, none, some, List, [], ◌∷◌, ◌==◌,
  nat_eq, string_eq, String, if◌then◌else◌, inl, inr, Bool-cases, beq→eq, and-eq-true,
}
use mathlib.Core.Path.{fun_ext}
use nola_hq_backend.Business.Numbers.{NumberSequence, is_sequence, upsert_returning, next_value}
use nola_hq_backend.Business.Numbers.Issued.{last, returned-last, next_value-same}

-- The last value given, for each prefix and year.
abbrev pub Counters : Type 0
Counters = String → ℕ → ℕ

abbrev pub is_key : String → ℕ → String → ℕ → Bool
is_key prefix year p y = prefix == p && year == y

abbrev pub bump : Counters → String → ℕ → Counters
bump counters prefix year p y = if is_key prefix year p y then suc (counters p y) else counters p y

-- The values that a run of requests is given, and the counters after it.
abbrev pub count_all : Counters → List (String × ℕ) → Counters × List ℕ
count_all counters [] = (counters, [])
count_all counters ((prefix, year) ∷ asked) =
    let (after, values) = count_all (bump counters prefix year) asked in
    (after, suc (counters prefix year) ∷ values)

abbrev pub reserve_all :
    Bool → List NumberSequence → List (String × ℕ) → Option (List NumberSequence × List ℕ)
reserve_all is_postgres sequences [] = some (sequences, [])
reserve_all is_postgres sequences ((prefix, year) ∷ asked) =
    elim (next_value is_postgres sequences prefix year) [
      | none ↦ none
      | some (written, value) ↦ elim (reserve_all is_postgres written asked) [
        | none ↦ none
        | some (after, values) ↦ some (after, value ∷ values)
      ]
    ]

last-bump :
    (sequences : List NumberSequence) (prefix : String) (year : ℕ) (p : String) (y : ℕ)
    → last (upsert_returning sequences prefix year).0 p y ≡ bump (last sequences) prefix year p y
unfolding upsert_returning
last-bump [] prefix year p y = refl
last-bump (s ∷ rest) prefix year p y = elim (Bool-cases (is_sequence prefix year s)) [
  | inl hit ↦
      let (a, b) = and-eq-true (s.prefix == prefix) (s.year == year) hit in
      let a' = beq→eq s.prefix prefix a in
      let b' = beq→eq s.year year b in
      rw (hit, ← a', ← b')
        (elim (Bool-cases (s.prefix == p && s.year == y)) [
          | inl same ↦ rw same refl
          | inr other ↦ rw other refl
        ])
  | inr miss ↦ rw miss (elim (Bool-cases (is_sequence p y s)) [
    | inr other ↦ rw other (last-bump rest prefix year p y)
    | inl here ↦ elim (Bool-cases (is_key prefix year p y)) [
      | inr apart ↦ rw (here, apart) refl
      | inl same ↦
          let (a, b) = and-eq-true (prefix == p) (year == y) same in
          let a' = beq→eq prefix p a in let b' = beq→eq year y b in absurd (cc (miss, here, a', b'))
    ]
  ])
]

next_value-counted :
    (is_postgres : Bool) (sequences : List NumberSequence) (prefix : String) (year : ℕ)
    → next_value is_postgres sequences prefix year
      ≡ some ((upsert_returning sequences prefix year).0, suc (last sequences prefix year))
unfolding next_value
next_value-counted true sequences prefix year =
    ap (λ value. some ((upsert_returning sequences prefix year).0, value))
      (returned-last sequences prefix year).0
next_value-counted false sequences prefix year =
    sym (next_value-same sequences prefix year)
    ∙ ap (λ value. some ((upsert_returning sequences prefix year).0, value))
        (returned-last sequences prefix year).0

-- On either database, a run of reservations never fails, gives the values that one counter for each
-- prefix and year gives, and leaves those counters as its last values.
pub reserve_all-refines :
    (is_postgres : Bool) (sequences : List NumberSequence) (asked : List (String × ℕ))
    → (after : List NumberSequence) × (reserve_all is_postgres sequences asked
        ≡ some (after, (count_all (last sequences) asked).1))
      × (last after ≡ (count_all (last sequences) asked).0)
reserve_all-refines is_postgres sequences [] = (sequences, refl, refl)
reserve_all-refines is_postgres sequences ((prefix, year) ∷ asked) =
    let written = (upsert_returning sequences prefix year).0 in
    let bumped : last written ≡ bump (last sequences) prefix year =
      fun_ext (λ p. fun_ext (λ y. last-bump sequences prefix year p y)) in
    let (after, given, left) = reserve_all-refines is_postgres written asked in
    let given' = rw bumped at given in
    let left' = rw bumped at left in
    (
      after,
      rw (next_value-counted is_postgres sequences prefix year, reserve_all, given') refl,
      left',
    )
