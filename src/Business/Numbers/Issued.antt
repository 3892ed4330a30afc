-- ===== src/Business/Numbers/Issued.antt =====
-- Numbers that are issued once.
use nola_hq_backend.Common.{
  ℕ, suc, ◌≤◌, ◌<◌, ◌≡◌, refl, ap, true, false, inl, inr, some, List, [], ◌∷◌, nat_eq, string_eq,
  if◌then◌else◌, String, arith, In, Unrepeated, Bool-cases, beq_self,
}
use nola_hq_backend.Business.Numbers.{
  NumberSequence, is_sequence, upsert, upsert_returning, last_of, next_value,
}

upsert_returning-upsert :
    (sequences : List NumberSequence) (prefix : String) (year : ℕ)
    → let (written, value) = upsert_returning sequences prefix year in
      (written ≡ upsert sequences prefix year) × (last_of written prefix year ≡ some value)
unfolding upsert upsert_returning last_of
upsert_returning-upsert [] prefix year =
    (refl, rw (upsert_returning, last_of, beq_self prefix, beq_self year) refl)
upsert_returning-upsert (s ∷ rest) prefix year =
    let (same, found) = upsert_returning-upsert rest prefix year in
    elim (Bool-cases (is_sequence prefix year s)) [
      | inl hit ↦ (rw hit refl, rw (hit, last_of, hit) refl)
      | inr miss ↦ (rw miss (ap (λ l. s ∷ l) same), rw (miss, last_of, miss) found)
    ]

-- The branch for Postgres and the one for SQLite write the same counters and return the same value.
pub next_value-same :
    (sequences : List NumberSequence) (prefix : String) (year : ℕ)
    → next_value true sequences prefix year ≡ next_value false sequences prefix year
unfolding next_value
next_value-same sequences prefix year =
    let (same, found) = upsert_returning-upsert sequences prefix year in
    rw (next_value, ← same, found, ← same) refl

-- The last value of a counter, 0 where there is none.
abbrev pub last : List NumberSequence → String → ℕ → ℕ
last [] prefix year = 0
last (s ∷ rest) prefix year =
    if is_sequence prefix year s then s.last_value else last rest prefix year

pub returned-last :
    (sequences : List NumberSequence) (prefix : String) (year : ℕ)
    → let (written, value) = upsert_returning sequences prefix year in
      (value ≡ suc (last sequences prefix year)) × (last written prefix year ≡ value)
unfolding upsert_returning
returned-last [] prefix year = (refl, rw (beq_self prefix, beq_self year) refl)
returned-last (s ∷ rest) prefix year =
    let (next, kept) = returned-last rest prefix year in
    elim (Bool-cases (is_sequence prefix year s)) [
      | inl hit ↦ (rw hit refl, rw (hit, last) (rw hit refl))
      | inr miss ↦ (rw miss next, rw miss (rw miss kept))
    ]

last-monotone :
    (sequences : List NumberSequence) (prefix other : String) (year year' : ℕ)
    → last sequences other year' ≤ last (upsert_returning sequences prefix year).0 other year'
unfolding upsert_returning
last-monotone [] prefix other year year' = omega arith
last-monotone (s ∷ rest) prefix other year year' = elim (Bool-cases (is_sequence prefix year s)) [
  | inl hit ↦ rw hit (ground arith)
  | inr miss ↦ rw miss (ground (arith, last-monotone rest prefix other year year'))
]

-- The numbers that a run of reservations gives, in order.
abbrev pub issue : List NumberSequence → List (String × ℕ) → List (String × (ℕ × ℕ))
issue sequences [] = []
issue sequences ((prefix, year) ∷ asked) =
    let (written, value) = upsert_returning sequences prefix year in
    (prefix, (year, value)) ∷ issue written asked

issue-after :
    (sequences : List NumberSequence) (asked : List (String × ℕ)) (prefix : String) (year value : ℕ)
    → In (prefix, (year, value)) (issue sequences asked)
    → last sequences prefix year < value
issue-after sequences [] prefix year value m = absurd m
issue-after sequences ((p, y) ∷ asked) prefix year value (inl e) =
    let prefixes = ap (λ n. n.0) e in
    let years = ap (λ n. n.1.0) e in
    let values = ap (λ n. n.1.1) e in
    rw (prefixes, years, values) (omega (arith, (returned-last sequences p y).0))
issue-after sequences ((p, y) ∷ asked) prefix year value (inr m) = omega (
  arith,
  issue-after (upsert_returning sequences p y).0 asked prefix year value m,
  last-monotone sequences p prefix y year,
)

-- Whatever prefixes and years are asked for, and in whatever order, no number is issued twice.
pub issue-Unrepeated :
    (sequences : List NumberSequence) (asked : List (String × ℕ))
    → Unrepeated (issue sequences asked)
issue-Unrepeated sequences [] = tt
issue-Unrepeated sequences ((prefix, year) ∷ asked) = (
  λ m. omega (
    arith,
    issue-after (upsert_returning sequences prefix year).0 asked prefix year
        (upsert_returning sequences prefix year).1 m,
    (returned-last sequences prefix year).1,
  ),
  issue-Unrepeated (upsert_returning sequences prefix year).0 asked,
)
