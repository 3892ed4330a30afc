-- ===== src/Business/Numbers.antt =====
-- src/business/business-number-sequence.ts: one counter for each prefix and year. The text of a
-- number is made of its parts: `four_digits` and `five_digits` are JavaScript's numerals.
pub mod Issued
pub mod Refined
use nola_hq_backend.Common.{
  ℕ, suc, Bool, true, false, ◌&&◌, Option, none, some, List, [], ◌∷◌, ◌==◌, nat_eq, string_eq, find,
  if◌then◌else◌, String,
}
use Prim.Native.String.{◌++◌ as str_append}

pub record NumberSequence : Type 0 where
  pub prefix : String
  pub year : ℕ
  pub last_value : ℕ

abbrev pub is_sequence : String → ℕ → NumberSequence → Bool
is_sequence prefix year s = s.prefix == prefix && s.year == year

-- `INSERT … ON CONFLICT (prefix, year) DO UPDATE SET last_value = last_value + 1`
unfoldable pub upsert : List NumberSequence → String → ℕ → List NumberSequence
upsert [] prefix year = record { prefix = prefix; year = year; last_value = 1 } ∷ []
upsert (s ∷ rest) prefix year =
    if is_sequence prefix year s
    then record s { last_value = suc s.last_value } ∷ rest
    else s ∷ upsert rest prefix year

-- `SELECT last_value`
unfoldable pub last_of : List NumberSequence → String → ℕ → Option ℕ
last_of sequences prefix year = elim (find (is_sequence prefix year) sequences) [
  | none ↦ none
  | some s ↦ some s.last_value
]

-- The statement with `RETURNING last_value`: the row that was written.
unfoldable pub upsert_returning : List NumberSequence → String → ℕ → List NumberSequence × ℕ
upsert_returning [] prefix year = (record { prefix = prefix; year = year; last_value = 1 } ∷ [], 1)
upsert_returning (s ∷ rest) prefix year =
    let (rest', value) = upsert_returning rest prefix year in
    if is_sequence prefix year s
    then (record s { last_value = suc s.last_value } ∷ rest, suc s.last_value)
    else (s ∷ rest', value)

-- the branch on the database: Postgres in one statement, SQLite in two
unfoldable pub next_value :
    (is_postgres : Bool) → List NumberSequence → String → ℕ → Option (List NumberSequence × ℕ)
unfolding upsert last_of upsert_returning
next_value true sequences prefix year = some (upsert_returning sequences prefix year)
next_value false sequences prefix year =
    let written = upsert sequences prefix year in
    elim (last_of written prefix year) [ none ↦ none | some value ↦ some (written, value) ]

abbrev pub number_text :
    (four_digits five_digits : ℕ → String) → (prefix : String) → (year value : ℕ) → String
number_text four_digits five_digits prefix year value =
    str_append prefix
      (str_append "-" (str_append (four_digits year) (str_append "-" (five_digits value))))

-- `nextBusinessNumber`
unfoldable pub next_business_number :
    (four_digits five_digits : ℕ → String)
    → (is_postgres : Bool) → List NumberSequence
    → (prefix : String) → (year : ℕ) → Option (List NumberSequence × String)
unfolding next_value
next_business_number four_digits five_digits is_postgres sequences prefix year =
    elim (next_value is_postgres sequences prefix year) [
      | none ↦ none
      | some (written, value) ↦
          some (written, number_text four_digits five_digits prefix year value)
    ]
