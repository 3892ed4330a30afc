-- ===== src/Common/Rows.antt =====
-- A predicate on every row of a table, where a row is added, written or read.
use mathlib.Core.Path.{◌≡◌, subst}
use mathlib.Core.Logic.{inl, inr}
use mathlib.Core.Bool.{Bool}
use mathlib.Core.Option.{Option, none, some}
use mathlib.Core.List.{List, [], ◌∷◌, ◌++◌, map}
use nola_hq_backend.Common.Tests.{if◌then◌else◌, Bool-cases}
use nola_hq_backend.Common.Results.{ok, HttpError, or_throw}
use nola_hq_backend.Common.Lists.{find, All}

pub ok-same {ℓ} : {A : Type ℓ} {x y : A} → ok x ≡ ok y → x ≡ y
ok-same h = cc

pub or_throw-ok :
    {A : Type 0} (o : Option A) (e : HttpError) {a : A} → or_throw o e ≡ ok a → o ≡ some a
or_throw-ok none e h = cc
or_throw-ok (some a) e h = cc

module _ {A : Type 0} (P : A → Type 0) where
  pub All-replaced :
      (hits : A → Bool) (row : A) (rows : List A)
      → P row
      → All P rows
      → All P (map (λ r. if hits r then row else r) rows)
  All-replaced hits row [] new old = tt
  All-replaced hits row (r ∷ rows) new (first, others) = elim (Bool-cases (hits r)) [
    | inl hit ↦ rw hit (new, All-replaced hits row rows new others)
    | inr miss ↦ rw miss (first, All-replaced hits row rows new others)
  ]

  pub All-found :
      (hits : A → Bool) (rows : List A) (row : A) → find hits rows ≡ some row → All P rows → P row
  All-found hits [] row found all = cc
  All-found hits (r ∷ rows) row found (first, others) = elim (Bool-cases (hits r)) [
    | inl hit ↦ subst P (cc (rw hit at found)) first
    | inr miss ↦ All-found hits rows row (rw miss at found) others
  ]

  pub All-added : (rows : List A) (new : A) → All P rows → P new → All P (rows ++ new ∷ [])
  All-added [] new all p = (p, tt)
  All-added (r ∷ rows) new (first, others) p = (first, All-added rows new others p)
