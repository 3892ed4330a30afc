-- ===== src/Common/Results.antt =====
-- What a handler throws, as a value, and `do` for chains of checks.
use mathlib.Core.Path.{◌≡◌, refl}
use mathlib.Core.Bool.{Bool, true, false}
use mathlib.Core.Option.{Option, none, some}

-- The exceptions of `@nestjs/common` that the code throws, without their messages.
pub data HttpError : Type 0 where
  bad_request unauthorized forbidden not_found conflict gone internal_error : HttpError

pub data Result {ℓ} (A : Type ℓ) : Type ℓ where
  ok : A → Result A
  err : HttpError → Result A

infixl 5 ◌>>=◌ ◌>>◌
abbrev pub ◌>>=◌ {ℓ κ} : {X : Type ℓ} {Y : Type κ} (r : Result X) (next : X → Result Y) → Result Y
err thrown >>= next = err thrown
ok x >>= next = next x

abbrev pub ◌>>◌ {κ} : {Y : Type κ} (check : Result (Unit {0})) (next : Result Y) → Result Y
check >> next = check >>= λ passed. next

-- `if (test) throw e`
abbrev pub throw_if : Bool → HttpError → Result (Unit {0})
throw_if true e = err e
throw_if false e = ok tt

-- `if (!found) throw e`
abbrev pub or_throw {ℓ} : {A : Type ℓ} → Option A → HttpError → Result A
or_throw none e = err e
or_throw (some a) e = ok a

-- Inversion of a successful bind.
pub >>=-eq-ok {ℓ κ} :
    {X : Type ℓ} {Y : Type κ} (r : Result X) (next : X → Result Y) {y : Y}
    (done : (r >>= next) ≡ ok y)
    → (x : X) × (r ≡ ok x) × (next x ≡ ok y)
>>=-eq-ok (err thrown) next done = cc
>>=-eq-ok (ok x) next done = (x, refl, done)

pub >>-eq-ok {κ} :
    {Y : Type κ} (check : Result (Unit {0})) (next : Result Y) {y : Y}
    (done : (check >> next) ≡ ok y)
    → (check ≡ ok tt) × (next ≡ ok y)
>>-eq-ok (err thrown) next done = cc
>>-eq-ok (ok passed) next done = (refl, done)
