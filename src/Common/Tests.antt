-- ===== src/Common/Tests.antt =====
-- Boolean tests, the conditional, and `===` as an instance.
use Prim.Native.Nat.{ℕ, compare, Ordering}
use Prim.Native.String.{String}
use mathlib.Core.Path.{◌≡◌, refl, sym, ap, ◌∙◌}
use mathlib.Core.Logic.{◌↔◌, ◌⊎◌, ◌≢◌, inl, inr}
use mathlib.Core.Bool.{Bool, true, false, ◌&&◌}
use mathlib.Core.Option.{Option, none, some}
use native.Mathlib.Omega.{arith}
use text.Mathlib.Text.{◌==◌ as str_eq}
use text.Mathlib.TextEquality.{eq_iff}

abbrev pub ltb : ℕ → ℕ → Bool
ltb a b = elim (compare a b) [ Ordering.lt ↦ true | _ ↦ false ]

abbrev pub leb : ℕ → ℕ → Bool
leb a b = elim (compare a b) [ Ordering.gt ↦ false | _ ↦ true ]

abbrev nat_beq : ℕ → ℕ → Bool
nat_beq a b = elim (compare a b) [ Ordering.eq ↦ true | _ ↦ false ]

pub nat_beq_iff : (a b : ℕ) → (nat_beq a b ≡ true) ↔ (a ≡ b)
nat_beq_iff a b = ground arith

infix 1 if◌then◌else◌
abbrev pub if◌then◌else◌ {ℓ} : {A : Type ℓ} → Bool → A → A → A
if true then x else y = x
if false then x else y = y

-- To split on a computed value and keep the equation.
pub Bool-cases : (b : Bool) → (b ≡ true) ⊎ (b ≡ false)
Bool-cases true = inl refl
Bool-cases false = inr refl

pub Option-cases {ℓ} : {A : Type ℓ} (o : Option A) → (o ≡ none) ⊎ ((a : A) × (o ≡ some a))
Option-cases none = inl refl
Option-cases (some a) = inr (a, refl)

pub and-eq-true : (a b : Bool) → (a && b) ≡ true → (a ≡ true) × (b ≡ true)
and-eq-true a b h = ground arith

-- A type whose values `===` compares.
pub record Eq {ℓ} (X : Type ℓ) : Type ℓ where
  pub beq : (x y : X) → Bool
  pub beq_iff : (x y : X) → (beq x y ≡ true) ↔ (x ≡ y)

infix 50 ◌==◌
abbrev pub ◌==◌ {ℓ} : {X : Type ℓ} ⦃same : Eq X⦄ (x y : X) → Bool
◌==◌ ⦃same⦄ x y = same.beq x y

instance abbrev pub nat_eq : Eq ℕ
nat_eq = record { beq = nat_beq; beq_iff = nat_beq_iff }

instance abbrev pub string_eq : Eq String
string_eq = record { beq = str_eq; beq_iff = eq_iff }

module _ {ℓ} {A : Type ℓ} ⦃e : Eq A⦄ where
  pub beq→eq : (a b : A) → (a == b) ≡ true → a ≡ b
  beq→eq a b h = (e.beq_iff a b).0 h

  pub eq→beq : (a b : A) → a ≡ b → (a == b) ≡ true
  eq→beq a b h = (e.beq_iff a b).1 h

  pub beq_self : (a : A) → (a == a) ≡ true
  beq_self a = (e.beq_iff a a).1 refl

  pub ne→beq : (a b : A) → a ≢ b → (a == b) ≡ false
  ne→beq a b h = ground (arith, e.beq_iff a b)

  pub beq→ne : (a b : A) → (a == b) ≡ false → a ≢ b
  beq→ne a b h = ground (arith, e.beq_iff a b)

  abbrev opt_beq : Option A → Option A → Bool
  opt_beq none none = true
  opt_beq (some a) (some b) = a == b
  opt_beq _ _ = false

  pub opt_beq_iff : (a b : Option A) → (opt_beq a b ≡ true) ↔ (a ≡ b)
  opt_beq_iff none none = ground arith
  opt_beq_iff (some a) (some b) = ground (arith, e.beq_iff a b)
  opt_beq_iff none (some b) = ground arith
  opt_beq_iff (some a) none = ground arith

-- `===` on a nullable value.
instance abbrev pub option_eq {ℓ} : {A : Type ℓ} ⦃e : Eq A⦄ → Eq (Option A)
option_eq = record { beq = opt_beq; beq_iff = opt_beq_iff }

-- A comparison by a number that tells the values apart.
abbrev pub ranked_eq :
    {A : Type 0} (rank : A → ℕ) (unrank : ℕ → A) → ((a : A) → unrank (rank a) ≡ a) → Eq A
ranked_eq {A} rank unrank back = record {
  beq = λ a b. nat_beq (rank a) (rank b);
  beq_iff = λ a b. (
    λ same. sym (back a) ∙ ap unrank ((nat_beq_iff (rank a) (rank b)).0 same) ∙ back b,
    λ same. (nat_beq_iff (rank a) (rank b)).1 (ap rank same),
  );
}
