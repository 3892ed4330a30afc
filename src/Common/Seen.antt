-- ===== src/Common/Seen.antt =====
-- The measure of the loops that mark what they have seen: the entries of a finite domain that are
-- not marked yet.
use nola_hq_backend.Common.Tests.{Eq, ◌==◌, beq_self}
use nola_hq_backend.Common.Lists.{contains, In, count_if, length}
use Prim.Native.Nat.{ℕ, ◌≤◌, ◌<◌}
use mathlib.Core.Path.{◌≡◌, sym}
use mathlib.Core.Logic.{inl, inr}
use mathlib.Core.Bool.{true, false, not}
use mathlib.Core.List.{List, [], ◌∷◌}
use native.Mathlib.Omega.{arith}

module _ {A : Type 0} ⦃e : Eq A⦄ where
  pub unseen : List A → List A → ℕ
  unseen seen dom = count_if (λ x. not (contains seen x)) dom

  pub unseen-cons-le : (seen dom : List A) (c : A) → unseen (c ∷ seen) dom ≤ unseen seen dom
  unfolding unseen
  unseen-cons-le seen [] c = omega arith
  unseen-cons-le seen (x ∷ dom) c = ground (arith, unseen-cons-le seen dom c)

  pub unseen-cons-lt :
      (seen dom : List A) (c : A)
      → In c dom
      → contains seen c ≡ false
      → unseen (c ∷ seen) dom < unseen seen dom
  unfolding unseen
  unseen-cons-lt seen [] c m h = absurd m
  unseen-cons-lt seen (x ∷ dom) c (inl p) h =
      let here : (c == x) ≡ true = rw (sym p) (beq_self c) in
      let new : contains seen x ≡ false = rw (sym p) h in
      rw (here, new) (ground (arith, unseen-cons-le seen dom c))
  unseen-cons-lt seen (x ∷ dom) c (inr m) h = ground (arith, unseen-cons-lt seen dom c m h)

  pub unseen-le-length : (seen dom : List A) → unseen seen dom ≤ length dom
  unfolding unseen
  unseen-le-length seen [] = omega arith
  unseen-le-length seen (x ∷ dom) = ground (arith, unseen-le-length seen dom)
