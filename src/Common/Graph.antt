-- ===== src/Common/Graph.antt =====
-- Paths and cycles of a relation, and when a new edge closes no cycle.
use mathlib.Core.Path.{◌≡◌, sym, subst}
use mathlib.Core.Logic.{◌⊎◌, inl, inr}

-- A path of no edge or more.
pub data Reaches {A : Type 0} (E : A → A → Type 0) : A → A → Type 0 where
  here : {a : A} → Reaches E a a
  step : {a b c : A} → E a b → Reaches E b c → Reaches E a c

pub Reaches-trans :
    {A : Type 0} {E : A → A → Type 0} {a b c : A} → Reaches E a b → Reaches E b c → Reaches E a c
Reaches-trans here q = q
Reaches-trans (step s p) q = step s (Reaches-trans p q)

-- A path of a smaller relation.
pub Reaches-map :
    {A : Type 0} {E F : A → A → Type 0} {a b : A}
    → ((x y : A) → F x y → E x y)
    → Reaches F a b
    → Reaches E a b
Reaches-map h here = here
Reaches-map h (step s p) = step (h _ _ s) (Reaches-map h p)

-- No node reaches itself by one edge or more.
abbrev pub IsAcyclic : {A : Type 0} → (A → A → Type 0) → Type 0
IsAcyclic {A} E = (a b : A) → E a b → ¬ Reaches E b a

-- `F` has no edge but those of `E` and one from `w` to `d`.
abbrev pub AddsOnly : {A : Type 0} → (E F : A → A → Type 0) → A → A → Type 0
AddsOnly {A} E F w d = (a b : A) → F a b → E a b ⊎ ((a ≡ w) × (b ≡ d))

module _ {A : Type 0} (E F : A → A → Type 0) (w d : A) (adds : AddsOnly E F w d)
    (unreached : ¬ Reaches E d w) where
  split : {a b : A} → Reaches F a b → Reaches E a b ⊎ (Reaches E a w × Reaches F d b)
  split here = inl here
  split {b} (step {a = a} {b = m} s p) = elim (adds a m s) [
    | inl old ↦ elim (split p) [ inl q ↦ inl (step old q) | inr q ↦ inr (step old q.0, q.1) ]
    | inr new ↦
        inr (subst (λ x. Reaches E x w) (sym new.0) here, subst (λ x. Reaches F x b) new.1 p)
  ]

  old_only : Reaches F d w → ⊥
  old_only p = elim (split p) [ inl q ↦ unreached q | inr q ↦ unreached q.0 ]

  -- An edge from `w` to `d` closes no cycle where `d` did not reach `w`.
  pub add-IsAcyclic : IsAcyclic E → IsAcyclic F
  add-IsAcyclic acyclic a b s p = elim (adds a b s) [
    | inr new ↦ old_only (subst (λ x. Reaches F d x) new.0 (subst (λ x. Reaches F x a) new.1 p))
    | inl old ↦ elim (split p) [
      | inl q ↦ acyclic a b old q
      | inr q ↦ elim (split q.1) [
        | inl r ↦ unreached (Reaches-trans r (step old q.0))
        | inr r ↦ unreached r.0
      ]
    ]
  ]
