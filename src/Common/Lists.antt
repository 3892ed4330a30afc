-- ===== src/Common/Lists.antt =====
-- Lists as the code uses arrays and tables: `find`, `filter`, `some`, `includes`.
use Prim.Native.Nat.{ℕ, zero, suc, ◌+◌}
use mathlib.Core.Path.{◌≡◌, refl, sym, ap, ap₂, subst}
use mathlib.Core.Logic.{◌⊎◌, inl, inr}
use mathlib.Core.Bool.{Bool, true, false, ◌||◌}
use mathlib.Core.Option.{Option, none, some}
use mathlib.Core.List.{List, [], ◌∷◌, ◌++◌, map}
use native.Mathlib.Omega.{arith}
use nola_hq_backend.Common.Tests.{if◌then◌else◌, Eq, ◌==◌, Bool-cases, beq_self, beq→eq}

module _ {ℓ} {A : Type ℓ} where
  abbrev pub length : List A → ℕ
  length [] = 0
  length (x ∷ xs) = suc (length xs)

  abbrev pub get_elem? : List A → ℕ → Option A
  get_elem? [] i = none
  get_elem? (x ∷ xs) zero = some x
  get_elem? (x ∷ xs) (suc i) = get_elem? xs i

  -- `xs.filter(p)`
  abbrev pub filter : (A → Bool) → List A → List A
  filter p [] = []
  filter p (x ∷ xs) = if p x then x ∷ filter p xs else filter p xs

  -- `xs.find(p)`
  abbrev pub find : (A → Bool) → List A → Option A
  find p [] = none
  find p (x ∷ xs) = if p x then some x else find p xs

  -- `xs.some(p)`
  abbrev pub any : (A → Bool) → List A → Bool
  any p [] = false
  any p (x ∷ xs) = p x || any p xs

  abbrev pub count_if : (A → Bool) → List A → ℕ
  count_if p xs = length (filter p xs)

  abbrev pub All {κ} : (A → Type κ) → List A → Type κ
  All P [] = Unit
  All P (x ∷ xs) = P x × All P xs

  pub any-append_left : (p : A → Bool) (xs ys : List A) → any p xs ≡ true → any p (xs ++ ys) ≡ true
  any-append_left p [] ys h = cc
  any-append_left p (x ∷ xs) ys h = elim (Bool-cases (p x)) [
    | inl hit ↦ rw hit refl
    | inr miss ↦ rw miss (any-append_left p xs ys (rw miss at h))
  ]

  pub any-append_last :
      (p : A → Bool) (xs : List A) (y : A) → p y ≡ true → any p (xs ++ y ∷ []) ≡ true
  any-append_last p [] y h = rw h refl
  any-append_last p (x ∷ xs) y h = elim (Bool-cases (p x)) [
    | inl hit ↦ rw hit refl
    | inr miss ↦ rw miss (any-append_last p xs y h)
  ]

  pub length-append : (xs ys : List A) → length (xs ++ ys) ≡ length xs + length ys
  length-append [] ys = omega arith
  length-append (x ∷ xs) ys = omega (arith, length-append xs ys)

-- `a` is one of the entries.
module _ {A : Type 0} where
  abbrev pub In : A → List A → Type 0
  In a [] = ⊥
  In a (x ∷ xs) = (a ≡ x) ⊎ In a xs

module _ {A : Type 0} where
  abbrev pub Unrepeated : List A → Type 0
  Unrepeated [] = Unit
  Unrepeated (x ∷ xs) = (¬ In x xs) × Unrepeated xs

module _ {A : Type 0} where
  pub In-append_left : (a : A) (xs ys : List A) → In a xs → In a (xs ++ ys)
  In-append_left a [] ys h = absurd h
  In-append_left a (x ∷ xs) ys (inl e) = inl e
  In-append_left a (x ∷ xs) ys (inr h) = inr (In-append_left a xs ys h)

  pub In-append_right : (a : A) (xs ys : List A) → In a ys → In a (xs ++ ys)
  In-append_right a [] ys h = h
  In-append_right a (x ∷ xs) ys h = inr (In-append_right a xs ys h)

  pub In-append_cases : (a : A) (xs ys : List A) → In a (xs ++ ys) → In a xs ⊎ In a ys
  In-append_cases a [] ys h = inr h
  In-append_cases a (x ∷ xs) ys (inl e) = inl (inl e)
  In-append_cases a (x ∷ xs) ys (inr h) = elim (In-append_cases a xs ys h) [
    | inl l ↦ inl (inr l)
    | inr r ↦ inr r
  ]

  pub Unrepeated-append :
      (xs ys : List A)
      → Unrepeated xs
      → Unrepeated ys
      → ((a : A) → In a xs → ¬ In a ys)
      → Unrepeated (xs ++ ys)
  Unrepeated-append [] ys u v apart = v
  Unrepeated-append (x ∷ xs) ys (new, u) v apart = (
    λ m. elim (In-append_cases x xs ys m) [ inl l ↦ new l | inr r ↦ apart x (inl refl) r ],
    Unrepeated-append xs ys u v (λ a m. apart a (inr m)),
  )

  pub In-filter : (p : A → Bool) (a : A) (xs : List A) → In a (filter p xs) → In a xs × (p a ≡ true)
  In-filter p a [] h = absurd h
  In-filter p a (x ∷ xs) h = elim (Bool-cases (p x)) [
    | inr out ↦ let (m, t) = In-filter p a xs (rw (out, filter) at h) in (inr m, t)
    | inl keep ↦ go keep (rw (keep, filter) at h) (In-filter p a xs)
  ]
    where
      go :
          p x ≡ true
          → (a ≡ x) ⊎ In a (filter p xs)
          → (In a (filter p xs) → In a xs × (p a ≡ true))
          → ((a ≡ x) ⊎ In a xs) × (p a ≡ true)
      go keep (inl e) ih = (inl e, rw e keep)
      go keep (inr m) ih = (inr (ih m).0, (ih m).1)

  pub In-filter_of :
      (p : A → Bool) (a : A) (xs : List A) → In a xs → p a ≡ true → In a (filter p xs)
  In-filter_of p a [] h t = h
  In-filter_of p a (x ∷ xs) (inl e) t = let tx : p x ≡ true = rw (← e) t in rw tx (inl e)
  In-filter_of p a (x ∷ xs) (inr m) t = elim (Bool-cases (p x)) [
    | inl keep ↦ rw keep (inr (In-filter_of p a xs m t))
    | inr out ↦ rw out (In-filter_of p a xs m t)
  ]

  pub find_sound :
      (p : A → Bool) (xs : List A) {a : A} → find p xs ≡ some a → In a xs × (p a ≡ true)
  find_sound p [] h = cc
  find_sound p (x ∷ xs) {a} h = elim (Bool-cases (p x)) [
    | inl hit ↦ let e : x ≡ a = ground arith in (inl (sym e), rw (← e) hit)
    | inr miss ↦ let (m, t) = find_sound p xs (rw (miss, find) at h) in (inr m, t)
  ]

  pub find-none : (p : A → Bool) (xs : List A) (a : A) → find p xs ≡ none → In a xs → p a ≡ false
  find-none p [] a h m = absurd m
  find-none p (x ∷ xs) a h (inl e) = rw e (ground arith)
  find-none p (x ∷ xs) a h (inr m) = find-none p xs a (ground arith) m

  pub In-map :
      {B : Type 0} (f : B → A) (a : A) (xs : List B)
      → In a (map f xs)
      → (b : B) × In b xs × (a ≡ f b)
  In-map f a [] h = absurd h
  In-map f a (x ∷ xs) (inl e) = (x, inl refl, e)
  In-map f a (x ∷ xs) (inr m) = let (b, there, same) = In-map f a xs m in (b, inr there, same)

  pub In-map_of : {B : Type 0} (f : B → A) (b : B) (xs : List B) → In b xs → In (f b) (map f xs)
  In-map_of f b [] h = absurd h
  In-map_of f b (x ∷ xs) (inl e) = inl (ap f e)
  In-map_of f b (x ∷ xs) (inr m) = inr (In-map_of f b xs m)

  pub map-cong_In :
      {B : Type 0} (f g : A → B) (xs : List A)
      → ((a : A) → In a xs → f a ≡ g a)
      → map f xs ≡ map g xs
  map-cong_In f g [] h = refl
  map-cong_In f g (x ∷ xs) h = ap₂ ◌∷◌ (h x (inl refl)) (map-cong_In f g xs (λ a m. h a (inr m)))

  pub All-In {κ} : (P : A → Type κ) (xs : List A) → All P xs → (a : A) → In a xs → P a
  All-In P [] h a m = absurd m
  All-In P (x ∷ xs) h a (inl e) = rw e h.0
  All-In P (x ∷ xs) h a (inr m) = All-In P xs h.1 a m

  pub All-of {κ} : (P : A → Type κ) (xs : List A) → ((a : A) → In a xs → P a) → All P xs
  All-of P [] h = tt
  All-of P (x ∷ xs) h = (h x (inl refl), All-of P xs (λ a m. h a (inr m)))

module _ {ℓ} {A : Type ℓ} ⦃e : Eq A⦄ where
  -- `xs.includes(a)`, `seen.has(a)`
  abbrev pub contains : List A → A → Bool
  contains [] a = false
  contains (x ∷ xs) a = x == a || contains xs a

  abbrev pub Distinct : List A → Type ℓ
  Distinct [] = Unit
  Distinct (x ∷ xs) = (contains xs x ≡ false) × Distinct xs

module _ {A : Type 0} ⦃e : Eq A⦄ where
  pub contains→In : (xs : List A) (a : A) → contains xs a ≡ true → In a xs
  contains→In [] a h = cc
  contains→In (x ∷ xs) a h = elim (Bool-cases (x == a)) [
    | inl same ↦ inl (sym (beq→eq x a same))
    | inr other ↦ inr (contains→In xs a (ground arith))
  ]

  pub In→contains : (xs : List A) (a : A) → In a xs → contains xs a ≡ true
  In→contains [] a h = absurd h
  In→contains (x ∷ xs) a (inl p) = let t : (x == a) ≡ true = rw p (beq_self x) in rw t
  In→contains (x ∷ xs) a (inr m) = ground (arith, In→contains xs a m)

  pub not-In : (xs : List A) (a : A) → contains xs a ≡ false → ¬ In a xs
  not-In xs a h m = cc (In→contains xs a m)

  -- Rows that are looked up by a distinct key.
  pub find-key :
      {B : Type 0} (key : B → A) (xs : List B) (b : B)
      → Distinct (map key xs)
      → In b xs
      → find (λ x. key x == key b) xs ≡ some b
  find-key key [] b d m = absurd m
  find-key key (x ∷ xs) b d (inl p) =
      let same : (key x == key b) ≡ true = rw p (beq_self (key x)) in rw same (ap some (sym p))
  find-key key (x ∷ xs) b d (inr m) = elim (Bool-cases (key x == key b)) [
    | inr other ↦ rw other (find-key key xs b d.1 m)
    | inl same ↦ absurd (
        not-In (map key xs) (key x) d.0 (
          subst (λ k. In k (map key xs)) (sym (beq→eq (key x) (key b) same))
            (In-map_of key b xs m)))
  ]

  map-keys :
      {B : Type 0} (key : B → A) (f : B → B) (xs : List B)
      → ((b : B) → key (f b) ≡ key b)
      → map key (map f xs) ≡ map key xs
  map-keys key f [] same = refl
  map-keys key f (x ∷ xs) same = ap₂ ◌∷◌ (same x) (map-keys key f xs same)

  -- A rewrite of the rows that keeps their keys keeps them distinct.
  pub Distinct-map :
      {B : Type 0} (key : B → A) (f : B → B) (xs : List B)
      → ((b : B) → key (f b) ≡ key b)
      → Distinct (map key xs)
      → Distinct (map key (map f xs))
  Distinct-map key f [] same d = tt
  Distinct-map key f (x ∷ xs) same d = (
    rw (same x) (subst (λ l. contains l (key x) ≡ false) (sym (map-keys key f xs same)) d.0),
    Distinct-map key f xs same d.1,
  )
