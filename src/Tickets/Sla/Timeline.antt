-- ===== src/Tickets/Sla/Timeline.antt =====
-- The timeline that src/tickets/sla-elapsed.ts reads, and the milliseconds in which a test holds.
use nola_hq_backend.Common.{
  ℕ, zero, suc, min, max, ◌+◌, ◌-◌, ◌≤◌, ◌<◌, ◌≡◌, refl, Bool, true, false, not, ◌&&◌, Option, none,
  some, List, [], ◌∷◌, if◌then◌else◌, ltb, leb, arith, inl, inr, All, Bool-cases, Option-cases,
}
use nola_hq_backend.Common.Sort.{sort, insert}
use nola_hq_backend.Tickets.Sla.{
  TicketStatusPoint, by_created_at, client_paused, segment_end, is_client,
}
use nola_hq_backend.Tickets.{
  TicketStatus, opened, pending, resolved, closed, TicketPendingReason, on_client, on_vendor,
  on_internal,
}
use nola_hq_backend.Tickets.Service.{is_pending}

-- The last point of the timeline that is not after a time, as the list has them.
abbrev pub point_at : List TicketStatusPoint → ℕ → Option TicketStatusPoint
point_at [] t = none
point_at (p ∷ points) t = elim (point_at points t) [
  | some q ↦ some q
  | none ↦ if leb p.created_at t then some p else none
]

-- The clock runs in each status but in a wait that is not the vendor's or Nola's own.
abbrev pub runs_in : TicketStatus → Option TicketPendingReason → Bool
runs_in opened reason = true
runs_in resolved reason = true
runs_in closed reason = true
runs_in pending none = false
runs_in pending (some on_client) = false
runs_in pending (some on_vendor) = true
runs_in pending (some on_internal) = true

abbrev pub runs : Option TicketStatusPoint → Bool
runs none = false
runs (some p) = runs_in p.to_status p.pending_reason

pub runs-paused : (p : TicketStatusPoint) → runs (some p) ≡ not (client_paused p)
runs-paused p = go p.to_status p.pending_reason
  where
    go :
        (s : TicketStatus) (r : Option TicketPendingReason)
        → runs_in s r ≡ not (is_pending s && is_client r)
    go opened r = refl
    go resolved r = refl
    go closed r = refl
    go pending none = refl
    go pending (some on_client) = refl
    go pending (some on_vendor) = refl
    go pending (some on_internal) = refl

-- Where a clock ends: at its stop, or now, or at the last point where that lies ahead.
abbrev pub latest : List TicketStatusPoint → ℕ → ℕ
latest [] now = now
latest (p ∷ points) now = max p.created_at (latest points now)

abbrev pub clock_end : List TicketStatusPoint → Option ℕ → ℕ → ℕ
clock_end points none now = latest points now
clock_end points (some stop) now = stop

-- The milliseconds before a time in which a test holds.
abbrev pub count_ms : (ℕ → Bool) → ℕ → ℕ
count_ms test zero = 0
count_ms test (suc t) = let before = count_ms test t in if test t then suc before else before

-- The points of a timeline, in order.
abbrev pub InOrder : List TicketStatusPoint → Type 0
InOrder [] = Unit
InOrder (p ∷ points) =
    All (λ (q : TicketStatusPoint). p.created_at ≤ q.created_at) points × InOrder points

pub count_ms-sum :
    (f g h : ℕ → Bool) (n : ℕ)
    → ((t : ℕ) → t < n → (if h t then 1 else 0) ≡ (if f t then 1 else 0) + (if g t then 1 else 0))
    → count_ms h n ≡ count_ms f n + count_ms g n
count_ms-sum f g h zero each = refl
count_ms-sum f g h (suc n) each =
    let last = each n (omega arith) in
    let before = count_ms-sum f g h n (λ t lt. each t (omega arith)) in ground arith

pub count_ms-none : (f : ℕ → Bool) (n : ℕ) → ((t : ℕ) → t < n → f t ≡ false) → count_ms f n ≡ 0
count_ms-none f zero each = refl
count_ms-none f (suc n) each =
    let before = count_ms-none f n (λ t lt. each t (omega arith)) in
    rw (each n (omega arith)) before

pub count_ms-same : (f g : ℕ → Bool) (n : ℕ) → ((t : ℕ) → f t ≡ g t) → count_ms f n ≡ count_ms g n
count_ms-same f g zero each = refl
count_ms-same f g (suc n) each = rw (each n, count_ms-same f g n each) refl

unfoldable pub within : ℕ → ℕ → ℕ → Bool
within a b t = leb a t && ltb t b

pub count_ms-within : (a b n : ℕ) → count_ms (within a b) n ≡ (min b n) - a
unfolding within
count_ms-within a b zero = omega arith
count_ms-within a b (suc n) = ground (arith, count_ms-within a b n)

pub point_at-early :
    (points : List TicketStatusPoint) (t : ℕ)
    → All (λ (q : TicketStatusPoint). t < q.created_at) points
    → point_at points t ≡ none
point_at-early [] t later = refl
point_at-early (p ∷ points) t (first, others) =
    let rest = point_at-early points t others in
    let after : leb p.created_at t ≡ false = ground arith in rw (rest, after) refl

pub later_than :
    (a t : ℕ) (points : List TicketStatusPoint)
    → t < a
    → All (λ (q : TicketStatusPoint). a ≤ q.created_at) points
    → All (λ (q : TicketStatusPoint). t < q.created_at) points
later_than a t [] lt after = tt
later_than a t (q ∷ points) lt (first, others) = (omega arith, later_than a t points lt others)

pub point_at-first :
    (p : TicketStatusPoint) (points : List TicketStatusPoint) (t : ℕ)
    → p.created_at ≤ t
    → (r : TicketStatusPoint) × (point_at (p ∷ points) t ≡ some r)
point_at-first p points t le = elim (Option-cases (point_at points t)) [
  | inl missed ↦ let here : leb p.created_at t ≡ true = ground arith in (p, rw (missed, here) refl)
  | inr (r, hit) ↦ (r, rw hit refl)
]

-- Before the next point no later point is reached, and from it on one is.
pub next-none :
    (rest : List TicketStatusPoint) (stop now t : ℕ)
    → InOrder rest
    → t < segment_end rest (some stop) now
    → point_at rest t ≡ none
next-none [] stop now t order lt = refl
next-none (q ∷ rest) stop now t (after, order) lt =
    point_at-early (q ∷ rest) t (lt, later_than q.created_at t rest lt after)

pub next-some :
    (rest : List TicketStatusPoint) (stop now t : ℕ)
    → t < stop
    → segment_end rest (some stop) now ≤ t
    → (r : TicketStatusPoint) × (point_at rest t ≡ some r)
next-some [] stop now t lt le = absurd (omega arith)
next-some (q ∷ rest) stop now t lt le = point_at-first q rest t le

insert-after :
    (a : ℕ) (p : TicketStatusPoint) (points : List TicketStatusPoint)
    → a ≤ p.created_at
    → All (λ (q : TicketStatusPoint). a ≤ q.created_at) points
    → All (λ (q : TicketStatusPoint). a ≤ q.created_at) (insert by_created_at p points)
unfolding insert
insert-after a p [] le all = (le, tt)
insert-after a p (q ∷ points) le (first, others) =
    elim (Bool-cases (ltb q.created_at p.created_at)) [
      | inl smaller ↦ rw smaller (first, insert-after a p points le others)
      | inr other ↦ rw other (le, (first, others))
    ]

pub later_or_same :
    (a b : ℕ) (points : List TicketStatusPoint)
    → a ≤ b
    → All (λ (q : TicketStatusPoint). b ≤ q.created_at) points
    → All (λ (q : TicketStatusPoint). a ≤ q.created_at) points
later_or_same a b [] le after = tt
later_or_same a b (q ∷ points) le (first, others) =
    (omega arith, later_or_same a b points le others)

insert-InOrder :
    (p : TicketStatusPoint) (points : List TicketStatusPoint)
    → InOrder points
    → InOrder (insert by_created_at p points)
unfolding insert
insert-InOrder p [] order = (tt, tt)
insert-InOrder p (q ∷ points) (after, order) = elim (Bool-cases (ltb q.created_at p.created_at)) [
  | inl smaller ↦
      rw smaller
        (insert-after q.created_at p points (ground arith) after, insert-InOrder p points order)
  | inr other ↦
      let le : p.created_at ≤ q.created_at = ground arith in
      rw other ((le, later_or_same p.created_at q.created_at points le after), (after, order))
]

pub sort-InOrder : (points : List TicketStatusPoint) → InOrder (sort by_created_at points)
unfolding sort
sort-InOrder [] = tt
sort-InOrder (p ∷ points) = insert-InOrder p (sort by_created_at points) (sort-InOrder points)
