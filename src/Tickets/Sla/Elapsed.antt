-- ===== src/Tickets/Sla/Elapsed.antt =====
-- `computeActiveMs` of src/tickets/sla-elapsed.ts, millisecond by millisecond.
use nola_hq_backend.Common.{
  ℕ, max, ◌∙◌, ◌+◌, ◌-◌, ◌≤◌, ◌<◌, ◌≡◌, refl, sym, ap, Bool, true, false, not, ◌&&◌, Option, none,
  some, List, [], ◌∷◌, if◌then◌else◌, ltb, leb, arith, inl, inr, All, Bool-cases,
}
use nola_hq_backend.Common.Sort.{sort}
use nola_hq_backend.Tickets.Sla.{
  TicketStatusPoint, by_created_at, client_paused, segment_end, effective_end, active_from,
  compute_active_ms,
}
use nola_hq_backend.Tickets.Sla.Timeline.{
  point_at, runs, runs-paused, latest, clock_end, count_ms, InOrder, count_ms-none, count_ms-same,
  count_ms-sum, count_ms-within, later_or_same, later_than, next-none, next-some, point_at-early,
  sort-InOrder, within,
}

segment_test : TicketStatusPoint → ℕ → ℕ → Bool
unfolding within
segment_test p last t = not (client_paused p) && within p.created_at last t

segment_count :
    (p : TicketStatusPoint) (last n : ℕ)
    → count_ms (segment_test p last) n
      ≡ (if client_paused p then 0 else effective_end (some n) last - p.created_at)
unfolding segment_test
segment_count p last n = elim (Bool-cases (client_paused p)) [
  | inl paused ↦ rw paused (count_ms-none (segment_test p last) n (λ t lt. rw paused refl))
  | inr running ↦
      let same =
        count_ms-same (segment_test p last) (within p.created_at last) n (λ t. rw running refl) in
      rw running (ground (arith, count_ms-within p.created_at last n))
]

-- At each time, the clock runs in the first segment or in a later one.
point_at-split :
    (p : TicketStatusPoint) (rest : List TicketStatusPoint) (stop now t : ℕ)
    → InOrder rest
    → t < stop
    → (if runs (point_at (p ∷ rest) t) then 1 else 0)
      ≡ (if segment_test p (segment_end rest (some stop) now) t then 1 else 0)
        + (if runs (point_at rest t) then 1 else 0)
unfolding within segment_test
point_at-split p rest stop now t order lt =
    elim (Bool-cases (ltb t (segment_end rest (some stop) now))) [
      | inl early ↦
          let missed = next-none rest stop now t order (ground arith) in
          rw missed (elim (Bool-cases (leb p.created_at t)) [
            | inl begun ↦ rw (begun, early, runs-paused p) (ground arith)
            | inr before ↦ rw before (ground arith)
          ])
      | inr late ↦
          let (r, hit) = next-some rest stop now t lt (ground arith) in
          rw (hit, late) (ground arith)
    ]

active_from-count :
    (points : List TicketStatusPoint) (stop now : ℕ)
    → InOrder points
    → active_from points (some stop) now ≡ count_ms (λ t. runs (point_at points t)) stop
unfolding active_from
active_from-count [] stop now order = sym (count_ms-none (λ t. false) stop (λ t lt. refl))
active_from-count (p ∷ rest) stop now (after, order) = elim (Bool-cases (leb stop p.created_at)) [
  | inl stopped ↦ rw stopped (
      sym (
        count_ms-none (λ t. runs (point_at (p ∷ rest) t)) stop
          (λ t lt.
            let early : t < p.created_at = ground arith in
            ap runs
              (point_at-early (p ∷ rest) t (early, later_than p.created_at t rest early after)))))
  | inr going ↦ rw going (
      rw
        (
          count_ms-sum (segment_test p (segment_end rest (some stop) now))
              (λ t. runs (point_at rest t)) (λ t. runs (point_at (p ∷ rest) t)) stop
              (λ t lt. point_at-split p rest stop now t order lt),
          segment_count p (segment_end rest (some stop) now) stop,
          ← active_from-count rest stop now order,
        )
        refl)
]

latest-reached :
    (points : List TicketStatusPoint) (now : ℕ)
    → All (λ (q : TicketStatusPoint). q.created_at ≤ latest points now) points
latest-reached [] now = tt
latest-reached (p ∷ points) now =
    (omega arith, later_end p.created_at points points now (latest-reached points now))
  where
    later_end :
        (a : ℕ) (rest points : List TicketStatusPoint) (now : ℕ)
        → All (λ (q : TicketStatusPoint). q.created_at ≤ latest points now) rest
        → All (λ (q : TicketStatusPoint). q.created_at ≤ max a (latest points now)) rest
    later_end a [] points now all = tt
    later_end a (q ∷ rest) points now (first, others) =
        (omega arith, later_end a rest points now others)

-- From its end on, a clock adds nothing.
active_from-end :
    (points : List TicketStatusPoint) (stop now : ℕ)
    → All (λ (q : TicketStatusPoint). stop ≤ q.created_at) points
    → active_from points (some stop) now ≡ 0
unfolding active_from
active_from-end [] stop now after = refl
active_from-end (p ∷ rest) stop now (first, others) =
    let stopped : leb stop p.created_at ≡ true = ground arith in rw stopped refl

-- A clock that has not stopped counts as one that stops at its end.
active_from-open :
    (points : List TicketStatusPoint) (now : ℕ)
    → InOrder points
    → active_from points none now ≡ active_from points (some (latest points now)) now
unfolding active_from
active_from-open [] now order = refl
active_from-open (p ∷ []) now order = elim (Bool-cases (leb now p.created_at)) [
  | inl ahead ↦
      let last : max p.created_at now ≡ p.created_at = ground arith in rw last (ground arith)
  | inr passed ↦
      let last : max p.created_at now ≡ now = ground arith in rw (last, passed) (ground arith)
]
active_from-open (p ∷ (q ∷ rest)) now ((le, after), order) =
    let ends = latest (q ∷ rest) now in
    let reached = (latest-reached (q ∷ rest) now).0 in
    let last : max p.created_at ends ≡ ends = omega arith in
    let later = active_from-open (q ∷ rest) now order in
    rw (last, later)
      (elim (Bool-cases (leb ends p.created_at)) [
        | inl over ↦
            let here : ends ≤ q.created_at = ground arith in
            let none_left =
              active_from-end (q ∷ rest) ends now
                (here, later_or_same ends q.created_at rest here order.0) in
            rw (over, none_left) (ground arith)
        | inr going ↦
            let within_end : ltb ends q.created_at ≡ false = ground arith in
            rw (going, within_end) refl
      ])

-- The active time of a clock is the number of milliseconds, up to its end, in which the last status
-- of the timeline, in the order of its points, was reached and was not a wait for the client. The end
-- is the stop where the clock has stopped, and now where it has not, or the last point where that
-- lies ahead of now.
pub compute_active_ms-count :
    (points : List TicketStatusPoint) (stop_at : Option ℕ) (now : ℕ)
    → compute_active_ms points stop_at now
      ≡ count_ms
          (λ t. runs (point_at (sort by_created_at points) t))
          (clock_end (sort by_created_at points) stop_at now)
unfolding compute_active_ms
compute_active_ms-count points (some stop) now =
    active_from-count (sort by_created_at points) stop now (sort-InOrder points)
compute_active_ms-count points none now =
    let order = sort-InOrder points in
    active_from-open (sort by_created_at points) now order
    ∙ active_from-count (sort by_created_at points) (latest (sort by_created_at points) now) now
        order
