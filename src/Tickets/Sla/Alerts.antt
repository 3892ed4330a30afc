-- ===== src/Tickets/Sla/Alerts.antt =====
-- The alerts of any number of sweeps.
use nola_hq_backend.Common.{
  ℕ, ◌*◌, ◌≡◌, refl, true, false, not, ◌&&◌, Option, none, some, List, [], ◌∷◌, ◌++◌, ◌==◌, nat_eq,
  any-append_left, any-append_last, leb, ◌⊎◌, inl, inr, In, In-append_cases, Unrepeated,
  Unrepeated-append, Bool-cases, Option-cases, beq_self,
}
use nola_hq_backend.Tickets.{Ticket, TicketEventAction, TicketEvent, SlaPolicy, Desk}
use nola_hq_backend.Tickets.Equality.{action_eq, status_eq}
use nola_hq_backend.Tickets.Sla.{
  logged, Alert, system_event, record_once, alerts_once, Clock, check_clock, check_ticket, sweep,
  run, policy_of, events_of, response_clock, resolution_clock,
}

-- The log keeps what is in it, and each of the alerts, none twice, is new to it.
abbrev pub SentOnce : List TicketEvent → List Alert → List TicketEvent → Type 0
SentOnce before alerts after =
    Unrepeated alerts
    × ((a : Alert) → In a alerts → (logged before a.0 a.1 ≡ false) × (logged after a.0 a.1 ≡ true))
    × ((id : ℕ) (action : TicketEventAction)
        → logged before id action ≡ true
        → logged after id action ≡ true)

nothing_sent : (events : List TicketEvent) → SentOnce events [] events
nothing_sent events = (tt, λ a m. absurd m, λ id action h. h)

sent_in_turn :
    (e f g : List TicketEvent) (first second : List Alert)
    → SentOnce e first f
    → SentOnce f second g
    → SentOnce e (first ++ second) g
sent_in_turn e f g first second (u, new, kept) (v, newer, held) = (
  Unrepeated-append first second u v (λ a m n. cc ((new a m).1, (newer a n).0)),
  λ a m. elim (In-append_cases a first second m) [
    | inl l ↦ ((new a l).0, held a.0 a.1 (new a l).1)
    | inr r ↦ (new_before a (newer a r).0, (newer a r).1)
  ],
  λ id action h. held id action (kept id action h),
)
  where
    new_before : (a : Alert) → logged f a.0 a.1 ≡ false → logged e a.0 a.1 ≡ false
    new_before a h = elim (Bool-cases (logged e a.0 a.1)) [
      | inl logged_before ↦ absurd (cc (kept a.0 a.1 logged_before, h))
      | inr new_one ↦ new_one
    ]

logged-added :
    (events : List TicketEvent) (id other : ℕ) (action sent : TicketEventAction) (now : ℕ)
    → logged events id action ≡ true
    → logged (events ++ system_event other sent now ∷ []) id action ≡ true
logged-added events id other action sent now h =
    any-append_left (λ (e : TicketEvent). e.ticket_id == id && e.action == action) events _ h

logged-new :
    (events : List TicketEvent) (id : ℕ) (action : TicketEventAction) (now : ℕ)
    → logged (events ++ system_event id action now ∷ []) id action ≡ true
logged-new events id action now =
    any-append_last (λ (e : TicketEvent). e.ticket_id == id && e.action == action) events
      (system_event id action now) (rw (beq_self id, beq_self action) refl)

pub record_once-logged :
    (events : List TicketEvent) (id : ℕ) (action : TicketEventAction) (now : ℕ)
    → logged (record_once events id action now) id action ≡ true
record_once-logged events id action now = elim (Bool-cases (logged events id action)) [
  | inl already ↦ rw already already
  | inr new ↦ rw new (logged-new events id action now)
]

record_once-kept :
    (events : List TicketEvent) (id other : ℕ) (action sent : TicketEventAction) (now : ℕ)
    → logged events id action ≡ true
    → logged (record_once events other sent now) id action ≡ true
record_once-kept events id other action sent now h = elim (Bool-cases (logged events other sent)) [
  | inl already ↦ rw already h
  | inr new ↦ rw new (logged-added events id other action sent now h)
]

record_once-SentOnce :
    (events : List TicketEvent) (id : ℕ) (action : TicketEventAction) (now : ℕ)
    → SentOnce events (alerts_once events id action) (record_once events id action now)
record_once-SentOnce events id action now = elim (Bool-cases (logged events id action)) [
  | inl already ↦ rw already (nothing_sent events)
  | inr new ↦ rw new (
    (λ m. m, tt),
    λ a m. sent a new m,
    λ other other_action h. logged-added events other id other_action action now h,
  )
]
  where
    sent :
        (a : Alert)
        → logged events id action ≡ false
        → (a ≡ (id, action)) ⊎ ⊥
        → (logged events a.0 a.1 ≡ false)
          × (logged (events ++ system_event id action now ∷ []) a.0 a.1 ≡ true)
    sent a new (inl e) = rw e (new, logged-new events id action now)
    sent a new (inr m) = absurd m

check_clock-SentOnce :
    (events : List TicketEvent) (id : ℕ) (clock : Clock) (now : ℕ)
    → let (after, alerts) = check_clock events id clock now in SentOnce events alerts after
unfolding check_clock
check_clock-SentOnce events id clock now = go clock.target_minutes
  where
    silent : (action : TicketEventAction) → SentOnce events [] (record_once events id action now)
    silent action =
        (tt, λ a m. absurd m, λ other sent h. record_once-kept events other id sent action now h)

    go :
        (target : Option ℕ)
        → let (after, alerts) =
            check_clock events id (record clock { target_minutes = target }) now in
          SentOnce events alerts after
    go none = nothing_sent events
    go (some minutes) = elim (Bool-cases (leb (minutes * 60000) clock.elapsed_ms)) [
      | inl over ↦ rw over (silent clock.breached_action)
      | inr under ↦
          elim (Bool-cases
            (not clock.already_stopped && leb (minutes * 60000 * 8) (clock.elapsed_ms * 10))) [
              | inl near ↦
                  rw (under, near) (record_once-SentOnce events id clock.approaching_action now)
              | inr far ↦ rw (under, far) (nothing_sent events)
            ]
    ]

check_ticket-SentOnce :
    (events : List TicketEvent) (ticket : Ticket) (policy : SlaPolicy) (own : List TicketEvent)
    (now : ℕ)
    → let (after, alerts) = check_ticket events ticket policy own now in
      SentOnce events alerts after
unfolding check_ticket
check_ticket-SentOnce events ticket policy own now =
    let answered = check_clock events ticket.id (response_clock policy own now) now in
    sent_in_turn events answered.0 _ answered.1 _
      (check_clock-SentOnce events ticket.id (response_clock policy own now) now)
      (check_clock-SentOnce answered.0 ticket.id (resolution_clock policy own now) now)

pub sweep-SentOnce :
    (policies : List SlaPolicy) (read : List TicketEvent) (now : ℕ) (tickets : List Ticket)
    (events : List TicketEvent)
    → let (after, alerts) = sweep policies read now tickets events in SentOnce events alerts after
unfolding sweep
sweep-SentOnce policies read now [] events = nothing_sent events
sweep-SentOnce policies read now (ticket ∷ tickets) events =
    elim (Option-cases (policy_of policies ticket)) [
      | inl untracked ↦ rw (sweep, untracked) (sweep-SentOnce policies read now tickets events)
      | inr (policy, tracked) ↦
          let checked = check_ticket events ticket policy (events_of read ticket.id) now in
          rw (sweep, tracked)
            (sent_in_turn events checked.0 _ checked.1 _
              (check_ticket-SentOnce events ticket policy (events_of read ticket.id) now)
              (sweep-SentOnce policies read now tickets checked.0))
    ]

-- A run of sweeps, each on the desk as it is then, with the same log.
abbrev pub sweeps : List TicketEvent → List (Desk × ℕ) → List TicketEvent × List Alert
sweeps events [] = (events, [])
sweeps events ((desk, now) ∷ later) =
    let (swept, first) = run (record desk { events = events }) now in
    let (last, others) = sweeps swept.events later in (last, first ++ others)

sweeps-SentOnce :
    (events : List TicketEvent) (times : List (Desk × ℕ))
    → let (after, alerts) = sweeps events times in SentOnce events alerts after
unfolding run
sweeps-SentOnce events [] = nothing_sent events
sweeps-SentOnce events ((desk, now) ∷ later) =
    let swept = run (record desk { events = events }) now in
    sent_in_turn events swept.0.events _ swept.1 _
      (sweep-SentOnce desk.policies events now _ events) (sweeps-SentOnce swept.0.events later)

-- Whatever the sweeps, their times and the tickets and policies that each of them finds, no alert of a
-- ticket is sent twice.
pub sweeps-Unrepeated :
    (events : List TicketEvent) (times : List (Desk × ℕ)) → Unrepeated (sweeps events times).1
sweeps-Unrepeated events times = (sweeps-SentOnce events times).0
