-- ===== src/Tickets/Sla/Breaches.antt =====
-- The breaches that a sweep records.
use nola_hq_backend.Common.{
  ℕ, ◌*◌, ◌≤◌, ◌≡◌, refl, true, false, not, none, some, List, [], ◌∷◌, nat_eq, filter, leb, arith,
  inl, inr, In, In-filter_of, Option-cases,
}
use nola_hq_backend.Tickets.{Ticket, sla_resolution_breached, TicketEvent, SlaPolicy, Desk}
use nola_hq_backend.Tickets.Equality.{action_eq, status_eq}
use nola_hq_backend.Tickets.Service.{is_final}
use nola_hq_backend.Tickets.Sla.{
  logged, Clock, check_clock, check_ticket, sweep, run, policy_of, events_of, response_clock,
  resolution_clock, compute_active_ms, points_of,
}
use nola_hq_backend.Tickets.Sla.Alerts.{record_once-logged, sweep-SentOnce}

check_clock-breached :
    (events : List TicketEvent) (id : ℕ) (clock : Clock) (now minutes : ℕ)
    → clock.target_minutes ≡ some minutes
    → minutes * 60000 ≤ clock.elapsed_ms
    → logged (check_clock events id clock now).0 id clock.breached_action ≡ true
unfolding check_clock
check_clock-breached events id clock now minutes target late =
    let over : leb (minutes * 60000) clock.elapsed_ms ≡ true = ground arith in
    rw (check_clock, target, over) (record_once-logged events id clock.breached_action now)

sweep-breached_first :
    (policies : List SlaPolicy) (read : List TicketEvent) (now : ℕ) (ticket : Ticket)
    (tickets : List Ticket) (events : List TicketEvent) (policy : SlaPolicy) (minutes : ℕ)
    → policy_of policies ticket ≡ some policy
    → policy.resolution_target_minutes ≡ some minutes
    → minutes * 60000 ≤ compute_active_ms (points_of (events_of read ticket.id)) none now
    → logged (sweep policies read now (ticket ∷ tickets) events).0 ticket.id sla_resolution_breached
      ≡ true
unfolding sweep check_ticket
sweep-breached_first policies read now ticket tickets events policy minutes tracked target late =
    let own = events_of read ticket.id in
    let answered = (check_clock events ticket.id (response_clock policy own now) now).0 in
    let recorded =
      check_clock-breached answered ticket.id (resolution_clock policy own now) now minutes target
        late in
    rw (sweep, tracked)
      ((sweep-SentOnce policies read now tickets (check_ticket events ticket policy own now).0).2
        ticket.id sla_resolution_breached recorded)

sweep-breached :
    (policies : List SlaPolicy) (read : List TicketEvent) (now : ℕ) (tickets : List Ticket)
    (events : List TicketEvent) (ticket : Ticket) (policy : SlaPolicy) (minutes : ℕ)
    → In ticket tickets
    → policy_of policies ticket ≡ some policy
    → policy.resolution_target_minutes ≡ some minutes
    → minutes * 60000 ≤ compute_active_ms (points_of (events_of read ticket.id)) none now
    → logged (sweep policies read now tickets events).0 ticket.id sla_resolution_breached ≡ true
unfolding sweep check_ticket
sweep-breached policies read now [] events ticket policy minutes m tracked target late = absurd m
sweep-breached policies read now (t ∷ tickets) events ticket policy minutes (inl e) tracked target
      late =
    rw e (
      sweep-breached_first policies read now t tickets events policy minutes (rw e at tracked)
        target (rw e at late))
sweep-breached policies read now (t ∷ tickets) events ticket policy minutes (inr m) tracked target
      late =
    elim (Option-cases (policy_of policies t)) [
      | inl untracked ↦
          rw (sweep, untracked)
            (sweep-breached policies read now tickets events ticket policy minutes m tracked target
              late)
      | inr (other_policy, other_tracked) ↦
          rw (sweep, other_tracked)
            (sweep-breached policies read now tickets _ ticket policy minutes m tracked target late)
    ]

-- A sweep records the breach of every open ticket that is past the target of its policy for a
-- resolution: after it, the log has the breach.
pub run-breached :
    (desk : Desk) (now : ℕ) (ticket : Ticket) (policy : SlaPolicy) (minutes : ℕ)
    → In ticket desk.tickets
    → is_final ticket.status ≡ false
    → policy_of desk.policies ticket ≡ some policy
    → policy.resolution_target_minutes ≡ some minutes
    → minutes * 60000 ≤ compute_active_ms (points_of (events_of desk.events ticket.id)) none now
    → logged (run desk now).0.events ticket.id sla_resolution_breached ≡ true
unfolding run
run-breached desk now ticket policy minutes m waiting tracked target late =
    sweep-breached desk.policies desk.events now
      (filter (λ (t : Ticket). not (is_final t.status)) desk.tickets) desk.events ticket policy
      minutes
      (In-filter_of (λ (t : Ticket). not (is_final t.status)) ticket desk.tickets m
        (rw waiting refl))
      tracked target late
