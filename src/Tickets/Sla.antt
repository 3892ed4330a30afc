-- ===== src/Tickets/Sla.antt =====
-- src/tickets/sla-elapsed.ts and src/tickets/tickets-sla-breach.scheduler.ts. The four fifths of a
-- target are exact in JavaScript's numbers: a target is a multiple of 60000. Whom an alert goes to is
-- no part of the model.
pub mod Timeline
pub mod Elapsed
pub mod Alerts
pub mod Breaches
use nola_hq_backend.Common.{
  ℕ, ◌+◌, ◌-◌, ◌*◌, Bool, true, false, not, ◌&&◌, ◌||◌, Option, none, some, List, [], ◌∷◌, ◌++◌,
  ◌==◌, nat_eq, string_eq, find, filter, any, if◌then◌else◌, ltb, leb, String,
}
use nola_hq_backend.Common.Sort.{sort}
use nola_hq_backend.Tickets.{
  Ticket, TicketStatus, client, TicketPendingReason, on_client, TicketEventAction, replied,
  sla_response_approaching, sla_response_breached, sla_resolution_approaching,
  sla_resolution_breached, EventMeta, visibility, outcome, no_meta, TicketEvent, SlaPolicy, Desk,
}
use nola_hq_backend.Tickets.Equality.{priority_eq, action_eq}
use nola_hq_backend.Tickets.Service.{is_final, is_pending}

pub record TicketStatusPoint : Type 0 where
  pub to_status : TicketStatus
  pub pending_reason : Option TicketPendingReason
  pub created_at : ℕ

abbrev pub by_created_at : TicketStatusPoint → TicketStatusPoint → Bool
by_created_at a b = ltb a.created_at b.created_at

abbrev pub is_client : Option TicketPendingReason → Bool
is_client none = true
is_client (some on_client) = true
is_client (some _) = false

abbrev pub client_paused : TicketStatusPoint → Bool
client_paused point = is_pending point.to_status && is_client point.pending_reason

-- `next ? next.createdAt : (stopAt ?? now)`
abbrev pub segment_end : List TicketStatusPoint → (stop_at : Option ℕ) → (now : ℕ) → ℕ
segment_end (point ∷ rest) stop_at now = point.created_at
segment_end [] none now = now
segment_end [] (some stop) now = stop

-- `stopAt && point.createdAt.getTime() >= stopAt.getTime()`, and `effectiveEnd`
abbrev pub is_stopped : Option ℕ → ℕ → Bool
is_stopped none at = false
is_stopped (some stop) at = leb stop at

abbrev pub effective_end : Option ℕ → ℕ → ℕ
effective_end none last = last
effective_end (some stop) last = if ltb stop last then stop else last

-- the loop over the sorted points
unfoldable pub active_from : List TicketStatusPoint → (stop_at : Option ℕ) → (now : ℕ) → ℕ
active_from [] stop_at now = 0
active_from (point ∷ rest) stop_at now =
    let others = active_from rest stop_at now in
    let last = effective_end stop_at (segment_end rest stop_at now) in
    let segment = if client_paused point then 0 else last - point.created_at in
    if is_stopped stop_at point.created_at then 0 else segment + others

-- `computeActiveMs`
unfoldable pub compute_active_ms : List TicketStatusPoint → (stop_at : Option ℕ) → (now : ℕ) → ℕ
unfolding active_from
compute_active_ms points stop_at now = active_from (sort by_created_at points) stop_at now

-- `e.meta?.pendingReason ?? null`
abbrev pub recorded_reason : EventMeta → Option TicketPendingReason
recorded_reason (outcome reason code notes) = reason
recorded_reason _ = none

abbrev pub points_of : List TicketEvent → List TicketStatusPoint
points_of [] = []
points_of (e ∷ events) = elim e.to_status [
  | none ↦ points_of events
  | some status ↦
      record {
        to_status = status;
        pending_reason = recorded_reason e.meta;
        created_at = e.created_at;
      }
      ∷ points_of events
]

abbrev pub to_client : EventMeta → Bool
to_client (visibility client) = true
to_client _ = false

-- `firstClientReply?.createdAt ?? null`
abbrev pub response_stopped_at : List TicketEvent → Option ℕ
response_stopped_at events =
    elim (find (λ (e : TicketEvent). e.action == replied && to_client e.meta) events) [
      | none ↦ none
      | some e ↦ some e.created_at
    ]

abbrev pub logged : List TicketEvent → ℕ → TicketEventAction → Bool
logged events id action = any (λ (e : TicketEvent). e.ticket_id == id && e.action == action) events

-- An alert that is sent: the ticket and the action.
abbrev pub Alert : Type 0
Alert = ℕ × TicketEventAction

abbrev pub system_event : ℕ → TicketEventAction → ℕ → TicketEvent
system_event id action now = record {
  ticket_id = id;
  actor = "system";
  action = action;
  from_status = none;
  to_status = none;
  reason = none;
  meta = no_meta;
  created_at = now;
}

-- `recordOnce`, which the partial unique index refuses the second time, and the `alert` after it
abbrev pub record_once : List TicketEvent → ℕ → TicketEventAction → ℕ → List TicketEvent
record_once events id action now =
    if logged events id action then events else events ++ system_event id action now ∷ []

abbrev pub alerts_once : List TicketEvent → ℕ → TicketEventAction → List Alert
alerts_once events id action = if logged events id action then [] else (id, action) ∷ []

pub record Clock : Type 0 where
  pub target_minutes : Option ℕ
  pub already_stopped : Bool
  pub elapsed_ms : ℕ
  pub approaching_action : TicketEventAction
  pub breached_action : TicketEventAction

-- the body of the loop over the clocks
unfoldable pub check_clock :
    List TicketEvent → ℕ → Clock → (now : ℕ) → List TicketEvent × List Alert
check_clock events id clock now = elim clock.target_minutes [
  | none ↦ (events, [])
  | some minutes ↦
      let target = minutes * 60000 in
      if leb target clock.elapsed_ms
      then (record_once events id clock.breached_action now, [])
      else if not clock.already_stopped && leb (target * 8) (clock.elapsed_ms * 10)
      then (
        record_once events id clock.approaching_action now,
        alerts_once events id clock.approaching_action,
      )
      else (events, [])
]

abbrev pub is_given : Option ℕ → Bool
is_given none = false
is_given (some a) = true

abbrev pub response_clock : SlaPolicy → List TicketEvent → ℕ → Clock
response_clock policy events now = record {
  target_minutes = policy.response_target_minutes;
  already_stopped = is_given (response_stopped_at events);
  elapsed_ms = compute_active_ms (points_of events) (response_stopped_at events) now;
  approaching_action = sla_response_approaching;
  breached_action = sla_response_breached;
}

abbrev pub resolution_clock : SlaPolicy → List TicketEvent → ℕ → Clock
resolution_clock policy events now = record {
  target_minutes = policy.resolution_target_minutes;
  already_stopped = false;
  elapsed_ms = compute_active_ms (points_of events) none now;
  approaching_action = sla_resolution_approaching;
  breached_action = sla_resolution_breached;
}

-- `checkTicket`: `events` is the table, `own` the ticket's events as they were read
unfoldable pub check_ticket :
    List TicketEvent
    → Ticket
    → SlaPolicy
    → (own : List TicketEvent) → (now : ℕ) → List TicketEvent × List Alert
unfolding check_clock
check_ticket events ticket policy own now =
    let (answered, first) = check_clock events ticket.id (response_clock policy own now) now in
    let (resolved, second) = check_clock answered ticket.id (resolution_clock policy own now) now in
    (resolved, first ++ second)

abbrev pub earlier : TicketEvent → TicketEvent → Bool
earlier a b = ltb a.created_at b.created_at

-- the ticket's events, in the order of their creation
abbrev pub events_of : List TicketEvent → ℕ → List TicketEvent
events_of events id = sort earlier (filter (λ (e : TicketEvent). e.ticket_id == id) events)

abbrev pub policy_of : List SlaPolicy → Ticket → Option SlaPolicy
policy_of policies ticket =
    find
      (λ (p : SlaPolicy).
        p.business_unit_id == ticket.business_unit_id && p.priority == ticket.priority)
      policies

-- the loop of `run` over the open tickets; `read` is the table as it was read
unfoldable pub sweep :
    (policies : List SlaPolicy)
    → (read : List TicketEvent) → (now : ℕ) → List Ticket
    → List TicketEvent
    → List TicketEvent × List Alert
unfolding check_ticket
sweep policies read now [] events = (events, [])
sweep policies read now (ticket ∷ tickets) events = elim (policy_of policies ticket) [
  | none ↦ sweep policies read now tickets events
  | some policy ↦
      let (checked, first) = check_ticket events ticket policy (events_of read ticket.id) now in
      let (last, others) = sweep policies read now tickets checked in (last, first ++ others)
]

-- `run`
unfoldable pub run : Desk → (now : ℕ) → Desk × List Alert
unfolding sweep
run desk now =
    let open_tickets = filter (λ (t : Ticket). not (is_final t.status)) desk.tickets in
    let (events, alerts) = sweep desk.policies desk.events now open_tickets desk.events in
    (record desk { events = events }, alerts)
