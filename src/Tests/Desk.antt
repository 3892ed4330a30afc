-- ===== src/Tests/Desk.antt =====
-- One unit with one ticket, which a member of the unit closes, and the sweeps of its clock.
use nola_hq_backend.Common.{
  All, ◌⊎◌, In, ℕ, ◌*◌, ◌≤◌, ◌≡◌, refl, true, false, none, some, List, [], ◌∷◌, String, ok, err,
  forbidden, In, inl, inr, arith, Unrepeated,
}
use nola_hq_backend.Common.Text.{after_prefix}
use nola_hq_backend.Common.Sort.{sort}
use nola_hq_backend.Units.{Directory, owner, has_hq_role, resolve, resolve_allowed_units}
use nola_hq_backend.Units.Scoped.{OfUnit, resolve_allowed_units-role}
use nola_hq_backend.Tickets.{
  Ticket, p1, opened, pending, closed, on_vendor, corrige, created, Desk, SlaPolicy,
  CreateTicketDto, AddReplyDto, internal, replied, visibility, outcome, status_changed,
  sla_resolution_approaching, sla_resolution_breached, no_meta,
}
use nola_hq_backend.Tickets.Filing.{
  create_ticket, new_ticket, event, assert_valid_assignee, resolve_product, save_ticket,
}
use nola_hq_backend.Tickets.Service.{set_status, add_reply}
use nola_hq_backend.Tickets.Steps.{Explained}
use nola_hq_backend.Tickets.Standing.{
  ended, next, filed, moved, answered, TicketSteps-AllExplained, IsClosed, TicketSteps-IsClosed,
}
use nola_hq_backend.Tickets.Sla.{
  TicketStatusPoint, by_created_at, compute_active_ms, logged, run, check_clock, points_of,
  events_of,
}
use nola_hq_backend.Tickets.Sla.Timeline.{count_ms, runs, point_at, clock_end}
use nola_hq_backend.Tickets.Sla.Elapsed.{compute_active_ms-count}
use nola_hq_backend.Tickets.Sla.Alerts.{sweeps, sweeps-Unrepeated}
use nola_hq_backend.Tickets.Sla.Breaches.{run-breached}

abbrev directory : Directory
directory = record {
  units = record { id = "u"; code = "khi-lab" } ∷ record { id = "v"; code = "vantelis-it" } ∷ [];
  cache = none;
}

abbrev roles : List String
roles = "hq:viewer" ∷ "hq:bu:khi-lab" ∷ []

not_owner : has_hq_role roles owner ≡ false
unfolding has_hq_role
not_owner = refl

sees_u : In "u" (resolve_allowed_units directory roles).1
unfolding resolve_allowed_units
sees_u = inl refl

resolve_allowed_units-role_example :
    (role : String) × (code : String) × In role roles
    × (after_prefix "hq:bu:" role ≡ some code)
    × OfUnit directory "u" code
resolve_allowed_units-role_example = resolve_allowed_units-role directory roles "u" not_owner sees_u

abbrev lower : String → String
lower s = s

abbrev decimal : ℕ → String
decimal n = "15"

abbrev policy : SlaPolicy
policy = record {
  id = "s";
  business_unit_id = "u";
  priority = p1;
  response_target_minutes = none;
  resolution_target_minutes = some 15;
}

abbrev desk : Desk
desk = record {
  tickets = [];
  events = [];
  products = [];
  team = "roy" ∷ [];
  policies = policy ∷ [];
  directory = directory;
}

abbrev dto : CreateTicketDto
dto = record {
  tenant = "t";
  subject = "Panne";
  title = none;
  body = "";
  contact = "c";
  priority = p1;
  status = none;
  assignee = "roy";
  category = none;
  source = none;
  product_id = none;
  business_unit_code = none;
  due_at = none;
  work_item_id = none;
}

abbrev ticket : Ticket
ticket = new_ticket dto 7 "u" "15 min" none 1000

abbrev one : Desk
one = record desk {
  tickets = ticket ∷ [];
  events = event ticket "system" created none (some opened) none no_meta 1000 ∷ [];
  directory = record directory { cache = some directory.units };
}

is_filed : create_ticket lower decimal desk dto none 7 1000 ≡ ok one
unfolding create_ticket assert_valid_assignee resolve resolve_product
is_filed = refl

abbrev closed_ticket : Ticket
closed_ticket = record ticket { status = closed; resolution_code = some corrige; updated_at = 2000 }

abbrev shut : Desk
shut = save_ticket one closed_ticket (
    event closed_ticket "unknown" status_changed (some opened) (some closed) (some "corrige")
      (outcome none (some corrige) none) 2000)

is_shut : set_status one 7 closed roles none none (some corrige) none 2000 ≡ ok shut
unfolding set_status resolve_allowed_units
is_shut = refl

-- A closed ticket takes no other status.
stays_shut : set_status shut 7 opened roles none none none none 3000 ≡ err forbidden
unfolding set_status resolve_allowed_units
stays_shut = refl

TicketSteps-AllExplained_example : All (λ (t : Ticket). Explained t ⊎ In t.id []) shut.tickets
TicketSteps-AllExplained_example =
    TicketSteps-AllExplained lower decimal desk shut
      (next (filed dto none 7 1000 is_filed)
        (next (moved 7 closed roles none none (some corrige) none 2000 is_shut) ended))
      tt

abbrev answer : AddReplyDto
answer = record { from = "roy"; text = "Vu"; t = none; visibility = none }

abbrev replied_ticket : Ticket
replied_ticket = record closed_ticket {
  replies = record { from = "roy"; t = "à l’instant"; text = "Vu"; visibility = internal } ∷ [];
  updated_at = 4000;
}

abbrev read_again : Desk
read_again =
    save_ticket shut replied_ticket
      (event replied_ticket "roy" replied none none none (visibility internal) 4000)

is_replied : add_reply shut 7 answer roles 4000 ≡ ok read_again
unfolding add_reply resolve_allowed_units
is_replied = refl

TicketSteps-IsClosed_example : IsClosed 7 (some corrige) none read_again
TicketSteps-IsClosed_example =
    TicketSteps-IsClosed lower decimal 7 (some corrige) none shut read_again
      (next (answered 7 answer roles 4000 is_replied) ended) (refl, (inr (refl, refl, refl), tt))

-- Opened at 0, waiting for the client from 10 to 30, then for a vendor.
abbrev timeline : List TicketStatusPoint
timeline =
    record { to_status = pending; pending_reason = none; created_at = 10 }
    ∷ record { to_status = opened; pending_reason = none; created_at = 0 }
    ∷ record { to_status = pending; pending_reason = some on_vendor; created_at = 30 }
    ∷ []

runs_for : compute_active_ms timeline (some 35) 99 ≡ 15
unfolding compute_active_ms sort
runs_for = refl

compute_active_ms-count_example :
    compute_active_ms timeline none 99
    ≡ count_ms
        (λ t. runs (point_at (sort by_created_at timeline) t))
        (clock_end (sort by_created_at timeline) none 99)
compute_active_ms-count_example = compute_active_ms-count timeline none 99

sweeps-Unrepeated_example :
    Unrepeated (sweeps one.events ((one, 800000) ∷ (one, 810000) ∷ (shut, 900000) ∷ [])).1
sweeps-Unrepeated_example =
    sweeps-Unrepeated one.events ((one, 800000) ∷ (one, 810000) ∷ (shut, 900000) ∷ [])

-- The second of two sweeps sends nothing.
sent_once :
    (sweeps one.events ((one, 800000) ∷ (one, 810000) ∷ [])).1
    ≡ (7, sla_resolution_approaching) ∷ []
unfolding run check_clock compute_active_ms sort
sent_once = refl

is_late : 15 * 60000 ≤ compute_active_ms (points_of (events_of one.events 7)) none 901000
unfolding compute_active_ms sort
is_late = omega arith

run-breached_example : logged (run one 901000).0.events 7 sla_resolution_breached ≡ true
run-breached_example = run-breached one 901000 ticket policy 15 (inl refl) refl refl refl is_late
