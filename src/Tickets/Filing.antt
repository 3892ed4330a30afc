-- ===== src/Tickets/Filing.antt =====
-- `findOne` and `create` of src/tickets/tickets.service.ts. The id of a new ticket and the time are
-- arguments; so are JavaScript's lower case and decimal numerals. An id is the
-- primary key. The notices that are sent are no state of the program.
use nola_hq_backend.Common.{
  ℕ, ◌/◌, ◌%◌, not, ◌&&◌, Option, none, some, List, [], ◌∷◌, ◌++◌, map, ◌==◌, nat_eq, string_eq,
  option_eq, find, contains, any, internal_error, filter, if◌then◌else◌, ltb, String, Result, ok,
  ◌>>=◌, ◌>>◌, throw_if, or_throw, not_found, bad_request,
}
use Prim.Native.String.{◌++◌ as str_append}
use mathlib.Core.Option.{get_or}
use nola_hq_backend.Common.Text.{trim}
use nola_hq_backend.WorkItems.Service.Filing.{truthy}
use nola_hq_backend.Units.{Directory, resolve, resolve_allowed_units}
use nola_hq_backend.Tickets.{
  Ticket, TicketStatus, opened, TicketPriority, TicketEventAction, created, TicketEvent, EventMeta,
  no_meta, Product, SlaPolicy, Desk, CreateTicketDto,
}
use nola_hq_backend.Tickets.Equality.{
  status_eq, priority_eq, category_eq, pending_eq, resolution_eq,
}

-- `formatSlaMinutes`
abbrev pub format_sla_minutes : (decimal : ℕ → String) → ℕ → String
format_sla_minutes decimal minutes =
    if ltb minutes 60
    then str_append (decimal minutes) " min"
    else if minutes % 60 == 0
    then str_append (decimal (minutes / 60)) "h"
    else str_append (decimal (minutes / 60)) (str_append "h" (decimal (minutes % 60)))

-- `deriveSla`
unfoldable pub derive_sla :
    (decimal : ℕ → String) → List SlaPolicy → String → TicketPriority → String
derive_sla decimal policies business_unit_id priority =
    elim (find (λ (p : SlaPolicy). p.business_unit_id == business_unit_id && p.priority == priority)
      policies) [
        | none ↦ ""
        | some policy ↦ elim policy.resolution_target_minutes [
          | none ↦ ""
          | some minutes ↦ if minutes == 0 then "" else format_sla_minutes decimal minutes
        ]
      ]

-- `assertValidAssignee`
unfoldable pub assert_valid_assignee : List String → String → Result (Unit {0})
assert_valid_assignee team assignee =
    throw_if (not (assignee == "unassigned") && not (contains team assignee)) bad_request

-- `resolveProduct`, for a product that is named
abbrev pub named_product : List Product → String → String → Result (Option Product)
named_product products business_unit_id product_id =
    or_throw (find (λ (p : Product). p.id == product_id) products) bad_request
    >>= λ (product : Product).
        throw_if (not (product.business_unit_id == business_unit_id)) bad_request
        >> ok (some product)

-- the product of a source: by its code, or by an alias
abbrev pub with_source : (lower : String → String) → List Product → String → Option Product
with_source lower products source = elim (find (λ (p : Product). p.code == source) products) [
  | none ↦ find (λ (p : Product). contains (map lower p.source_aliases) source) products
  | some product ↦ some product
]

abbrev pub own_product : Option Product → String → Option Product
own_product none business_unit_id = none
own_product (some product) business_unit_id =
    if product.business_unit_id == business_unit_id then some product else none

-- `resolveProduct`
unfoldable pub resolve_product :
    (lower : String → String)
    → List Product
    → String
    → (product_id source : Option String) → Result (Option Product)
resolve_product lower products business_unit_id product_id source = elim (truthy product_id) [
  | some id ↦ named_product products business_unit_id id
  | none ↦ elim (truthy source) [
    | none ↦ ok none
    | some s ↦ ok (own_product (with_source lower products (lower (trim s))) business_unit_id)
  ]
]

-- `findOne`
unfoldable pub find_ticket : Desk → ℕ → List String → Result Ticket
find_ticket desk id roles =
    or_throw
      (find
        (λ (t : Ticket).
          t.id == id && contains (resolve_allowed_units desk.directory roles).1 t.business_unit_id)
        desk.tickets)
      not_found

-- the tickets that `list` and `summary` read
unfoldable pub visible_tickets : Desk → List String → List Ticket
visible_tickets desk roles =
    filter
      (λ (t : Ticket). contains (resolve_allowed_units desk.directory roles).1 t.business_unit_id)
      desk.tickets

-- `repo.save` of a row, and `record`
abbrev pub save_ticket : Desk → Ticket → TicketEvent → Desk
save_ticket desk ticket event = record desk {
  tickets = map (λ (t : Ticket). if t.id == ticket.id then ticket else t) desk.tickets;
  events = desk.events ++ event ∷ [];
}

abbrev pub id_of : Option Product → Option String
id_of none = none
id_of (some product) = some product.id

abbrev pub new_ticket :
    CreateTicketDto
    → (new_id : ℕ) → (business_unit_id sla : String) → Option Product
    → (now : ℕ) → Ticket
new_ticket dto new_id business_unit_id sla product now = record {
  id = new_id;
  tenant = dto.tenant;
  business_unit_id = business_unit_id;
  product_id = id_of product;
  subject = dto.subject;
  title = get_or dto.title dto.subject;
  body = dto.body;
  contact = dto.contact;
  priority = dto.priority;
  status = get_or dto.status opened;
  pending_reason = none;
  resolution_code = none;
  resolution_notes = none;
  assignee = dto.assignee;
  assigned = dto.assignee;
  sla = sla;
  category = dto.category;
  source = dto.source;
  due_at = dto.due_at;
  work_item_id = dto.work_item_id;
  replies = [];
  created_at = now;
  updated_at = now;
}

abbrev pub event :
    Ticket
    → String
    → TicketEventAction
    → (from_status to_status : Option TicketStatus) → (reason : Option String) → EventMeta
    → ℕ
    → TicketEvent
event ticket actor action from_status to_status reason meta now = record {
  ticket_id = ticket.id;
  actor = actor;
  action = action;
  from_status = from_status;
  to_status = to_status;
  reason = reason;
  meta = meta;
  created_at = now;
}

-- `create`
unfoldable pub create_ticket :
    (lower : String → String)
    → (decimal : ℕ → String) → Desk
    → CreateTicketDto
    → (actor : Option String) → (new_id now : ℕ) → Result Desk
unfolding derive_sla
create_ticket lower decimal desk dto actor new_id now =
    assert_valid_assignee desk.team dto.assignee
    >> (resolve desk.directory (get_or dto.business_unit_code "khi-lab")
        >>= λ ((directory, unit) : Directory × String).
            resolve_product lower desk.products unit dto.product_id dto.source >>= λ product.
            let ticket =
              new_ticket dto new_id unit (derive_sla decimal desk.policies unit dto.priority)
                product now in
            throw_if (any (λ (t : Ticket). t.id == new_id) desk.tickets) internal_error
            >> ok (record desk {
              tickets = desk.tickets ++ ticket ∷ [];
              events =
                  desk.events
                  ++ event ticket (get_or actor "system") created none (some ticket.status) none
                      no_meta now
                    ∷ [];
              directory = directory;
            }))
