-- ===== src/Tickets/Service.antt =====
-- `addReply`, `setStatus`, `assign` and `update` of src/tickets/tickets.service.ts.
use nola_hq_backend.Common.{
  ℕ, Bool, true, false, ◌&&◌, Option, none, some, List, [], ◌∷◌, ◌++◌, ◌==◌, nat_eq, string_eq,
  option_eq, if◌then◌else◌, String, Result, ok, ◌>>=◌, ◌>>◌, throw_if, bad_request, forbidden,
}
use mathlib.Core.Option.{get_or}
use nola_hq_backend.Common.Text.{trim_or_null, slice_to}
use nola_hq_backend.Tickets.{
  Ticket, TicketStatus, pending, closed, resolved, TicketReply, internal, TicketPendingReason,
  TicketResolutionCode, corrige, contournement, comportement_attendu, non_reproductible,
  assistance_formation, doublon, transfere, sans_suite, status_changed, assigned, replied, updated,
  visibility, outcome, assignees, changes, Changes, Desk, AddReplyDto, UpdateTicketDto,
}
use nola_hq_backend.Tickets.Equality.{
  status_eq, priority_eq, category_eq, pending_eq, resolution_eq,
}
use nola_hq_backend.Tickets.Filing.{
  assert_valid_assignee, resolve_product, find_ticket, save_ticket, id_of, event,
}

-- `addReply`
unfoldable pub add_reply : Desk → ℕ → AddReplyDto → (roles : List String) → (now : ℕ) → Result Desk
unfolding find_ticket
add_reply desk id dto roles now = find_ticket desk id roles >>= λ (ticket : Ticket).
    let seen = get_or dto.visibility internal in
    let reply : TicketReply = record {
      from = dto.from;
      t = get_or dto.t "à l’instant";
      text = dto.text;
      visibility = seen;
    } in
    let saved : Ticket = record ticket {
      replies = ticket.replies ++ reply ∷ [];
      updated_at = now;
    } in
    ok (save_ticket desk saved (event saved dto.from replied none none none (visibility seen) now))

-- `status === 'resolved' || status === 'closed'`
abbrev pub is_final : TicketStatus → Bool
is_final resolved = true
is_final closed = true
is_final _ = false

abbrev pub is_pending : TicketStatus → Bool
is_pending pending = true
is_pending _ = false

abbrev pub needs_notes : TicketResolutionCode → Bool
needs_notes doublon = true
needs_notes transfere = true
needs_notes _ = false

abbrev pub or_kept {ℓ} : {A : Type ℓ} → Option A → Option A → Option A
or_kept none old = old
or_kept (some v) old = some v

-- `nextPendingReason`, `nextResolutionCode`, `nextResolutionNotes`
abbrev pub next_pending_reason :
    TicketStatus → Option TicketPendingReason → Option TicketPendingReason
next_pending_reason status asked = if is_pending status then asked else none

abbrev pub next_resolution_code :
    Ticket → TicketStatus → Option TicketResolutionCode → Option TicketResolutionCode
next_resolution_code ticket status asked =
    if is_final status then or_kept asked ticket.resolution_code else none

abbrev pub noted : Option String → Option String → Option String
noted none old = old
noted (some notes) old = trim_or_null (some notes)

abbrev pub next_resolution_notes : Ticket → TicketStatus → Option String → Option String
next_resolution_notes ticket status asked =
    if is_final status then noted asked ticket.resolution_notes else none

-- The refusals for a final status: no code, and a code that needs notes without them.
abbrev pub unexplained : Option TicketResolutionCode → Option String → Bool
unexplained none notes = true
unexplained (some code) notes =
    needs_notes code && elim (trim_or_null notes) [ none ↦ true | some n ↦ false ]

abbrev pub check_resolution :
    TicketStatus → Option TicketResolutionCode → Option String → Result (Unit {0})
check_resolution status code notes =
    throw_if (is_final status && unexplained code notes) bad_request

abbrev pub code_text : TicketResolutionCode → String
code_text corrige = "corrige"
code_text contournement = "contournement"
code_text comportement_attendu = "comportement_attendu"
code_text non_reproductible = "non_reproductible"
code_text assistance_formation = "assistance_formation"
code_text doublon = "doublon"
code_text transfere = "transfere"
code_text sans_suite = "sans_suite"

abbrev pub reason_of : Option TicketResolutionCode → Option String → Option String
reason_of code (some notes) = some (slice_to 240 notes)
reason_of none none = none
reason_of (some code) none = some (code_text code)

-- the comparison of the idempotent branch
abbrev pub same_outcome :
    Ticket
    → TicketStatus
    → Option TicketPendingReason
    → Option TicketResolutionCode
    → Option String
    → Bool
same_outcome ticket status reason code notes =
    ticket.status == status
    && ticket.pending_reason == reason
    && ticket.resolution_code == code
    && ticket.resolution_notes == notes

-- `setStatus`
unfoldable pub set_status :
    Desk
    → ℕ
    → TicketStatus
    → (roles : List String) → (actor : Option String) → Option TicketPendingReason
    → Option TicketResolutionCode
    → Option String
    → (now : ℕ) → Result Desk
unfolding find_ticket
set_status desk id status roles actor pending_reason resolution_code resolution_notes now =
    find_ticket desk id roles >>= λ (ticket : Ticket).
    let reason = next_pending_reason status pending_reason in
    let code = next_resolution_code ticket status resolution_code in
    let notes = next_resolution_notes ticket status resolution_notes in
    let saved : Ticket = record ticket {
      status = status;
      pending_reason = reason;
      resolution_code = code;
      resolution_notes = notes;
      updated_at = now;
    } in
    let changed =
      throw_if (ticket.status == closed) forbidden
      >> ok (
          save_ticket desk saved (
            event saved (get_or actor "unknown") status_changed (some ticket.status) (some status)
              (reason_of code notes) (outcome reason code notes) now)) in
    check_resolution status code notes
    >> (if same_outcome ticket status reason code notes then ok desk else changed)

-- `assign`
unfoldable pub assign_ticket :
    Desk
    → ℕ
    → (assignee : String) → (roles : List String) → (actor : Option String) → (now : ℕ)
    → Result Desk
unfolding find_ticket
assign_ticket desk id assignee roles actor now = find_ticket desk id roles >>= λ (ticket : Ticket).
    assert_valid_assignee desk.team assignee
    >> (let saved : Ticket = record ticket {
      assignee = assignee;
      assigned = assignee;
      updated_at = now;
    } in
        ok (
          save_ticket desk saved (
            event saved (get_or actor "unknown") assigned none none none
              (assignees ticket.assignee assignee) now)))

-- A change from one value to another, `none` where the request leaves the field or repeats it.
abbrev pub change {ℓ} : {A : Type ℓ} → (same : A → A → Bool) → Option A → A → Option (A × A)
change same none old = none
change same (some asked) old = if same asked old then none else some (old, asked)

abbrev pub value_after {ℓ} : {A : Type ℓ} → Option (A × A) → A → A
value_after none old = old
value_after (some (from, to)) old = to

-- the product that a request asks for
abbrev pub asked_product :
    (lower : String → String)
    → Desk
    → Ticket
    → Option (Option String)
    → Result (Option (Option String))
asked_product lower desk ticket none = ok none
asked_product lower desk ticket (some none) = ok (some none)
asked_product lower desk ticket (some (some id)) =
    resolve_product lower desk.products ticket.business_unit_id (some id) none >>= λ product.
    ok (some (id_of product))

abbrev pub no_changes : Changes → Bool
no_changes made =
    is_none made.priority
    && is_none made.category
    && is_none made.product_id
    && is_none made.work_item_id
  where
    is_none : {A : Type 0} → Option A → Bool
    is_none none = true
    is_none (some a) = false

abbrev pub changes_of : Ticket → UpdateTicketDto → (product : Option (Option String)) → Changes
changes_of ticket dto product = record {
  priority = change (λ a b. a == b) dto.priority ticket.priority;
  category = change (λ a b. a == b) dto.category ticket.category;
  product_id = change (λ a b. a == b) product ticket.product_id;
  work_item_id = change (λ a b. a == b) dto.work_item_id ticket.work_item_id;
}

abbrev pub changed_ticket : Ticket → Changes → ℕ → Ticket
changed_ticket ticket made now = record ticket {
  priority = value_after made.priority ticket.priority;
  category = value_after made.category ticket.category;
  product_id = value_after made.product_id ticket.product_id;
  work_item_id = value_after made.work_item_id ticket.work_item_id;
  updated_at = now;
}

-- `update`
unfoldable pub update_ticket :
    (lower : String → String)
    → Desk
    → ℕ
    → UpdateTicketDto
    → (roles : List String) → (actor : Option String) → (now : ℕ) → Result Desk
unfolding find_ticket
update_ticket lower desk id dto roles actor now = find_ticket desk id roles >>= λ (ticket : Ticket).
    asked_product lower desk ticket dto.product_id >>= λ product.
    let made = changes_of ticket dto product in
    let saved = changed_ticket ticket made now in
    ok (
      if no_changes made
      then desk
      else (save_ticket desk saved
          (event saved (get_or actor "unknown") updated none none none (changes made) now)))
