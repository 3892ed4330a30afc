-- ===== src/Tickets/Steps.antt =====
-- The steps of the desk, and the row that each of them writes.
use nola_hq_backend.Common.{
  ℕ, ◌≡◌, refl, sym, ap, Bool, false, Option, none, List, [], ◌∷◌, ◌++◌, map, ◌==◌, nat_eq,
  contains, any, if◌then◌else◌, String, ok, throw_if, not_found, forbidden, internal_error, ◌⊎◌,
  inl, inr, In, find_sound, Bool-cases, >>=-eq-ok, >>-eq-ok, ◌&&◌, string_eq, arith,
}
use mathlib.Core.Option.{get_or}
use nola_hq_backend.Common.Rows.{ok-same, or_throw-ok}
use nola_hq_backend.Units.{resolve, resolve_allowed_units}
use nola_hq_backend.Tickets.{
  Ticket, TicketStatus, opened, pending, closed, resolved, TicketPendingReason,
  TicketResolutionCode, Desk, CreateTicketDto, AddReplyDto, UpdateTicketDto,
}
use nola_hq_backend.Tickets.Equality.{status_eq}
use nola_hq_backend.Tickets.Filing.{
  create_ticket, find_ticket, derive_sla, new_ticket, assert_valid_assignee, resolve_product,
}
use nola_hq_backend.Tickets.Service.{
  add_reply, set_status, assign_ticket, update_ticket, is_final, unexplained, next_pending_reason,
  next_resolution_code, next_resolution_notes, check_resolution, same_outcome, changes_of,
  changed_ticket, asked_product, no_changes,
}

-- A final status is explained, another has nothing to explain, and only a pending ticket waits for
-- somebody.
abbrev pub ExplainedAs :
    TicketStatus → Option TicketPendingReason → Option TicketResolutionCode → Option String → Type 0
ExplainedAs opened reason code notes = (reason ≡ none) × (code ≡ none) × (notes ≡ none)
ExplainedAs pending reason code notes = (code ≡ none) × (notes ≡ none)
ExplainedAs closed reason code notes = (reason ≡ none) × (unexplained code notes ≡ false)
ExplainedAs resolved reason code notes = (reason ≡ none) × (unexplained code notes ≡ false)

abbrev pub Explained : Ticket → Type 0
Explained t = ExplainedAs t.status t.pending_reason t.resolution_code t.resolution_notes

-- The same answer to how a ticket stands.
abbrev pub SameStanding : Ticket → Ticket → Type 0
SameStanding t u =
    (u.status ≡ t.status)
    × (u.pending_reason ≡ t.pending_reason)
    × (u.resolution_code ≡ t.resolution_code)
    × (u.resolution_notes ≡ t.resolution_notes)

-- A row that is written in place of a ticket.
abbrev pub Revises : Ticket → Ticket → Type 0
Revises t u = (u.id ≡ t.id) × (SameStanding t u ⊎ (((t.status == closed) ≡ false) × Explained u))

abbrev pub replaced : Ticket → List Ticket → List Ticket
replaced row rows = map (λ (t : Ticket). if t.id == row.id then row else t) rows

abbrev pub has_id : ℕ → List Ticket → Bool
has_id id rows = any (λ (t : Ticket). t.id == id) rows

-- The tickets after a step: as they were, with one of them revised, or with a
-- new one, which is explained where its id is not among those given.
abbrev pub Written : List ℕ → Desk → Desk → Type 0
Written shut d d' =
    (d'.tickets ≡ d.tickets)
    ⊎ (((t : Ticket) × (u : Ticket) × In t d.tickets
          × Revises t u
          × (d'.tickets ≡ replaced u d.tickets))
        ⊎ ((u : Ticket) × (has_id u.id d.tickets ≡ false)
            × (Explained u ⊎ In u.id shut)
            × (d'.tickets ≡ d.tickets ++ u ∷ [])))

found_ticket :
    (d : Desk) (id : ℕ) (roles : List String) (t : Ticket)
    → find_ticket d id roles ≡ ok t
    → In t d.tickets
unfolding find_ticket
found_ticket d id roles t h =
    (find_sound
      (λ (u : Ticket).
        u.id == id && contains (resolve_allowed_units d.directory roles).1 u.business_unit_id)
      d.tickets (or_throw-ok _ not_found h)).0

-- The id of a ticket that is created resolved or closed, which nothing explains.
abbrev pub born_final : TicketStatus → ℕ → List ℕ
born_final status id = if is_final status then id ∷ [] else []

new-ExplainedAs :
    (status : TicketStatus) (id : ℕ)
    → ExplainedAs status none none none ⊎ In id (born_final status id)
new-ExplainedAs opened id = inl (refl, refl, refl)
new-ExplainedAs pending id = inl (refl, refl)
new-ExplainedAs closed id = inr (inl refl)
new-ExplainedAs resolved id = inr (inl refl)

pub create_ticket-Written :
    (lower : String → String) (decimal : ℕ → String) (d d' : Desk) (dto : CreateTicketDto)
    (actor : Option String) (new_id now : ℕ)
    → create_ticket lower decimal d dto actor new_id now ≡ ok d'
    → Written (born_final (get_or dto.status opened) new_id) d d'
unfolding create_ticket
create_ticket-Written lower decimal d d' dto actor new_id now h =
    let (valid, h1) = >>-eq-ok (assert_valid_assignee d.team dto.assignee) _ h in
    let ((directory, unit), resolved_unit, h2) =
      >>=-eq-ok (resolve d.directory (get_or dto.business_unit_code "khi-lab")) _ h1 in
    let (product, chosen, h3) =
      >>=-eq-ok (resolve_product lower d.products unit dto.product_id dto.source) _ h2 in
    let (fresh, stored) =
      >>-eq-ok (throw_if (any (λ (t : Ticket). t.id == new_id) d.tickets) internal_error) _ h3 in
    inr (
      inr (
        new_ticket dto new_id unit (derive_sla decimal d.policies unit dto.priority) product now,
        ground arith,
        new-ExplainedAs (get_or dto.status opened) new_id,
        ap (λ (x : Desk). x.tickets) (sym (ok-same stored)),
      ))

pub add_reply-Written :
    (d d' : Desk) (id : ℕ) (dto : AddReplyDto) (roles : List String) (now : ℕ)
    → add_reply d id dto roles now ≡ ok d'
    → Written [] d d'
unfolding add_reply
add_reply-Written d d' id dto roles now h =
    let (t, found, stored) = >>=-eq-ok (find_ticket d id roles) _ h in
    inr (
      inl (
        t,
        _,
        found_ticket d id roles t found,
        (refl, inl (refl, refl, refl, refl)),
        ap (λ (x : Desk). x.tickets) (sym (ok-same stored)),
      ))

pub assign_ticket-Written :
    (d d' : Desk) (id : ℕ) (assignee : String) (roles : List String) (actor : Option String)
    (now : ℕ)
    → assign_ticket d id assignee roles actor now ≡ ok d'
    → Written [] d d'
unfolding assign_ticket
assign_ticket-Written d d' id assignee roles actor now h =
    let (t, found, h1) = >>=-eq-ok (find_ticket d id roles) _ h in
    let (valid, stored) = >>-eq-ok (assert_valid_assignee d.team assignee) _ h1 in
    inr (
      inl (
        t,
        _,
        found_ticket d id roles t found,
        (refl, inl (refl, refl, refl, refl)),
        ap (λ (x : Desk). x.tickets) (sym (ok-same stored)),
      ))

pub update_ticket-Written :
    (lower : String → String) (d d' : Desk) (id : ℕ) (dto : UpdateTicketDto) (roles : List String)
    (actor : Option String) (now : ℕ)
    → update_ticket lower d id dto roles actor now ≡ ok d'
    → Written [] d d'
unfolding update_ticket
update_ticket-Written lower d d' id dto roles actor now h =
    let (t, found, h1) = >>=-eq-ok (find_ticket d id roles) _ h in
    let (product, asked, stored) = >>=-eq-ok (asked_product lower d t dto.product_id) _ h1 in
    elim (Bool-cases (no_changes (changes_of t dto product))) [
      | inl none_made ↦ inl (ap (λ (x : Desk). x.tickets) (sym (ok-same (rw none_made at stored))))
      | inr made ↦ inr (
          inl (
            t,
            changed_ticket t (changes_of t dto product) now,
            found_ticket d id roles t found,
            (refl, inl (refl, refl, refl, refl)),
            ap (λ (x : Desk). x.tickets) (sym (ok-same (rw made at stored))),
          ))
    ]

transition-Explained :
    (t : Ticket) (status : TicketStatus) (reason : Option TicketPendingReason)
    (code : Option TicketResolutionCode) (notes : Option String) (now : ℕ)
    → check_resolution status
        (next_resolution_code t status code)
        (next_resolution_notes t status notes)
      ≡ ok tt
    → Explained (record t {
      status = status;
      pending_reason = next_pending_reason status reason;
      resolution_code = next_resolution_code t status code;
      resolution_notes = next_resolution_notes t status notes;
      updated_at = now;
    })
transition-Explained t opened reason code notes now passed = (refl, refl, refl)
transition-Explained t pending reason code notes now passed = (refl, refl)
transition-Explained t closed reason code notes now passed = (refl, ground arith)
transition-Explained t resolved reason code notes now passed = (refl, ground arith)

pub set_status-Written :
    (d d' : Desk) (id : ℕ) (status : TicketStatus) (roles : List String) (actor : Option String)
    (reason : Option TicketPendingReason) (code : Option TicketResolutionCode)
    (notes : Option String) (now : ℕ)
    → set_status d id status roles actor reason code notes now ≡ ok d'
    → Written [] d d'
unfolding set_status
set_status-Written d d' id status roles actor reason code notes now h =
    let (t, found, h1) = >>=-eq-ok (find_ticket d id roles) _ h in
    let (explained, h2) =
      >>-eq-ok
        (check_resolution status (next_resolution_code t status code)
          (next_resolution_notes t status notes))
        _ h1 in
    elim (Bool-cases (
      same_outcome t status (next_pending_reason status reason) (next_resolution_code t status code)
        (next_resolution_notes t status notes))) [
          | inl same ↦ inl (ap (λ (x : Desk). x.tickets) (sym (ok-same (rw same at h2))))
          | inr other ↦
              let (free, stored) =
                >>-eq-ok (throw_if (t.status == closed) forbidden) _ (rw other at h2) in
              inr (
                inl (
                  t,
                  _,
                  found_ticket d id roles t found,
                  (
                    refl,
                    inr (
                      ground arith,
                      transition-Explained t status reason code notes now explained,
                    ),
                  ),
                  ap (λ (x : Desk). x.tickets) (sym (ok-same stored)),
                ))
        ]
