-- ===== src/Tickets/Standing.antt =====
-- Tickets through any run of the operations: what a final status needs, and what a closed ticket
-- keeps.
use nola_hq_backend.Common.{
  ℕ, ◌≡◌, refl, ◌∙◌, true, false, ◌||◌, Option, List, [], ◌∷◌, ◌==◌, nat_eq, String, ok, ◌⊎◌, inl,
  inr, All, All-In, In, In-append_left, Bool-cases, beq→eq, arith, ◌++◌,
}
use mathlib.Core.Option.{get_or}
use nola_hq_backend.Common.Excepted.{ButFor, All-more, All-without, carried, All-chained, All-only}
use nola_hq_backend.Common.Rows.{All-replaced, All-added}
use nola_hq_backend.Units.{Directory}
use nola_hq_backend.Tickets.{
  Ticket, TicketStatus, opened, closed, TicketPendingReason, TicketResolutionCode, Desk,
  CreateTicketDto, AddReplyDto, UpdateTicketDto,
}
use nola_hq_backend.Tickets.Equality.{status_eq}
use nola_hq_backend.Tickets.Filing.{create_ticket}
use nola_hq_backend.Tickets.Service.{add_reply, set_status, assign_ticket, update_ticket}
use nola_hq_backend.Tickets.Steps.{
  Explained, born_final, SameStanding, Revises, Written, replaced, has_id, create_ticket-Written,
  add_reply-Written, assign_ticket-Written, update_ticket-Written, set_status-Written,
}

abbrev pub AllExplained : Desk → Type 0
AllExplained d = All Explained d.tickets

-- The tickets with an id are closed, with a code and notes.
abbrev pub ClosedRow : ℕ → Option TicketResolutionCode → Option String → Ticket → Type 0
ClosedRow id code notes t =
    ((t.id == id) ≡ false)
    ⊎ ((t.status ≡ closed) × (t.resolution_code ≡ code) × (t.resolution_notes ≡ notes))

abbrev pub IsClosed : ℕ → Option TicketResolutionCode → Option String → Desk → Type 0
IsClosed id code notes d = (has_id id d.tickets ≡ true) × All (ClosedRow id code notes) d.tickets

SameStanding-Explained : (t u : Ticket) → SameStanding t u → Explained t → Explained u
SameStanding-Explained t u (status, reason, code, notes) e = rw (status, reason, code, notes) e

-- Explained, or one of the tickets with these ids.
abbrev pub ExplainedOr : List ℕ → Ticket → Type 0
ExplainedOr ids = ButFor Explained (λ (t : Ticket). t.id) ids

abbrev ExplainedBut : List ℕ → Desk → Type 0
ExplainedBut ids d = All (ExplainedOr ids) d.tickets

Written-ExplainedBut :
    (d d' : Desk) (shut ids : List ℕ)
    → Written shut d d'
    → ExplainedBut ids d
    → ExplainedBut (shut ++ ids) d'
Written-ExplainedBut d d' shut ids w old = go w (All-more Explained id_of shut ids d.tickets old)
  where
    id_of : Ticket → ℕ
    id_of t = t.id

    P : Ticket → Type 0
    P = ExplainedOr (shut ++ ids)

    put : (u : Ticket) → P u → All P d.tickets → All P (replaced u d.tickets)
    put u new all = All-replaced P (λ (x : Ticket). x.id == u.id) u d.tickets new all

    go : Written shut d d' → All P d.tickets → All P d'.tickets
    go (inl same) all = rw same all
    go (inr (inl (t, u, m, (own, inl standing), e))) all = rw e (
        put u
          (carried Explained id_of (shut ++ ids) t u own (SameStanding-Explained t u standing)
            (All-In P d.tickets all t m))
          all)
    go (inr (inl (t, u, m, (own, inr (free, new)), e))) all = rw e (put u (inl new) all)
    go (inr (inr (u, fresh, inl new, e))) all = rw e (All-added P d.tickets u all (inl new))
    go (inr (inr (u, fresh, inr known, e))) all =
        rw e (All-added P d.tickets u all (inr (In-append_left u.id shut ids known)))

has_id-replaced :
    (id : ℕ) (u : Ticket) (rows : List Ticket)
    → has_id id rows ≡ true
    → has_id id (replaced u rows) ≡ true
has_id-replaced id u [] h = h
has_id-replaced id u (t ∷ rows) h = elim (Bool-cases (t.id == u.id)) [
  | inl hit ↦
      let same = beq→eq t.id u.id hit in
      let h' : ((u.id == id) || has_id id rows) ≡ true = rw same at h in
      rw hit (ground (arith, has_id-replaced id u rows))
  | inr miss ↦ rw miss (ground (arith, has_id-replaced id u rows))
]

has_id-added :
    (id : ℕ) (u : Ticket) (rows : List Ticket)
    → has_id id rows ≡ true
    → has_id id (rows ++ u ∷ []) ≡ true
has_id-added id u [] h = cc
has_id-added id u (t ∷ rows) h = ground (arith, has_id-added id u rows)

revised-ClosedRow :
    (id : ℕ) (code : Option TicketResolutionCode) (notes : Option String) (t u : Ticket)
    → Revises t u
    → ClosedRow id code notes t
    → ClosedRow id code notes u
revised-ClosedRow id code notes t u (own, how) (inl apart) = inl (rw own apart)
revised-ClosedRow id code notes t u (own, inl (status, reason, c, n))
      (inr (shut, code_row, notes_row)) =
    inr (status ∙ shut, c ∙ code_row, n ∙ notes_row)
revised-ClosedRow id code notes t u (own, inr (free, explained)) (inr (shut, code_row, notes_row)) =
    let is_shut : (t.status == closed) ≡ true = rw shut refl in absurd (cc (free, is_shut))

new-apart :
    (id new_id : ℕ) (rows : List Ticket)
    → has_id new_id rows ≡ false
    → has_id id rows ≡ true
    → (new_id == id) ≡ false
new-apart id new_id rows fresh there = elim (Bool-cases (new_id == id)) [
  | inr apart ↦ apart
  | inl same ↦ let e = beq→eq new_id id same in absurd (cc (fresh, there, e))
]

step-IsClosed :
    (id : ℕ) (code : Option TicketResolutionCode) (notes : Option String) (d d' : Desk)
    (born : List ℕ)
    → Written born d d'
    → IsClosed id code notes d
    → IsClosed id code notes d'
step-IsClosed id code notes d d' born (inl same) all = rw same all
step-IsClosed id code notes d d' born (inr (inl (t, u, m, revises, e))) (there, rows) = rw e (
  has_id-replaced id u d.tickets there,
  All-replaced (ClosedRow id code notes) (λ (x : Ticket). x.id == u.id) u d.tickets
      (revised-ClosedRow id code notes t u revises
        (All-In (ClosedRow id code notes) d.tickets rows t m))
      rows,
)
step-IsClosed id code notes d d' born (inr (inr (u, fresh, new, e))) (there, rows) = rw e (
  has_id-added id u d.tickets there,
  All-added (ClosedRow id code notes) d.tickets u rows
      (inl (new-apart id u.id d.tickets fresh there)),
)

module _ (lower : String → String) (decimal : ℕ → String) where
  -- One accepted operation on the desk.
  pub data TicketStep : Desk → Desk → Type 0 where
    filed :
        {d d' : Desk} (dto : CreateTicketDto) (actor : Option String) (new_id now : ℕ)
        → create_ticket lower decimal d dto actor new_id now ≡ ok d'
        → TicketStep d d'
    answered :
        {d d' : Desk} (id : ℕ) (dto : AddReplyDto) (roles : List String) (now : ℕ)
        → add_reply d id dto roles now ≡ ok d'
        → TicketStep d d'
    moved :
        {d d' : Desk} (id : ℕ) (status : TicketStatus) (roles : List String) (actor : Option String)
        (reason : Option TicketPendingReason) (code : Option TicketResolutionCode)
        (notes : Option String) (now : ℕ)
        → set_status d id status roles actor reason code notes now ≡ ok d'
        → TicketStep d d'
    given :
        {d d' : Desk} (id : ℕ) (assignee : String) (roles : List String) (actor : Option String)
        (now : ℕ)
        → assign_ticket d id assignee roles actor now ≡ ok d'
        → TicketStep d d'
    edited :
        {d d' : Desk} (id : ℕ) (dto : UpdateTicketDto) (roles : List String) (actor : Option String)
        (now : ℕ)
        → update_ticket lower d id dto roles actor now ≡ ok d'
        → TicketStep d d'
    -- the table of units, or the copy that the resolver keeps, is another one
    relisted :
        {d : Desk} (directory : Directory) → TicketStep d (record d { directory = directory })

  pub data TicketSteps : Desk → Desk → Type 0 where
    ended : {d : Desk} → TicketSteps d d
    next : {d d' d'' : Desk} → TicketStep d d' → TicketSteps d' d'' → TicketSteps d d''

  -- The ids of the tickets that are created resolved or closed.
  abbrev pub shut_at_birth : {d d' : Desk} → TicketStep d d' → List ℕ
  shut_at_birth (filed dto actor new_id now h) = born_final (get_or dto.status opened) new_id
  shut_at_birth _ = []

  abbrev pub all_shut_at_birth : {d d' : Desk} → TicketSteps d d' → List ℕ
  all_shut_at_birth ended = []
  all_shut_at_birth (next s rest) = all_shut_at_birth rest ++ shut_at_birth s

  step-Written : (d d' : Desk) (s : TicketStep d d') → Written (shut_at_birth s) d d'
  step-Written d d' (filed dto actor new_id now h) =
      create_ticket-Written lower decimal d d' dto actor new_id now h
  step-Written d d' (answered id dto roles now h) = add_reply-Written d d' id dto roles now h
  step-Written d d' (moved id status roles actor reason code notes now h) =
      set_status-Written d d' id status roles actor reason code notes now h
  step-Written d d' (given id assignee roles actor now h) =
      assign_ticket-Written d d' id assignee roles actor now h
  step-Written d d' (edited id dto roles actor now h) =
      update_ticket-Written lower d d' id dto roles actor now h
  step-Written d d' (relisted directory) = inl refl

  TicketSteps-ExplainedBut :
      (d d' : Desk) (ids : List ℕ) (s : TicketSteps d d')
      → ExplainedBut ids d
      → ExplainedBut (all_shut_at_birth s ++ ids) d'
  TicketSteps-ExplainedBut d d' ids ended all = all
  TicketSteps-ExplainedBut d d' ids (next {d' = middle} s rest) all =
      All-chained Explained (λ (t : Ticket). t.id) (all_shut_at_birth rest) (shut_at_birth s) ids
        d'.tickets
        (TicketSteps-ExplainedBut middle d' (shut_at_birth s ++ ids) rest
          (Written-ExplainedBut d middle (shut_at_birth s) ids (step-Written d middle s) all))

  -- Whatever is done, every ticket stays explained if all are at the start, but for those that were
  -- created resolved or closed: a resolved or closed one has a resolution code, with notes where the
  -- code needs them, another has neither, and only a pending one has a reason for waiting.
  pub TicketSteps-AllExplained :
      (d d' : Desk) (s : TicketSteps d d')
      → AllExplained d
      → All (λ (t : Ticket). Explained t ⊎ In t.id (all_shut_at_birth s)) d'.tickets
  TicketSteps-AllExplained d d' s all =
      let key = λ (t : Ticket). t.id in
      All-only Explained key (all_shut_at_birth s) d'.tickets
        (TicketSteps-ExplainedBut d d' [] s (All-without Explained key d.tickets all))

  -- A closed ticket stays in the table, closed, with its resolution code and notes, whatever is
  -- done.
  pub TicketSteps-IsClosed :
      (id : ℕ) (code : Option TicketResolutionCode) (notes : Option String) (d d' : Desk)
      → TicketSteps d d'
      → IsClosed id code notes d
      → IsClosed id code notes d'
  TicketSteps-IsClosed id code notes d d' ended all = all
  TicketSteps-IsClosed id code notes d d' (next {d' = middle} s rest) all =
      TicketSteps-IsClosed id code notes middle d' rest
        (step-IsClosed id code notes d middle (shut_at_birth s) (step-Written d middle s) all)
