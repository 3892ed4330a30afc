-- ===== src/Tickets/Equality.antt =====
-- The comparisons `===` of the types of src/tickets/ticket.entity.ts.
use nola_hq_backend.Common.{ℕ, zero, suc, ◌≡◌, refl, Eq, ranked_eq}
use nola_hq_backend.Tickets.{
  TicketStatus, opened, pending, closed, resolved, TicketPriority, p1, p2, p3, TicketCategory,
  technical, billing, account, feature, deployment, other, TicketPendingReason, on_client,
  on_vendor, on_internal, TicketResolutionCode, corrige, contournement, comportement_attendu,
  non_reproductible, assistance_formation, doublon, transfere, sans_suite, TicketEventAction,
  created, status_changed, assigned, replied, updated, sla_response_approaching,
  sla_response_breached, sla_resolution_approaching, sla_resolution_breached,
}

abbrev status_rank : TicketStatus → ℕ
status_rank opened = 0
status_rank pending = 1
status_rank closed = 2
status_rank resolved = 3

abbrev status_at : ℕ → TicketStatus
status_at zero = opened
status_at (suc zero) = pending
status_at (suc (suc zero)) = closed
status_at _ = resolved

pub status_back : (a : TicketStatus) → status_at (status_rank a) ≡ a
status_back opened = refl
status_back pending = refl
status_back closed = refl
status_back resolved = refl

instance abbrev pub status_eq : Eq TicketStatus
status_eq = ranked_eq status_rank status_at status_back

abbrev priority_rank : TicketPriority → ℕ
priority_rank p1 = 0
priority_rank p2 = 1
priority_rank p3 = 2

abbrev priority_at : ℕ → TicketPriority
priority_at zero = p1
priority_at (suc zero) = p2
priority_at _ = p3

pub priority_back : (a : TicketPriority) → priority_at (priority_rank a) ≡ a
priority_back p1 = refl
priority_back p2 = refl
priority_back p3 = refl

instance abbrev pub priority_eq : Eq TicketPriority
priority_eq = ranked_eq priority_rank priority_at priority_back

abbrev category_rank : TicketCategory → ℕ
category_rank technical = 0
category_rank billing = 1
category_rank account = 2
category_rank feature = 3
category_rank deployment = 4
category_rank other = 5

abbrev category_at : ℕ → TicketCategory
category_at zero = technical
category_at (suc zero) = billing
category_at (suc (suc zero)) = account
category_at (suc (suc (suc zero))) = feature
category_at (suc (suc (suc (suc zero)))) = deployment
category_at _ = other

pub category_back : (a : TicketCategory) → category_at (category_rank a) ≡ a
category_back technical = refl
category_back billing = refl
category_back account = refl
category_back feature = refl
category_back deployment = refl
category_back other = refl

instance abbrev pub category_eq : Eq TicketCategory
category_eq = ranked_eq category_rank category_at category_back

abbrev pending_rank : TicketPendingReason → ℕ
pending_rank on_client = 0
pending_rank on_vendor = 1
pending_rank on_internal = 2

abbrev pending_at : ℕ → TicketPendingReason
pending_at zero = on_client
pending_at (suc zero) = on_vendor
pending_at _ = on_internal

pub pending_back : (a : TicketPendingReason) → pending_at (pending_rank a) ≡ a
pending_back on_client = refl
pending_back on_vendor = refl
pending_back on_internal = refl

instance abbrev pub pending_eq : Eq TicketPendingReason
pending_eq = ranked_eq pending_rank pending_at pending_back

abbrev resolution_rank : TicketResolutionCode → ℕ
resolution_rank corrige = 0
resolution_rank contournement = 1
resolution_rank comportement_attendu = 2
resolution_rank non_reproductible = 3
resolution_rank assistance_formation = 4
resolution_rank doublon = 5
resolution_rank transfere = 6
resolution_rank sans_suite = 7

abbrev resolution_at : ℕ → TicketResolutionCode
resolution_at zero = corrige
resolution_at (suc zero) = contournement
resolution_at (suc (suc zero)) = comportement_attendu
resolution_at (suc (suc (suc zero))) = non_reproductible
resolution_at (suc (suc (suc (suc zero)))) = assistance_formation
resolution_at (suc (suc (suc (suc (suc zero))))) = doublon
resolution_at (suc (suc (suc (suc (suc (suc zero)))))) = transfere
resolution_at _ = sans_suite

pub resolution_back : (a : TicketResolutionCode) → resolution_at (resolution_rank a) ≡ a
resolution_back corrige = refl
resolution_back contournement = refl
resolution_back comportement_attendu = refl
resolution_back non_reproductible = refl
resolution_back assistance_formation = refl
resolution_back doublon = refl
resolution_back transfere = refl
resolution_back sans_suite = refl

instance abbrev pub resolution_eq : Eq TicketResolutionCode
resolution_eq = ranked_eq resolution_rank resolution_at resolution_back

abbrev action_rank : TicketEventAction → ℕ
action_rank created = 0
action_rank status_changed = 1
action_rank assigned = 2
action_rank replied = 3
action_rank updated = 4
action_rank sla_response_approaching = 5
action_rank sla_response_breached = 6
action_rank sla_resolution_approaching = 7
action_rank sla_resolution_breached = 8

abbrev action_at : ℕ → TicketEventAction
action_at zero = created
action_at (suc zero) = status_changed
action_at (suc (suc zero)) = assigned
action_at (suc (suc (suc zero))) = replied
action_at (suc (suc (suc (suc zero)))) = updated
action_at (suc (suc (suc (suc (suc zero))))) = sla_response_approaching
action_at (suc (suc (suc (suc (suc (suc zero)))))) = sla_response_breached
action_at (suc (suc (suc (suc (suc (suc (suc zero))))))) = sla_resolution_approaching
action_at _ = sla_resolution_breached

pub action_back : (a : TicketEventAction) → action_at (action_rank a) ≡ a
action_back created = refl
action_back status_changed = refl
action_back assigned = refl
action_back replied = refl
action_back updated = refl
action_back sla_response_approaching = refl
action_back sla_response_breached = refl
action_back sla_resolution_approaching = refl
action_back sla_resolution_breached = refl

instance abbrev pub action_eq : Eq TicketEventAction
action_eq = ranked_eq action_rank action_at action_back
