-- ===== src/Tickets.antt =====
-- src/tickets/ticket.entity.ts, src/tickets/ticket-event.entity.ts and the state that
-- src/tickets/tickets.service.ts works on. A time is a number of milliseconds.
pub mod Equality
pub mod Filing
pub mod Service
pub mod Steps
pub mod Standing
pub mod Sla
use nola_hq_backend.Common.{ℕ, Option, none, some, List, String}
use nola_hq_backend.Units.{Directory}

pub data TicketPriority : Type 0 where
  p1 p2 p3 : TicketPriority

pub data TicketStatus : Type 0 where
  opened pending closed resolved : TicketStatus

pub data TicketCategory : Type 0 where
  technical billing account feature deployment other : TicketCategory

pub data TicketReplyVisibility : Type 0 where
  internal client : TicketReplyVisibility

pub data TicketResolutionCode : Type 0 where
  corrige contournement comportement_attendu non_reproductible assistance_formation doublon
        transfere sans_suite :
      TicketResolutionCode

pub data TicketPendingReason : Type 0 where
  on_client on_vendor on_internal : TicketPendingReason

pub record TicketReply : Type 0 where
  pub from : String
  pub t : String
  pub text : String
  pub visibility : TicketReplyVisibility

pub record Ticket : Type 0 where
  pub id : ℕ
  pub tenant : String
  pub business_unit_id : String
  pub product_id : Option String
  pub subject : String
  pub title : String
  pub body : String
  pub contact : String
  pub priority : TicketPriority
  pub status : TicketStatus
  pub pending_reason : Option TicketPendingReason
  pub resolution_code : Option TicketResolutionCode
  pub resolution_notes : Option String
  pub assignee : String
  pub assigned : String
  pub sla : String
  pub category : Option TicketCategory
  pub source : Option String
  pub due_at : Option ℕ
  pub work_item_id : Option ℕ
  pub replies : List TicketReply
  pub created_at : ℕ
  pub updated_at : ℕ

pub data TicketEventAction : Type 0 where
  created status_changed assigned replied updated sla_response_approaching sla_response_breached
        sla_resolution_approaching sla_resolution_breached :
      TicketEventAction

-- The changes that `update` records, from and to.
pub record Changes : Type 0 where
  pub priority : Option (TicketPriority × TicketPriority)
  pub category : Option (Option TicketCategory × Option TicketCategory)
  pub product_id : Option (Option String × Option String)
  pub work_item_id : Option (Option ℕ × Option ℕ)

-- `meta`
pub data EventMeta : Type 0 where
  no_meta : EventMeta
  visibility : TicketReplyVisibility → EventMeta
  outcome : Option TicketPendingReason → Option TicketResolutionCode → Option String → EventMeta
  assignees : (from_assignee to_assignee : String) → EventMeta
  changes : Changes → EventMeta

pub record TicketEvent : Type 0 where
  pub ticket_id : ℕ
  pub actor : String
  pub action : TicketEventAction
  pub from_status : Option TicketStatus
  pub to_status : Option TicketStatus
  pub reason : Option String
  pub meta : EventMeta
  pub created_at : ℕ

pub record Product : Type 0 where
  pub id : String
  pub code : String
  pub business_unit_id : String
  pub source_aliases : List String

pub record SlaPolicy : Type 0 where
  pub id : String
  pub business_unit_id : String
  pub priority : TicketPriority
  pub response_target_minutes : Option ℕ
  pub resolution_target_minutes : Option ℕ

-- The tables; of the team, the ids.
pub record Desk : Type 0 where
  pub tickets : List Ticket
  pub events : List TicketEvent
  pub products : List Product
  pub team : List String
  pub policies : List SlaPolicy
  pub directory : Directory

pub record CreateTicketDto : Type 0 where
  pub tenant : String
  pub subject : String
  pub title : Option String
  pub body : String
  pub contact : String
  pub priority : TicketPriority
  pub status : Option TicketStatus
  pub assignee : String
  pub category : Option TicketCategory
  pub source : Option String
  pub product_id : Option String
  pub business_unit_code : Option String
  pub due_at : Option ℕ
  pub work_item_id : Option ℕ

pub record AddReplyDto : Type 0 where
  pub from : String
  pub text : String
  pub t : Option String
  pub visibility : Option TicketReplyVisibility

-- `none` is a field left out; the inner `none` is `null`.
pub record UpdateTicketDto : Type 0 where
  pub priority : Option TicketPriority
  pub category : Option (Option TicketCategory)
  pub product_id : Option (Option String)
  pub work_item_id : Option (Option ℕ)
