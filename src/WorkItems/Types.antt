-- ===== src/WorkItems/Types.antt =====
-- src/work-items/work-item.entity.ts (without its category, hours, progress and meeting), and the
-- events of work-item-event.entity.ts. A timestamp is a number of milliseconds; a `YYYY-MM-DD` day is
-- the number YYYYMMDD, whose order is that of the text.
use nola_hq_backend.Common.{ℕ, String, Option, Bool, true, false, ◌||◌, ◌==◌, Eq, ◌↔◌, ◌≡◌, arith}

pub data WorkItemType : Type 0 where
  bug feature task ops debt epic story spike : WorkItemType

pub data WorkItemStatus : Type 0 where
  triage todo in_progress blocked review resolved closed : WorkItemStatus

abbrev type_beq : WorkItemType → WorkItemType → Bool
type_beq bug bug = true
type_beq feature feature = true
type_beq task task = true
type_beq ops ops = true
type_beq debt debt = true
type_beq epic epic = true
type_beq story story = true
type_beq spike spike = true
type_beq _ _ = false

pub type_beq_iff : (a b : WorkItemType) → (type_beq a b ≡ true) ↔ (a ≡ b)
type_beq_iff a b = ground arith

instance abbrev pub type_eq : Eq WorkItemType
type_eq = record { beq = type_beq; beq_iff = type_beq_iff }

abbrev status_beq : WorkItemStatus → WorkItemStatus → Bool
status_beq triage triage = true
status_beq todo todo = true
status_beq in_progress in_progress = true
status_beq blocked blocked = true
status_beq review review = true
status_beq resolved resolved = true
status_beq closed closed = true
status_beq _ _ = false

pub status_beq_iff : (a b : WorkItemStatus) → (status_beq a b ≡ true) ↔ (a ≡ b)
status_beq_iff a b = ground arith

instance abbrev pub status_eq : Eq WorkItemStatus
status_eq = record { beq = status_beq; beq_iff = status_beq_iff }

-- `isDoneStatus`
unfoldable pub is_done_status : WorkItemStatus → Bool
is_done_status status = status == resolved || status == closed

pub data WorkItemPriority : Type 0 where
  p0 p1 p2 p3 : WorkItemPriority

abbrev priority_beq : WorkItemPriority → WorkItemPriority → Bool
priority_beq p0 p0 = true
priority_beq p1 p1 = true
priority_beq p2 p2 = true
priority_beq p3 p3 = true
priority_beq _ _ = false

pub priority_beq_iff : (a b : WorkItemPriority) → (priority_beq a b ≡ true) ↔ (a ≡ b)
priority_beq_iff a b = ground arith

instance abbrev pub priority_eq : Eq WorkItemPriority
priority_eq = record { beq = priority_beq; beq_iff = priority_beq_iff }

pub data WorkItemSourceKind : Type 0 where
  manual request manifest support github : WorkItemSourceKind

pub record WorkItem : Type 0 where
  pub id : ℕ
  pub reference : Option String
  pub project_id : Option String
  pub sprint_id : Option String
  pub title : String
  pub description : Option String
  pub type : WorkItemType
  pub status : WorkItemStatus
  pub priority : WorkItemPriority
  pub reporter : String
  pub assignee : Option String
  pub due_date : Option ℕ
  pub blocked_reason : Option String
  pub estimate_points : ℕ
  pub position : ℕ
  pub parent_id : Option ℕ
  pub release_id : Option String
  pub domain_id : Option String
  pub capability_id : Option String
  pub surface : Option String
  pub source_kind : WorkItemSourceKind
  pub source_ref_id : Option String
  pub source_key : Option String
  pub source_author : Option String
  pub source_excerpt_hash : Option String
  pub approved_by : Option String
  pub created_at : ℕ
  pub updated_at : ℕ
  pub resolved_at : Option ℕ
  pub closed_at : Option ℕ

-- The action of an event, with the part of its `meta` that says what was done. A dependency that is
-- added or removed is an `updated` in the source, told apart by its `meta`; `closed_event` is its
-- `closed`.
pub data WorkItemEventAction : Type 0 where
  created updated commented subtask_added subtask_updated closed_event : WorkItemEventAction
  attachment_added attachment_removed accepted dismissed : WorkItemEventAction
  branch_created pull_request_opened : WorkItemEventAction
  moved : (from to : WorkItemStatus) → WorkItemEventAction
  dependency_added dependency_removed : (depends_on : ℕ) → WorkItemEventAction

pub record WorkItemEvent : Type 0 where
  pub work_item_id : ℕ
  pub actor : String
  pub action : WorkItemEventAction
  pub created_at : ℕ
