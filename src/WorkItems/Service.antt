-- ===== src/WorkItems/Service.antt =====
-- src/work-items/work-items.service.ts: the rows that `WorkItemsService` reads and writes, and the
-- guards that its operations share. A timestamp is an argument, `now`; so is the id that the
-- database draws for a new row. Notifications and push messages are left out: they change no row.
pub mod Triage
pub mod Filing
pub mod Editing
pub mod Moving
pub mod Attached
pub mod Stamps
pub mod Closed
use nola_hq_backend.Common.{
  ℕ, zero, suc, ◌+◌, Bool, true, false, not, ◌&&◌, ◌||◌, Option, none, some, List, [], ◌∷◌, ◌++◌,
  map, ◌==◌, nat_eq, string_eq, filter, find, if◌then◌else◌, String, Result, ok, err, ◌>>=◌, ◌>>◌,
  throw_if, or_throw, not_found, forbidden,
}
use nola_hq_backend.WorkItems.Types.{
  WorkItem, WorkItemStatus, resolved, closed, status_eq, WorkItemEvent, WorkItemEventAction,
}

-- The columns of a roadmap initiative that the backlog reads.
pub record Project : Type 0 where
  pub id : String
  pub key_prefix : Option String
  pub title : String
  pub task_seq : ℕ

pub record Backlog : Type 0 where
  pub items : List WorkItem
  pub events : List WorkItemEvent
  pub projects : List Project

-- `findOne`
unfoldable pub find_one : List WorkItem → ℕ → Result WorkItem
find_one items id = or_throw (find (λ (i : WorkItem). i.id == id) items) not_found

-- `assertMutable`
unfoldable pub assert_mutable : WorkItem → Result (Unit {0})
assert_mutable item = throw_if (item.status == closed) forbidden

-- `applyStatusTimestamps`, on the row with its new status
unfoldable pub apply_status_timestamps : WorkItem → WorkItemStatus → ℕ → WorkItem
apply_status_timestamps item previous now =
    if item.status == previous
    then item
    else let stamped : WorkItem =
        if item.status == resolved
        then record item { resolved_at = some now }
        else if previous == resolved
        then record item { resolved_at = none }
        else item in
      if item.status == closed then record stamped { closed_at = some now } else stamped

-- `record`
abbrev pub event : ℕ → String → WorkItemEventAction → ℕ → WorkItemEvent
event work_item_id actor action now = record {
  work_item_id = work_item_id;
  actor = actor;
  action = action;
  created_at = now;
}

-- `save` of a row that exists
abbrev pub save_item : WorkItem → List WorkItem → List WorkItem
save_item row = map (λ (i : WorkItem). if i.id == row.id then row else i)
