-- ===== src/Tests/Items.antt =====
-- The rows that the tests share.
use nola_hq_backend.Common.{ℕ, Option, none, some, List, [], ◌∷◌, String}
use nola_hq_backend.WorkItems.Types.{
  WorkItem, WorkItemType, task, epic, story, WorkItemStatus, triage, todo, closed, p2, manual,
}
use nola_hq_backend.WorkItems.Service.{Backlog}

abbrev pub ticket : ℕ → WorkItemType → WorkItemStatus → Option ℕ → Option String → WorkItem
ticket id type status parent release = record {
  id = id;
  reference = none;
  project_id = some "p";
  sprint_id = none;
  title = "Ticket";
  description = none;
  type = type;
  status = status;
  priority = p2;
  reporter = "ana";
  assignee = none;
  due_date = none;
  blocked_reason = none;
  estimate_points = 0;
  position = id;
  parent_id = parent;
  release_id = release;
  domain_id = none;
  capability_id = none;
  surface = none;
  source_kind = manual;
  source_ref_id = none;
  source_key = none;
  source_author = none;
  source_excerpt_hash = none;
  approved_by = none;
  created_at = 1;
  updated_at = 1;
  resolved_at = none;
  closed_at = none;
}

-- An epic in triage, a story below it, and a task below that.
abbrev pub big : WorkItem
big = ticket 1 epic triage none (some "r")

abbrev pub middle : WorkItem
middle = ticket 2 story todo (some 1) (some "r")

abbrev pub small : WorkItem
small = ticket 3 task todo (some 2) none

abbrev pub shut : WorkItem
shut = record (ticket 4 task closed none none) { closed_at = some 5 }

abbrev pub three : List WorkItem
three = big ∷ middle ∷ small ∷ []

abbrev pub backlog : Backlog
backlog = record {
  items = three;
  events = [];
  projects = record { id = "p"; key_prefix = some "Nola"; title = "Nola"; task_seq = 4 } ∷ [];
}

abbrev pub closed_backlog : Backlog
closed_backlog = record { items = shut ∷ []; events = []; projects = [] }
