-- ===== src/WorkItems/Service/Editing.antt =====
-- `update`. A key that a request leaves out is no property of the dto; the record of the changes
-- is left out of the event.
use nola_hq_backend.Common.{
  ℕ, suc, Bool, false, not, ◌||◌, Option, none, some, List, [], ◌∷◌, ◌++◌, ◌==◌, nat_eq, string_eq,
  option_eq, find, Eq, length, if◌then◌else◌, String, Result, ok, err, ◌>>=◌, ◌>>◌, not_found,
  bad_request, internal_error,
}
use nola_hq_backend.WorkItems.Types.{
  WorkItem, WorkItemType, status_eq, type_eq, priority_eq, WorkItemPriority, updated,
}
use nola_hq_backend.WorkItems.Hierarchy.{HierarchyNode, check_parent}
use nola_hq_backend.WorkItems.Planning.Sprints.{WorkSprint, assigned}
use nola_hq_backend.WorkItems.Service.{
  Backlog, Project, find_one, assert_mutable, apply_status_timestamps, event, save_item,
}
use nola_hq_backend.WorkItems.Service.Filing.{find_project, truthy, assert_sprint?}

pub record UpdateWorkItemDto : Type 0 where
  pub project_id : Option String
  pub parent_id : Option (Option ℕ)
  pub title : Option String
  pub description : Option (Option String)
  pub type : Option WorkItemType
  pub priority : Option WorkItemPriority
  pub assignee : Option (Option String)
  pub due_date : Option (Option ℕ)
  pub blocked_reason : Option (Option String)
  pub sprint_id : Option (Option String)
  pub estimate_points : Option ℕ

-- `toNode`, and the rows as `checkParent` looks them up
abbrev pub to_node : WorkItem → HierarchyNode
to_node item = record { id = item.id; type = item.type; parent_id = item.parent_id }

abbrev pub node_at : List WorkItem → ℕ → Option HierarchyNode
node_at items id = elim (find (λ (i : WorkItem). i.id == id) items) [
  | none ↦ none
  | some item ↦ some (to_node item)
]

-- `assertParentAllowed`, with fuel for every row. The chain that the source loads first is what the
-- walk reads. A walk that the fuel does not finish is `internal_error`.
unfoldable pub assert_parent_allowed : List WorkItem → WorkItem → Option ℕ → Result (Unit {0})
assert_parent_allowed items child none = ok tt
assert_parent_allowed items child (some parent_id) = elim (node_at items parent_id) [
  | none ↦ err not_found
  | some parent ↦
      elim (check_parent (node_at items) (suc (length items)) (to_node child) (some parent)) [
        | none ↦ err internal_error
        | some none ↦ ok tt
        | some (some violation) ↦ err bad_request
      ]
]

abbrev pub check_reparent : List WorkItem → WorkItem → UpdateWorkItemDto → Result (Unit {0})
check_reparent items item dto = elim dto.parent_id [
  | none ↦ ok tt
  | some parent ↦
      if parent == item.parent_id then ok tt else assert_parent_allowed items item parent
]

abbrev pub check_project : List Project → WorkItem → UpdateWorkItemDto → Result (Unit {0})
check_project projects item dto = elim (truthy dto.project_id) [
  | none ↦ ok tt
  | some id ↦
      if item.project_id == some id
      then ok tt
      else find_project projects id >>= λ (p : Project). ok tt
]

-- `dto.projectId ?? item.projectId`
abbrev pub next_project : UpdateWorkItemDto → WorkItem → Option String
next_project dto item = elim dto.project_id [ none ↦ item.project_id | some p ↦ some p ]

-- `Object.assign(item, dto)`
unfoldable pub patched_item : WorkItem → UpdateWorkItemDto → WorkItem
patched_item item dto = record item {
  project_id = next_project dto item;
  parent_id = assigned dto.parent_id item.parent_id;
  title = assigned dto.title item.title;
  description = assigned dto.description item.description;
  type = assigned dto.type item.type;
  priority = assigned dto.priority item.priority;
  assignee = assigned dto.assignee item.assignee;
  due_date = assigned dto.due_date item.due_date;
  blocked_reason = assigned dto.blocked_reason item.blocked_reason;
  sprint_id = assigned dto.sprint_id item.sprint_id;
  estimate_points = assigned dto.estimate_points item.estimate_points;
}

-- whether a given field has a new value
abbrev pub differs {ℓ} : {A : Type ℓ} ⦃e : Eq A⦄ → Option A → A → Bool
differs none old = false
differs (some v) old = not (v == old)

-- `Object.keys(changes).length > 0`
abbrev pub has_changes : WorkItem → UpdateWorkItemDto → Bool
has_changes item dto =
    differs (project_asked dto) item.project_id
    || differs dto.parent_id item.parent_id
    || differs dto.title item.title
    || differs dto.description item.description
    || differs dto.type item.type
    || differs dto.priority item.priority
    || differs dto.assignee item.assignee
    || differs dto.due_date item.due_date
    || differs dto.blocked_reason item.blocked_reason
    || differs dto.sprint_id item.sprint_id
    || differs dto.estimate_points item.estimate_points
  where
    project_asked : UpdateWorkItemDto → Option (Option String)
    project_asked dto = elim dto.project_id [ none ↦ none | some p ↦ some (some p) ]

-- The row that is saved. The dto has no status, so the stamps stay.
unfoldable pub updated_row : WorkItem → UpdateWorkItemDto → ℕ → WorkItem
unfolding patched_item apply_status_timestamps
updated_row item dto now =
    record (apply_status_timestamps (patched_item item dto) item.status now) { updated_at = now }

unfoldable pub update :
    Backlog → List WorkSprint → ℕ → UpdateWorkItemDto → String → ℕ → Result (Backlog × WorkItem)
unfolding assert_mutable assert_parent_allowed updated_row
update b sprints id dto actor now = find_one b.items id >>= λ (item : WorkItem).
    assert_mutable item
    >> (check_project b.projects item dto
        >> (assert_sprint? sprints (assigned dto.sprint_id item.sprint_id) (next_project dto item)
            >> (check_reparent b.items item dto
                >> (let row = updated_row item dto now in
                    ok (
                      record b {
                        items = save_item row b.items;
                        events =
                            if has_changes item dto
                            then b.events ++ event id actor updated now ∷ []
                            else b.events;
                      },
                      row,
                    )))))
