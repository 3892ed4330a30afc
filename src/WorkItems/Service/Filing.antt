-- ===== src/WorkItems/Service/Filing.antt =====
-- `capture` and `create`. `slugifyProjectName` rests on Unicode normalisation and
-- `String(n).padStart(2, '0')` on JavaScript's numerals: both are parameters, `slugify` and
-- `two_digits`.
use nola_hq_backend.Common.{
  ℕ, suc, not, Option, none, some, List, [], ◌∷◌, ◌++◌, map, ◌==◌, nat_eq, string_eq, option_eq,
  find, count_if, if◌then◌else◌, String, Result, ok, ◌>>=◌, ◌>>◌, throw_if, or_throw, not_found,
  bad_request,
}
use mathlib.Core.Option.{get_or}
use Prim.Native.String.{◌++◌ as str_append}
use nola_hq_backend.Common.Text.{trim, or_null, trim_or_null}
use nola_hq_backend.WorkItems.Types.{
  WorkItem, WorkItemType, task, WorkItemStatus, todo, resolved, closed, status_eq, type_eq,
  WorkItemPriority, p2, manual, request, created,
}
use nola_hq_backend.WorkItems.Planning.Sprints.{WorkSprint}
use nola_hq_backend.WorkItems.Service.{Backlog, Project, event}

-- `findProject`
abbrev pub find_project : List Project → String → Result Project
find_project projects id = or_throw (find (λ (p : Project). p.id == id) projects) not_found

-- `nextTaskSeq`: the counter of the project, one higher
abbrev pub next_task_seq : Project → List Project → List Project
next_task_seq project =
    map (λ (p : Project). if p.id == project.id then record p { task_seq = suc p.task_seq } else p)

module _ (slugify : String → String) (two_digits : ℕ → String) where
  abbrev pub project_prefix : Project → String
  project_prefix project = elim project.key_prefix [
    | none ↦ slugify project.title
    | some prefix ↦ get_or (or_null prefix) (slugify project.title)
  ]

  -- `taskReference`
  abbrev pub task_reference : String → ℕ → String
  task_reference key_prefix seq = str_append "T" (str_append key_prefix (two_digits seq))

  abbrev pub next_reference : Project → String
  next_reference project = task_reference (project_prefix project) (suc project.task_seq)

-- `this.repo.count({ where: { status } })`
abbrev pub count_status : WorkItemStatus → List WorkItem → ℕ
count_status status = count_if (λ (i : WorkItem). i.status == status)

pub record CaptureWorkItemDto : Type 0 where
  pub title : String
  pub description : Option String
  pub type : Option WorkItemType
  pub priority : Option WorkItemPriority
  pub project_id : Option String

pub record CreateWorkItemDto : Type 0 where
  pub project_id : String
  pub title : String
  pub description : Option String
  pub type : Option WorkItemType
  pub status : Option WorkItemStatus
  pub priority : Option WorkItemPriority
  pub assignee : Option String
  pub due_date : Option ℕ
  pub blocked_reason : Option String
  pub sprint_id : Option String
  pub estimate_points : Option ℕ

-- A column that a new row does not set.
abbrev blank : ℕ → String → ℕ → WorkItem
blank id reporter now = record {
  id = id;
  reference = none;
  project_id = none;
  sprint_id = none;
  title = "";
  description = none;
  type = task;
  status = todo;
  priority = p2;
  reporter = reporter;
  assignee = none;
  due_date = none;
  blocked_reason = none;
  estimate_points = 0;
  position = 0;
  parent_id = none;
  release_id = none;
  domain_id = none;
  capability_id = none;
  surface = none;
  source_kind = manual;
  source_ref_id = none;
  source_key = none;
  source_author = none;
  source_excerpt_hash = none;
  approved_by = none;
  created_at = now;
  updated_at = now;
  resolved_at = none;
  closed_at = none;
}

-- an empty text is no project
abbrev pub truthy : Option String → Option String
truthy none = none
truthy (some s) = or_null s

-- `assertSprint` of the planning service
abbrev pub assert_sprint : List WorkSprint → String → String → Result (Unit {0})
assert_sprint sprints sprint_id project_id =
    or_throw (find (λ (s : WorkSprint). s.id == sprint_id) sprints) not_found
    >>= λ (sprint : WorkSprint). throw_if (not (sprint.project_id == some project_id)) bad_request

abbrev pub assert_sprint? : List WorkSprint → Option String → Option String → Result (Unit {0})
assert_sprint? sprints sprint_id project_id = elim (truthy sprint_id) [
  | none ↦ ok tt
  | some s ↦ elim (truthy project_id) [ none ↦ ok tt | some p ↦ assert_sprint sprints s p ]
]

-- `dto.projectId ? await this.findProject(dto.projectId) : null`
abbrev pub find_project? : List Project → Option String → Result (Option Project)
find_project? projects none = ok none
find_project? projects (some id) = find_project projects id >>= λ project. ok (some project)

module _ (slugify : String → String) (two_digits : ℕ → String) where
  abbrev pub captured : Backlog → Option Project → CaptureWorkItemDto → String → ℕ → ℕ → WorkItem
  captured b project dto reporter new_id now = record (blank new_id reporter now) {
    reference = elim project [ none ↦ none | some p ↦ some (next_reference slugify two_digits p) ];
    project_id = elim project [ none ↦ none | some p ↦ some p.id ];
    title = trim dto.title;
    description = trim_or_null dto.description;
    type = get_or dto.type task;
    priority = get_or dto.priority p2;
    source_kind = request;
    source_author = some reporter;
    position = count_status todo b.items;
  }

  unfoldable pub capture :
      Backlog → CaptureWorkItemDto → String → ℕ → ℕ → Result (Backlog × WorkItem)
  capture b dto reporter new_id now =
      find_project? b.projects (truthy dto.project_id) >>= λ (project : Option Project).
      let item = captured b project dto reporter new_id now in
      ok (
        record b {
          items = b.items ++ item ∷ [];
          events = b.events ++ event new_id reporter created now ∷ [];
          projects = elim project [ none ↦ b.projects | some p ↦ next_task_seq p b.projects ];
        },
        item,
      )

  abbrev pub new_item : Backlog → Project → CreateWorkItemDto → String → ℕ → ℕ → WorkItem
  new_item b project dto reporter new_id now = record (blank new_id reporter now) {
    reference = some (next_reference slugify two_digits project);
    project_id = some project.id;
    title = trim dto.title;
    description = trim_or_null dto.description;
    type = get_or dto.type task;
    status = get_or dto.status todo;
    priority = get_or dto.priority p2;
    assignee = truthy dto.assignee;
    due_date = dto.due_date;
    blocked_reason = trim_or_null dto.blocked_reason;
    sprint_id = dto.sprint_id;
    estimate_points = get_or dto.estimate_points 0;
    position = count_status (get_or dto.status todo) b.items;
    resolved_at = if dto.status == some resolved then some now else none;
    closed_at = if dto.status == some closed then some now else none;
  }

  unfoldable pub create :
      Backlog → List WorkSprint → CreateWorkItemDto → String → ℕ → ℕ → Result (Backlog × WorkItem)
  create b sprints dto reporter new_id now = find_project b.projects dto.project_id >>= λ project.
      assert_sprint? sprints dto.sprint_id (some project.id)
      >> (let item = new_item b project dto reporter new_id now in
          ok (
            record b {
              items = b.items ++ item ∷ [];
              events = b.events ++ event new_id reporter created now ∷ [];
              projects = next_task_seq project b.projects;
            },
            item,
          ))
