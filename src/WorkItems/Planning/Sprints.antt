-- ===== src/WorkItems/Planning/Sprints.antt =====
-- `createSprint` and `updateSprint` of src/work-items/work-planning.service.ts, over the table of
-- sprints. Days are numbers YYYYMMDD; the uuid that the database draws is an argument.
pub mod Invariant
use nola_hq_backend.Common.{
  ℕ, Bool, true, false, not, ◌&&◌, Option, none, some, List, [], ◌∷◌, ◌++◌, map, ◌==◌, nat_eq,
  string_eq, option_eq, find, if◌then◌else◌, String, Result, ok, err, ◌>>=◌, ◌>>◌, throw_if,
  or_throw, ltb, bad_request, not_found, conflict, Eq, ◌↔◌, ◌≡◌, refl, arith, contains,
}
use mathlib.Core.Option.{get_or}
use nola_hq_backend.Common.Text.{trim, trim_or_null}

pub data WorkSprintStatus : Type 0 where
  planned active completed : WorkSprintStatus

abbrev pub is_active : WorkSprintStatus → Bool
is_active active = true
is_active _ = false

pub record WorkSprint : Type 0 where
  pub id : String
  pub project_id : Option String
  pub name : String
  pub goal : Option String
  pub status : WorkSprintStatus
  pub start_date : Option ℕ
  pub end_date : Option ℕ
  pub created_at : ℕ
  pub updated_at : ℕ

pub record CreateWorkSprintDto : Type 0 where
  pub project_id : String
  pub name : String
  pub goal : Option String
  pub status : Option WorkSprintStatus
  pub start_date : Option ℕ
  pub end_date : Option ℕ

-- `none` is a field left out; the inner `none` of a nullable field is `null`.
pub record UpdateWorkSprintDto : Type 0 where
  pub name : Option String
  pub goal : Option (Option String)
  pub status : Option WorkSprintStatus
  pub start_date : Option (Option ℕ)
  pub end_date : Option (Option ℕ)

-- `dto.x ?? old` at a nullable field
abbrev pub coalesce {ℓ} : {A : Type ℓ} → Option (Option A) → Option A → Option A
coalesce (some (some v)) old = some v
coalesce _ old = old

-- the field after `Object.assign(row, dto)`
abbrev pub assigned {ℓ} : {A : Type ℓ} → Option A → A → A
assigned none old = old
assigned (some v) old = v

abbrev pub later : Option ℕ → Option ℕ → Bool
later (some start) (some stop) = ltb stop start
later _ _ = false

unfoldable pub assert_sprint_dates : (start stop : Option ℕ) → Result (Unit {0})
assert_sprint_dates start stop = throw_if (later start stop) bad_request

abbrev pub is_active_of : String → WorkSprint → Bool
is_active_of project_id s = s.project_id == some project_id && is_active s.status

-- `excludeId` is `none` where the caller leaves it out
unfoldable pub assert_no_active_sprint :
    List WorkSprint → String → Option String → Result (Unit {0})
assert_no_active_sprint sprints project_id exclude_id =
    elim (find (is_active_of project_id) sprints) [
      | none ↦ ok tt
      | some found ↦ throw_if (not (some found.id == exclude_id)) conflict
    ]

abbrev pub is_active_status : Option WorkSprintStatus → Bool
is_active_status none = false
is_active_status (some s) = is_active s

-- the row that `this.sprints.create({ … })` builds
abbrev pub new_sprint : CreateWorkSprintDto → (new_id : String) → (now : ℕ) → WorkSprint
new_sprint dto new_id now = record {
  id = new_id;
  project_id = some dto.project_id;
  name = trim dto.name;
  goal = trim_or_null dto.goal;
  status = get_or dto.status planned;
  start_date = dto.start_date;
  end_date = dto.end_date;
  created_at = now;
  updated_at = now;
}

-- `projects` are the ids of the projects that exist
unfoldable pub create_sprint :
    List String
    → List WorkSprint
    → CreateWorkSprintDto
    → (new_id : String) → (now : ℕ) → Result (List WorkSprint)
create_sprint projects sprints dto new_id now = do
  throw_if (not (contains projects dto.project_id)) not_found
  assert_sprint_dates dto.start_date dto.end_date
  if is_active_status dto.status then assert_no_active_sprint sprints dto.project_id none else ok tt
  ok (sprints ++ new_sprint dto new_id now ∷ [])

-- `save` of a row that exists
abbrev pub save_sprint : WorkSprint → List WorkSprint → List WorkSprint
save_sprint row = map (λ (s : WorkSprint). if s.id == row.id then row else s)

unfoldable pub check_activation :
    List WorkSprint → WorkSprint → UpdateWorkSprintDto → Result (Unit {0})
check_activation sprints sprint dto =
    if is_active_status dto.status && not (is_active sprint.status)
    then elim sprint.project_id [
      | none ↦ ok tt
      | some project_id ↦ assert_no_active_sprint sprints project_id (some sprint.id)
    ]
    else ok tt

-- `Object.assign(sprint, dto)` and the stamp
abbrev pub patched_sprint : WorkSprint → UpdateWorkSprintDto → (now : ℕ) → WorkSprint
patched_sprint sprint dto now = record sprint {
  name = assigned dto.name sprint.name;
  goal = assigned dto.goal sprint.goal;
  status = assigned dto.status sprint.status;
  start_date = assigned dto.start_date sprint.start_date;
  end_date = assigned dto.end_date sprint.end_date;
  updated_at = now;
}

unfoldable pub update_sprint :
    List WorkSprint → String → UpdateWorkSprintDto → (now : ℕ) → Result (List WorkSprint)
update_sprint sprints id dto now = do
  sprint ← or_throw (find (λ (s : WorkSprint). s.id == id) sprints) not_found
  assert_sprint_dates (coalesce dto.start_date sprint.start_date)
      (coalesce dto.end_date sprint.end_date)
  check_activation sprints sprint dto
  ok (save_sprint (patched_sprint sprint dto now) sprints)
