-- ===== src/WorkItems/Service/Stamps.antt =====
-- The stamps of a ticket's lifecycle through every operation that writes rows of the backlog.
pub mod History
use nola_hq_backend.Common.{
  ℕ, ◌≡◌, ◌≢◌, refl, sym, subst, ap, Bool, true, false, ◌&&◌, ◌⊎◌, inl, inr, Option, none, some,
  List, [], ◌∷◌, ◌++◌, map, ◌==◌, nat_eq, string_eq, option_eq, contains, Distinct, find, length,
  In, In-map, In-append_cases, Distinct-map, find_sound, arith, Bool-cases, if◌then◌else◌, String,
  Result, ok, beq→eq, beq→ne, ◌∙◌, In-map_of, beq_self, ltb, >>=-eq-ok, >>-eq-ok,
}
use mathlib.Core.Option.{get_or}
use nola_hq_backend.Common.Graph.{Reaches, here, step}
use nola_hq_backend.Board.{ℤ, BoardItem, Placement, plan_move}
use nola_hq_backend.Board.Renumber.{placed}
use nola_hq_backend.Board.Keeps.{plan_move-keeps_status}
use nola_hq_backend.WorkItems.Types.{
  WorkItem, WorkItemStatus, resolved, closed, triage, todo, status_eq,
}
use nola_hq_backend.WorkItems.Planning.Sprints.{WorkSprint, assigned}
use nola_hq_backend.WorkItems.Service.{
  Backlog, Project, find_one, apply_status_timestamps, assert_mutable,
}
use nola_hq_backend.WorkItems.Service.Triage.{Decision, accept, dismiss, decide_triage, decided_row}
use nola_hq_backend.WorkItems.Service.Triage.Decided.{decide_triage_rows}
use nola_hq_backend.WorkItems.Service.Filing.{
  CaptureWorkItemDto, capture, CreateWorkItemDto, create, new_item, find_project, assert_sprint?,
  find_project?, truthy, captured,
}
use nola_hq_backend.WorkItems.Service.Editing.{
  UpdateWorkItemDto, patched_item, updated_row, update, check_project, next_project, check_reparent,
}
use nola_hq_backend.WorkItems.Service.Moving.{
  board_item, target_of, moved_row, put_row, move, auto_closed, is_expired, close_expired_resolved,
}

-- A resolved ticket has the time it was resolved, a closed one the time it was closed.
abbrev pub Stamped : WorkItem → Type 0
Stamped i = (i.status ≡ resolved → i.resolved_at ≢ none) × (i.status ≡ closed → i.closed_at ≢ none)

abbrev pub ids : List WorkItem → List ℕ
ids = map (λ (i : WorkItem). i.id)

abbrev pub AllStamped : List WorkItem → Type 0
AllStamped items = (i : WorkItem) → In i items → Stamped i

pub map-Stamped :
    (f : WorkItem → WorkItem) (items : List WorkItem)
    → ((i : WorkItem) → In i items → Stamped i → Stamped (f i))
    → AllStamped items
    → AllStamped (map f items)
map-Stamped f items keeps all i m =
    let (x, there, same) = In-map f i items m in
    subst Stamped (sym same) (keeps x there (all x there))

pub append_Stamped :
    (items : List WorkItem) (row : WorkItem)
    → AllStamped items
    → Stamped row
    → AllStamped (items ++ row ∷ [])
append_Stamped items row all new i m = elim (In-append_cases i items (row ∷ []) m) [
  | inl old ↦ all i old
  | inr (inl e) ↦ subst Stamped (sym e) new
  | inr (inr n) ↦ absurd n
]

pub if_Stamped : (c : Bool) (x y : WorkItem) → Stamped x → Stamped y → Stamped (if c then x else y)
if_Stamped true x y sx sy = sx
if_Stamped false x y sx sy = sy

pub if_id : (c : Bool) (x y : WorkItem) → x.id ≡ y.id → (if c then x else y).id ≡ y.id
if_id true x y h = h
if_id false x y h = refl

pub timestamps_id :
    (row : WorkItem) (previous : WorkItemStatus) (now : ℕ)
    → (apply_status_timestamps row previous now).id ≡ row.id
unfolding apply_status_timestamps
timestamps_id row previous now = ground arith

pub timestamps_Stamped :
    (row : WorkItem) (previous : WorkItemStatus) (now : ℕ)
    → (row.status ≡ previous → Stamped row)
    → Stamped (apply_status_timestamps row previous now)
unfolding apply_status_timestamps
timestamps_Stamped row previous now kept = elim (Bool-cases (row.status == previous)) [
  | inl same ↦ rw same (kept (beq→eq row.status previous same))
  | inr differs ↦ rw differs (λ h e. ground arith, λ h e. ground arith)
]

pub decided_Stamped :
    (decision : Decision) (actor : String) (now : ℕ) (row : WorkItem)
    → Stamped (decided_row decision actor now row)
unfolding decided_row
decided_Stamped accept actor now row = (λ h. ground arith, λ h. ground arith)
decided_Stamped dismiss actor now row = (λ h. ground arith, λ h. ground arith)

pub stamp_of :
    (asked : Option WorkItemStatus) (s : WorkItemStatus) (now : ℕ)
    → get_or asked todo ≡ s
    → s ≢ todo
    → (if asked == some s then some now else none) ≢ none
stamp_of none s now h other = absurd (other (sym h))
stamp_of (some t) s now h other =
    let same : (t == s) ≡ true = rw h (beq_self s) in rw same (λ e. cc)

pub new_Stamped :
    (slugify : String → String) (two_digits : ℕ → String) (b : Backlog) (project : Project)
    (dto : CreateWorkItemDto) (reporter : String) (new_id now : ℕ)
    → Stamped (new_item slugify two_digits b project dto reporter new_id now)
new_Stamped slugify two_digits b project dto reporter new_id now = (
  λ h. stamp_of dto.status resolved now h (λ e. cc),
  λ h. stamp_of dto.status closed now h (λ e. cc),
)
