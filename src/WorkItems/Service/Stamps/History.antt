-- ===== src/WorkItems/Service/Stamps/History.antt =====
-- The stamps through every sequence of operations that write rows of the backlog.
use nola_hq_backend.Common.{
  ℕ, ◌≡◌, false, Option, List, nat_eq, string_eq, option_eq, contains, Distinct, String, ok,
}
use nola_hq_backend.Board.{ℤ}
use nola_hq_backend.WorkItems.Types.{WorkItem, WorkItemStatus, status_eq}
use nola_hq_backend.WorkItems.Planning.Sprints.{WorkSprint}
use nola_hq_backend.WorkItems.Service.{Backlog}
use nola_hq_backend.WorkItems.Service.Triage.{Decision, decide_triage}
use nola_hq_backend.WorkItems.Service.Filing.{
  CaptureWorkItemDto, capture, CreateWorkItemDto, create,
}
use nola_hq_backend.WorkItems.Service.Editing.{UpdateWorkItemDto, update}
use nola_hq_backend.WorkItems.Service.Moving.{move, close_expired_resolved}
use nola_hq_backend.WorkItems.Service.Stamps.{ids, AllStamped}

-- What the theorem is an invariant of: distinct ids, and every row stamped.
abbrev pub Sound : Backlog → Type 0
Sound b = Distinct (ids b.items) × AllStamped b.items

-- One request, or one run of the scheduler, on the backlog.
pub data Step (slugify : String → String) (two_digits : ℕ → String)
    : Backlog → Backlog → Type 0 where
  capturing :
      {b b' : Backlog} (dto : CaptureWorkItemDto) (reporter : String) (new_id now : ℕ)
      (item : WorkItem)
      → contains (ids b.items) new_id ≡ false
      → capture slugify two_digits b dto reporter new_id now ≡ ok (b', item)
      → Step slugify two_digits b b'
  creating :
      {b b' : Backlog} (sprints : List WorkSprint) (dto : CreateWorkItemDto) (reporter : String)
      (new_id now : ℕ) (item : WorkItem)
      → contains (ids b.items) new_id ≡ false
      → create slugify two_digits b sprints dto reporter new_id now ≡ ok (b', item)
      → Step slugify two_digits b b'
  updating :
      {b b' : Backlog} (sprints : List WorkSprint) (id : ℕ) (dto : UpdateWorkItemDto)
      (actor : String) (now : ℕ) (item : WorkItem)
      → update b sprints id dto actor now ≡ ok (b', item)
      → Step slugify two_digits b b'
  moving :
      {b b' : Backlog} (id : ℕ) (status : WorkItemStatus) (position : Option ℤ) (actor : String)
      (now : ℕ) (result : Option WorkItem)
      → move b id status position actor now ≡ ok (b', result)
      → Step slugify two_digits b b'
  expiring : {b : Backlog} (now : ℕ) → Step slugify two_digits b (close_expired_resolved b now).0
  deciding :
      {b : Backlog} (asked : List ℕ) (actor : String) (decision : Decision) (now : ℕ)
      → Step slugify two_digits b (decide_triage b asked actor decision now).0
