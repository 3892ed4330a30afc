-- ===== src/WorkItems/Service/Closed.antt =====
-- What operations of src/work-items/work-items.service.ts refuse: closed tickets, and more
-- attachments than a ticket may have.
use nola_hq_backend.Common.{
  ℕ, suc, ◌≤◌, ◌≡◌, ◌<◌, subst, beq→eq, refl, Bool, true, Option, List, [], ◌∷◌, ◌++◌, ◌==◌, nat_eq,
  string_eq, find, contains, if◌then◌else◌, String, ok, err, or_throw, forbidden, not_found, arith,
  Bool-cases, inl, inr,
}
use nola_hq_backend.Board.{ℤ}
use nola_hq_backend.WorkItems.Types.{WorkItem, WorkItemStatus, closed, status_eq}
use nola_hq_backend.WorkItems.Planning.Sprints.{WorkSprint}
use nola_hq_backend.WorkItems.Service.{Backlog, find_one, assert_mutable}
use nola_hq_backend.WorkItems.Service.Editing.{UpdateWorkItemDto, update}
use nola_hq_backend.WorkItems.Service.Moving.{move}
use nola_hq_backend.WorkItems.Service.Attached.{
  AttachedTables, WorkItemAttachment, File, add_comment, add_subtask, add_attachment,
  new_attachment, remove_attachment, attachments_of, max_attachments_per_ticket, update_subtask,
  UpdateWorkItemSubtaskDto, WorkItemSubtask, allowed_attachment_mime_types, max_attachment_bytes,
}

refused : (item : WorkItem) → item.status ≡ closed → assert_mutable item ≡ err forbidden
unfolding assert_mutable
refused item h = rw h refl

-- On a closed work item, seven operations are refused as forbidden: updating it, moving it,
-- commenting on it, adding a subtask, updating one of its subtasks, and adding or removing an
-- attachment.
pub closed-forbidden :
    (b : Backlog) (t : AttachedTables) (id : ℕ) (item : WorkItem)
    → find_one b.items id ≡ ok item
    → t.items ≡ b.items
    → item.status ≡ closed
    → ((sprints : List WorkSprint) (dto : UpdateWorkItemDto) (actor : String) (now : ℕ)
        → update b sprints id dto actor now ≡ err forbidden)
      × ((status : WorkItemStatus) (position : Option ℤ) (actor : String) (now : ℕ)
          → move b id status position actor now ≡ err forbidden)
      × ((body actor new_id : String) (now : ℕ)
          → add_comment t id body actor new_id now ≡ err forbidden)
      × ((title : String) (assignee : Option String) (actor new_id : String) (now : ℕ)
          → add_subtask t id title assignee actor new_id now ≡ err forbidden)
      × ((subtask : WorkItemSubtask) (dto : UpdateWorkItemSubtaskDto) (sid actor : String) (now : ℕ)
          → or_throw (find (λ (s : WorkItemSubtask). s.id == sid) t.subtasks) not_found ≡ ok subtask
          → subtask.work_item_id ≡ id
          → update_subtask t sid dto actor now ≡ err forbidden)
      × ((name_of : String → String) (written : Bool) (file : File) (actor new_id : String)
            (now : ℕ)
          → add_attachment name_of written t id file actor new_id now ≡ err forbidden)
      × ((attachment_id actor : String) (now : ℕ)
          → remove_attachment t id attachment_id actor now ≡ err forbidden)
unfolding update move add_comment add_subtask update_subtask add_attachment remove_attachment
closed-forbidden b t id item found same is =
    let no = refused item is in
    (
      λ sprints dto actor now. rw (found, no) refl,
      λ status position actor now. rw (found, no) refl,
      λ body actor new_id now. rw (same, found, no) refl,
      λ title assignee actor new_id now. rw (same, found, no) refl,
      λ subtask dto sid actor now hit owner. rw (hit, same, owner, found, no) refl,
      λ name_of written file actor new_id now. rw (same, found, no) refl,
      λ attachment_id actor now. rw (same, found, no) refl,
    )

count-append :
    (xs : List WorkItemAttachment) (a : WorkItemAttachment) (x : ℕ)
    → attachments_of (xs ++ a ∷ []) x
      ≡ (if a.work_item_id == x then suc (attachments_of xs x) else attachments_of xs x)
count-append [] a x = ground arith
count-append (y ∷ xs) a x = ground (arith, count-append xs a x)

-- An attachment that is added is of an allowed type and size, and leaves each ticket with five
-- attachments at most, if each had no more before.
pub add_attachment-bounds :
    (name_of : String → String) (written : Bool) (t t' : AttachedTables) (id : ℕ) (file : File)
    (actor new_id : String) (now : ℕ)
    → ((x : ℕ) → attachments_of t.attachments x ≤ max_attachments_per_ticket)
    → add_attachment name_of written t id file actor new_id now ≡ ok t'
    → (contains allowed_attachment_mime_types file.mime_type ≡ true)
      × (file.size ≤ max_attachment_bytes)
      × ((x : ℕ) → attachments_of t'.attachments x ≤ max_attachments_per_ticket)
unfolding add_attachment
add_attachment-bounds name_of written t t' id file actor new_id now bounded h =
    let row = new_attachment name_of id file actor new_id now in
    let stored : t'.attachments ≡ t.attachments ++ row ∷ [] = ground arith in
    let room : attachments_of t.attachments id < max_attachments_per_ticket = ground arith in
    (
      ground arith,
      ground arith,
      λ x.
          let n = count-append t.attachments row x in
          rw stored (elim (Bool-cases (id == x)) [
            | inl same ↦
                let e : id ≡ x = beq→eq id x same in
                ground (arith, n, subst (λ i. attachments_of t.attachments i < 5) e room)
            | inr other ↦ ground (arith, n, bounded x)
          ]),
    )
