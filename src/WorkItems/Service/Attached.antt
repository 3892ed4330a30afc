-- ===== src/WorkItems/Service/Attached.antt =====
-- `addComment`, `addSubtask`, `updateSubtask`, `addAttachment` and `removeAttachment`: what hangs
-- on a ticket. Files on disk are a parameter: whether the write succeeds. A failed delete of a
-- file is only logged.
use nola_hq_backend.Common.{
  ℕ, ◌*◌, Bool, false, not, Option, List, [], ◌∷◌, ◌++◌, map, ◌==◌, nat_eq, string_eq, filter, find,
  count_if, ltb, leb, contains, if◌then◌else◌, String, Result, ok, err, ◌>>=◌, ◌>>◌, throw_if,
  or_throw, not_found, bad_request, internal_error,
}
use nola_hq_backend.Common.Text.{trim}
use nola_hq_backend.WorkItems.Types.{
  WorkItem, WorkItemEvent, commented, subtask_added, subtask_updated, attachment_added,
  attachment_removed,
}
use nola_hq_backend.WorkItems.Planning.Sprints.{assigned}
use nola_hq_backend.WorkItems.Service.{find_one, assert_mutable, event}
use nola_hq_backend.WorkItems.Service.Filing.{truthy}

pub record WorkItemComment : Type 0 where
  pub id : String
  pub work_item_id : ℕ
  pub author : String
  pub body : String
  pub created_at : ℕ

pub record WorkItemSubtask : Type 0 where
  pub id : String
  pub work_item_id : ℕ
  pub title : String
  pub assignee : Option String
  pub done : Bool
  pub position : ℕ
  pub created_at : ℕ
  pub updated_at : ℕ

pub record WorkItemAttachment : Type 0 where
  pub id : String
  pub work_item_id : ℕ
  pub original_name : String
  pub mime_type : String
  pub size_bytes : ℕ
  pub uploaded_by : String
  pub created_at : ℕ

pub record AttachedTables : Type 0 where
  pub items : List WorkItem
  pub comments : List WorkItemComment
  pub subtasks : List WorkItemSubtask
  pub attachments : List WorkItemAttachment
  pub events : List WorkItemEvent

unfoldable pub add_comment :
    AttachedTables → ℕ → (body actor new_id : String) → ℕ → Result AttachedTables
unfolding assert_mutable
add_comment t id body actor new_id now = find_one t.items id >>= λ (item : WorkItem).
    assert_mutable item
    >> ok (record t {
      comments =
          t.comments
          ++ record {
            id = new_id;
            work_item_id = id;
            author = actor;
            body = trim body;
            created_at = now;
          }
            ∷ [];
      events = t.events ++ event id actor commented now ∷ [];
    })

unfoldable pub add_subtask :
    AttachedTables
    → ℕ
    → (title : String) → Option String
    → (actor new_id : String) → ℕ
    → Result AttachedTables
unfolding assert_mutable
add_subtask t id title assignee actor new_id now = find_one t.items id >>= λ (item : WorkItem).
    assert_mutable item
    >> ok (record t {
      subtasks =
          t.subtasks
          ++ record {
            id = new_id;
            work_item_id = id;
            title = trim title;
            assignee = truthy assignee;
            done = false;
            position = count_if (λ (s : WorkItemSubtask). s.work_item_id == id) t.subtasks;
            created_at = now;
            updated_at = now;
          }
            ∷ [];
      events = t.events ++ event id actor subtask_added now ∷ [];
    })

pub record UpdateWorkItemSubtaskDto : Type 0 where
  pub title : Option String
  pub done : Option Bool
  pub assignee : Option (Option String)

unfoldable pub update_subtask :
    AttachedTables → String → UpdateWorkItemSubtaskDto → String → ℕ → Result AttachedTables
unfolding assert_mutable
update_subtask t id dto actor now =
    or_throw (find (λ (s : WorkItemSubtask). s.id == id) t.subtasks) not_found
    >>= λ (subtask : WorkItemSubtask).
        find_one t.items subtask.work_item_id >>= λ (item : WorkItem).
        assert_mutable item
        >> (let row : WorkItemSubtask = record subtask {
          title = assigned dto.title subtask.title;
          done = assigned dto.done subtask.done;
          assignee = assigned dto.assignee subtask.assignee;
          updated_at = now;
        } in
            ok (record t {
              subtasks = map (λ (s : WorkItemSubtask). if s.id == id then row else s) t.subtasks;
              events = t.events ++ event subtask.work_item_id actor subtask_updated now ∷ [];
            }))

-- src/work-items/work-item-attachment-storage.ts
unfoldable pub allowed_attachment_mime_types : List String
allowed_attachment_mime_types =
    "image/png" ∷ "image/jpeg" ∷ "image/gif" ∷ "image/webp" ∷ "application/pdf" ∷ "text/plain"
    ∷ "application/zip" ∷ "application/x-zip-compressed" ∷ "application/msword"
    ∷ "application/vnd.openxmlformats-officedocument.wordprocessingml.document"
    ∷ "application/vnd.ms-excel"
    ∷ "application/vnd.openxmlformats-officedocument.spreadsheetml.sheet"
    ∷ "application/vnd.ms-powerpoint"
    ∷ "application/vnd.openxmlformats-officedocument.presentationml.presentation" ∷ []

abbrev pub max_attachment_bytes : ℕ
max_attachment_bytes = 10 * 1024 * 1024

abbrev pub max_attachments_per_ticket : ℕ
max_attachments_per_ticket = 5

pub record File : Type 0 where
  pub original_name : String
  pub mime_type : String
  pub size : ℕ

abbrev pub attachments_of : List WorkItemAttachment → ℕ → ℕ
attachments_of attachments id =
    count_if (λ (a : WorkItemAttachment). a.work_item_id == id) attachments

abbrev pub new_attachment :
    (String → String) → ℕ → File → (actor new_id : String) → ℕ → WorkItemAttachment
new_attachment name_of id file actor new_id now = record {
  id = new_id;
  work_item_id = id;
  original_name = name_of file.original_name;
  mime_type = file.mime_type;
  size_bytes = file.size;
  uploaded_by = actor;
  created_at = now;
}

-- `name_of` is `originalname.slice(0, 255)`; `written` says whether the file could be saved. The
-- row of a file that could not is removed again.
unfoldable pub add_attachment :
    (name_of : String → String)
    → (written : Bool) → AttachedTables
    → ℕ
    → File
    → (actor new_id : String) → ℕ
    → Result AttachedTables
unfolding assert_mutable
add_attachment name_of written t id file actor new_id now =
    find_one t.items id >>= λ (item : WorkItem).
    assert_mutable item
    >> (throw_if (not (contains allowed_attachment_mime_types file.mime_type)) bad_request
        >> (throw_if (ltb max_attachment_bytes file.size) bad_request
            >> (throw_if (leb max_attachments_per_ticket (attachments_of t.attachments id))
                  bad_request
                >> (if written
                    then ok (record t {
                      attachments =
                          t.attachments ++ new_attachment name_of id file actor new_id now ∷ [];
                      events = t.events ++ event id actor attachment_added now ∷ [];
                    })
                    else err internal_error))))

unfoldable pub remove_attachment :
    AttachedTables → ℕ → (attachment_id actor : String) → ℕ → Result AttachedTables
unfolding assert_mutable
remove_attachment t id attachment_id actor now = find_one t.items id >>= λ (item : WorkItem).
    assert_mutable item
    >> (or_throw (find (λ (a : WorkItemAttachment). a.id == attachment_id) t.attachments) not_found
        >>= λ (attachment : WorkItemAttachment).
            throw_if (not (attachment.work_item_id == id)) not_found
            >> ok (record t {
              attachments =
                  filter (λ (a : WorkItemAttachment). not (a.id == attachment_id)) t.attachments;
              events = t.events ++ event id actor attachment_removed now ∷ [];
            }))
