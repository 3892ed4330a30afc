-- ===== src/Business/Reminders/Service.antt =====
-- `createReminder` and `updateReminder` of src/business/business-operations.service.ts. The ids that an
-- entity type has, the uuid of a new reminder and the time are arguments.
use nola_hq_backend.Common.{
  ℕ, false, Option, none, List, [], ◌∷◌, ◌++◌, map, ◌==◌, string_eq, find, if◌then◌else◌, String,
  Result, ok, ◌>>=◌, ◌>>◌, or_throw, not_found,
}
use nola_hq_backend.Common.Text.{trim, trim_or_null}
use nola_hq_backend.WorkItems.Planning.Sprints.{assigned}
use nola_hq_backend.Business.Invoices.{find_row}
use nola_hq_backend.Business.Reminders.{
  BusinessReminder, BusinessReminderStatus, pending, BusinessReminderEntityType,
}

pub record CreateBusinessReminderDto : Type 0 where
  pub entity_type : BusinessReminderEntityType
  pub entity_id : String
  pub title : String
  pub due_at : ℕ
  pub assignee : Option String
  pub note : Option String

-- `none` is a field left out; the inner `none` is `null`.
pub record UpdateBusinessReminderDto : Type 0 where
  pub title : Option String
  pub due_at : Option ℕ
  pub assignee : Option (Option String)
  pub note : Option (Option String)
  pub status : Option BusinessReminderStatus

abbrev pub asked_reminder : CreateBusinessReminderDto → String → ℕ → BusinessReminder
asked_reminder dto new_id now = record {
  id = new_id;
  fingerprint = none;
  entity_type = dto.entity_type;
  entity_id = dto.entity_id;
  title = trim dto.title;
  due_at = dto.due_at;
  assignee = trim_or_null dto.assignee;
  status = pending;
  automatic = false;
  note = trim_or_null dto.note;
  created_at = now;
  updated_at = now;
}

-- `createReminder`, with `assertReminderTarget`
unfoldable pub create_reminder :
    (ids : BusinessReminderEntityType → List String)
    → List BusinessReminder
    → CreateBusinessReminderDto
    → (new_id : String) → (now : ℕ) → Result (List BusinessReminder)
create_reminder ids rows dto new_id now =
    find_row (ids dto.entity_type) dto.entity_id >> ok (rows ++ asked_reminder dto new_id now ∷ [])

abbrev pub edited_reminder : BusinessReminder → UpdateBusinessReminderDto → ℕ → BusinessReminder
edited_reminder r dto now = record r {
  title = assigned dto.title r.title;
  due_at = assigned dto.due_at r.due_at;
  assignee = assigned dto.assignee r.assignee;
  note = assigned dto.note r.note;
  status = assigned dto.status r.status;
  updated_at = now;
}

-- `updateReminder`
unfoldable pub update_reminder :
    List BusinessReminder
    → (id : String) → UpdateBusinessReminderDto
    → (now : ℕ) → Result (List BusinessReminder)
update_reminder rows id dto now =
    or_throw (find (λ (r : BusinessReminder). r.id == id) rows) not_found
    >>= λ (reminder : BusinessReminder). ok (
        map (λ (r : BusinessReminder). if r.id == reminder.id then edited_reminder r dto now else r)
          rows)
