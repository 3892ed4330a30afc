-- ===== src/Tests/Tickets.antt =====
-- Triage decisions, a closed ticket, and an attachment.
use nola_hq_backend.Common.{
  ℕ, ◌≡◌, ◌≤◌, refl, true, false, ◌||◌, nat_eq, string_eq, none, [], ◌∷◌, map, String, ok, err,
  forbidden, contains, arith,
}
use nola_hq_backend.WorkItems.Types.{todo, status_eq, attachment_added}
use nola_hq_backend.WorkItems.Service.{find_one, assert_mutable}
use nola_hq_backend.WorkItems.Service.Triage.{
  accept, dismiss, decide_triage, decided_row, SkipReason,
}
use nola_hq_backend.WorkItems.Service.Triage.Decided.{decide_triage_rows, decide_triage_report}
use nola_hq_backend.WorkItems.Service.Moving.{move}
use nola_hq_backend.WorkItems.Service.Attached.{
  AttachedTables, File, add_attachment, new_attachment, attachments_of, max_attachments_per_ticket,
  max_attachment_bytes, allowed_attachment_mime_types,
}
use nola_hq_backend.WorkItems.Service.Closed.{closed-forbidden, add_attachment-bounds}
use nola_hq_backend.Tests.Items.{backlog, big, middle, small, three, closed_backlog, shut}

decide_triage_rows_example :
    (decide_triage backlog (1 ∷ 2 ∷ 9 ∷ []) "ana" accept 7).0.items
    ≡ decided_row accept "ana" 7 big ∷ middle ∷ small ∷ []
decide_triage_rows_example =
    decide_triage_rows backlog (1 ∷ 2 ∷ 9 ∷ []) "ana" accept 7 (refl, (refl, (refl, tt)))

abbrev tables : AttachedTables
tables = record { items = three; comments = []; subtasks = []; attachments = []; events = [] }

abbrev closed_tables : AttachedTables
closed_tables = record {
  items = closed_backlog.items;
  comments = [];
  subtasks = [];
  attachments = [];
  events = [];
}

found_shut : find_one closed_backlog.items 4 ≡ ok shut
unfolding find_one
found_shut = refl

closed-forbidden_example : move closed_backlog 4 todo none "ana" 7 ≡ err forbidden
closed-forbidden_example =
    (closed-forbidden closed_backlog closed_tables 4 shut found_shut refl refl).1 todo none "ana" 7

abbrev file : File
file = record { original_name = "a.png"; mime_type = "image/png"; size = 10485760 }

abbrev name_of : String → String
name_of name = name

abbrev with_file : AttachedTables
with_file = record tables {
  attachments = new_attachment name_of 1 file "ana" "f" 7 ∷ [];
  events =
      record { work_item_id = 1; actor = "ana"; action = attachment_added; created_at = 7 } ∷ [];
}

attached : add_attachment name_of true tables 1 file "ana" "f" 7 ≡ ok with_file
unfolding add_attachment find_one assert_mutable allowed_attachment_mime_types
attached = refl

none_attached : (x : ℕ) → attachments_of [] x ≤ max_attachments_per_ticket
none_attached x = omega arith

add_attachment-bounds_example :
    (contains allowed_attachment_mime_types "image/png" ≡ true)
    × (file.size ≤ max_attachment_bytes)
    × ((x : ℕ) → attachments_of with_file.attachments x ≤ max_attachments_per_ticket)
add_attachment-bounds_example =
    add_attachment-bounds name_of true tables with_file 1 file "ana" "f" 7 none_attached attached

decide_triage_report_example :
    let r = (decide_triage backlog (1 ∷ 2 ∷ 9 ∷ []) "ana" dismiss 7).1 in
    ((contains r.accepted 1 || contains r.dismissed 1) ≡ true)
    × (contains (map (λ (s : ℕ × SkipReason). s.0) r.skipped) 1 ≡ false)
decide_triage_report_example = decide_triage_report backlog (1 ∷ 2 ∷ 9 ∷ []) "ana" dismiss 7 1
