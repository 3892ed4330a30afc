-- ===== src/WorkItems/Service/Triage.antt =====
-- `acceptTriage`, `dismissTriage` and `decideTriage`.
pub mod Decided
use nola_hq_backend.Common.{
  ℕ, Bool, true, false, not, ◌&&◌, ◌||◌, Option, none, some, List, [], ◌∷◌, ◌++◌, map, ◌==◌, nat_eq,
  contains, filter, find, if◌then◌else◌, String,
}
use nola_hq_backend.WorkItems.Types.{
  WorkItem, WorkItemStatus, triage, todo, closed, status_eq, WorkItemEvent, accepted, dismissed,
}
use nola_hq_backend.WorkItems.Service.{Backlog, event}

pub data Decision : Type 0 where
  accept dismiss : Decision

pub data SkipReason : Type 0 where
  missing : SkipReason
  already_out : WorkItemStatus → SkipReason

pub record TriageReport : Type 0 where
  pub accepted : List ℕ
  pub dismissed : List ℕ
  pub skipped : List (ℕ × SkipReason)

-- `[...new Set(ids)]`: the first of each, in order
unfoldable pub unique_from : List ℕ → List ℕ → List ℕ
unique_from seen [] = []
unique_from seen (id ∷ ids) =
    if contains seen id then unique_from seen ids else id ∷ unique_from (id ∷ seen) ids

abbrev pub by_id : List WorkItem → ℕ → Option WorkItem
by_id items id = find (λ (i : WorkItem). i.id == id) items

-- why an id is skipped, or `none` where it moves
unfoldable pub skip_reason : Option WorkItem → Option SkipReason
skip_reason none = some missing
skip_reason (some item) =
    if not (item.status == triage) then some (already_out item.status) else none

-- the loop over the unique ids
unfoldable pub sort_out : List WorkItem → List ℕ → List ℕ × List (ℕ × SkipReason)
unfolding skip_reason
sort_out items [] = ([], [])
sort_out items (id ∷ ids) =
    let (moved, skipped) = sort_out items ids in
    elim (skip_reason (by_id items id)) [
      | some reason ↦ (moved, (id, reason) ∷ skipped)
      | none ↦ (id ∷ moved, skipped)
    ]

-- the patch of the one UPDATE
unfoldable pub decided_row : Decision → String → ℕ → WorkItem → WorkItem
decided_row accept actor now item = record item {
  status = todo;
  approved_by = some actor;
  updated_at = now;
}
decided_row dismiss actor now item = record item {
  status = closed;
  approved_by = some actor;
  updated_at = now;
  closed_at = some now;
}

abbrev pub decision_event : Decision → ℕ → String → ℕ → WorkItemEvent
decision_event accept id actor now = event id actor accepted now
decision_event dismiss id actor now = event id actor dismissed now

abbrev pub report : Decision → List ℕ → List (ℕ × SkipReason) → TriageReport
report accept moved skipped = record { accepted = moved; dismissed = []; skipped = skipped }
report dismiss moved skipped = record { accepted = []; dismissed = moved; skipped = skipped }

-- With no id moved, the UPDATE and the events have nothing to write.
unfoldable pub decide_triage : Backlog → List ℕ → String → Decision → ℕ → Backlog × TriageReport
unfolding unique_from sort_out decided_row
decide_triage b ids actor decision now =
    let (moved, skipped) = sort_out b.items (unique_from [] ids) in
    (
      record b {
        items =
            map
              (λ (i : WorkItem).
                if contains moved i.id then decided_row decision actor now i else i)
              b.items;
        events = b.events ++ map (λ id. decision_event decision id actor now) moved;
      },
      report decision moved skipped,
    )
