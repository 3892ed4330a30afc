-- ===== src/WorkItems/Service/Moving.antt =====
-- `move` and `closeExpiredResolved`. `move` gives no row where the moved one has no placement: the
-- source then returns `undefined`.
use nola_hq_backend.Common.{
  ℕ, ◌+◌, ◌*◌, Bool, false, not, ◌&&◌, Option, none, some, List, [], ◌∷◌, ◌++◌, map, ◌==◌, nat_eq,
  string_eq, option_eq, filter, length, count_if, leb, ltb, if◌then◌else◌, String, Result, ok,
  ◌>>=◌, ◌>>◌,
}
use mathlib.Core.Option.{get_or}
use nola_hq_backend.Board.{ℤ, pos, BoardItem, Placement, plan_move}
use nola_hq_backend.Board.Renumber.{placed}
use nola_hq_backend.WorkItems.Types.{
  WorkItem, WorkItemStatus, resolved, closed, status_eq, type_eq, moved, closed_event,
}
use nola_hq_backend.WorkItems.Service.{
  Backlog, find_one, assert_mutable, apply_status_timestamps, event,
}

abbrev pub board_item : WorkItem → BoardItem ℕ WorkItemStatus
board_item item = record { id = item.id; status = item.status; position = item.position }

-- the default of `position`: the end of the target column
abbrev pub target_of : List WorkItem → ℕ → WorkItemStatus → Option ℤ → ℤ
target_of items id status position =
    get_or position
      (pos (count_if (λ (i : WorkItem). i.status == status && not (i.id == id)) items))

-- a row with its placement, if it has one
unfoldable pub put_row :
    Option (Placement ℕ WorkItemStatus) → (moved_id now : ℕ) → WorkItem → WorkItem
unfolding apply_status_timestamps
put_row none moved_id now row = row
put_row (some p) moved_id now row =
    let put : WorkItem = record row { status = p.status; position = p.position } in
    let stamped : WorkItem =
      if row.id == moved_id then apply_status_timestamps put row.status now else put in
    record stamped { updated_at = now }

abbrev pub moved_row : List (Placement ℕ WorkItemStatus) → (moved_id now : ℕ) → WorkItem → WorkItem
moved_row placements moved_id now row = put_row (placed row.id placements) moved_id now row

unfoldable pub move :
    Backlog → ℕ → WorkItemStatus → Option ℤ → String → ℕ → Result (Backlog × Option WorkItem)
unfolding assert_mutable put_row
move b id status position actor now = find_one b.items id >>= λ (item : WorkItem).
    assert_mutable item
    >> (let plan =
          plan_move ltb (map board_item b.items) id status (target_of b.items id status position) in
        if length plan == 0
        then ok (b, some item)
        else ok (
          record b {
            items = map (moved_row plan id now) b.items;
            events =
                if not (item.status == status)
                then b.events ++ event id actor (moved item.status status) now ∷ []
                else b.events;
          },
          elim (placed id plan) [ none ↦ none | some p ↦ some (moved_row plan id now item) ],
        ))

-- `REOPEN_WINDOW_MS`
abbrev pub reopen_window_ms : ℕ
reopen_window_ms = 2 * 24 * 60 * 60 * 1000

abbrev pub stamped_by : ℕ → Option ℕ → Bool
stamped_by now none = false
stamped_by now (some at_) = leb (at_ + reopen_window_ms) now

-- the `where` of the query: `resolvedAt <= now - REOPEN_WINDOW_MS`
abbrev pub is_expired : ℕ → WorkItem → Bool
is_expired now item = item.status == resolved && stamped_by now item.resolved_at

abbrev pub auto_closed : ℕ → WorkItem → WorkItem
auto_closed now item = record item { status = closed; closed_at = some now; updated_at = now }

unfoldable pub close_expired_resolved : Backlog → ℕ → Backlog × List WorkItem
close_expired_resolved b now =
    let expired = filter (is_expired now) b.items in
    (
      record b {
        items = map (λ i. if is_expired now i then auto_closed now i else i) b.items;
        events = b.events ++ map (λ (i : WorkItem). event i.id "system" closed_event now) expired;
      },
      map (auto_closed now) expired,
    )
