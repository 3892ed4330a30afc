-- ===== src/Roadmap/Columns.antt =====
-- What the columns of the roadmap's board hold.
use nola_hq_backend.Common.{
  ◌≡◌, ◌↔◌, refl, sym, Bool, inl, inr, List, ◌==◌, String, In, In-map_of, In-map, In-filter,
  In-filter_of, beq→eq, eq→beq, subst, string_eq,
}
use nola_hq_backend.Common.Sort.{In-sort, In-sort_of}
use nola_hq_backend.Board.{by_position}
use nola_hq_backend.Roadmap.{
  BoardInitiative, RoadmapInitiativeStatus, idea, planned, in_progress, shipped, dropped,
  initiative_eq, RoadmapBoardColumn, column, build_board, initiative_statuses,
}

is_status : (s : RoadmapInitiativeStatus) → In s initiative_statuses
is_status idea = inl refl
is_status planned = inr (inl refl)
is_status in_progress = inr (inr (inl refl))
is_status shipped = inr (inr (inr (inl refl)))
is_status dropped = inr (inr (inr (inr (inl refl))))

-- The board has a column for every status, and each column holds exactly the initiatives of its
-- status: none is lost, and none stands in two columns.
pub build_board-columns :
    (locale_lt : String → String → Bool) (items : List BoardInitiative)
    → ((s : RoadmapInitiativeStatus)
        → (c : RoadmapBoardColumn) × In c (build_board locale_lt items) × (c.id ≡ s))
      × ((c : RoadmapBoardColumn) (i : BoardInitiative)
          → In c (build_board locale_lt items)
          → In i c.items ↔ (In i items × (i.status ≡ c.id)))
unfolding build_board
build_board-columns locale_lt items = (
  λ s. (
    column locale_lt items s,
    In-map_of (column locale_lt items) s initiative_statuses (is_status s),
    refl,
  ),
  λ c i m.
      let (s, _, is) = In-map (column locale_lt items) c initiative_statuses m in
      subst (λ (x : RoadmapBoardColumn). In i x.items ↔ (In i items × (i.status ≡ x.id))) (sym is)
        (
          λ n.
              let (there, same) =
                In-filter (λ (x : BoardInitiative). x.status == s) i items
                  (In-sort (by_position locale_lt) i _ n) in
              (there, beq→eq i.status s same),
          λ h. In-sort_of (by_position locale_lt) i _ (
              In-filter_of (λ (x : BoardInitiative). x.status == s) i items h.0
                (eq→beq i.status s h.1)),
        ),
)
