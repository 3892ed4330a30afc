-- ===== src/Tests/Initiatives.antt =====
-- A board of one initiative.
use nola_hq_backend.Common.{◌≡◌, Bool, false, List, [], ◌∷◌, String, In}
use nola_hq_backend.Roadmap.{BoardInitiative, shipped, RoadmapBoardColumn, build_board}
use nola_hq_backend.Roadmap.Columns.{build_board-columns}

abbrev no_order : String → String → Bool
no_order a b = false

abbrev initiatives : List BoardInitiative
initiatives = record { id = "i"; status = shipped; position = 0 } ∷ []

build_board-columns_example :
    (c : RoadmapBoardColumn) × In c (build_board no_order initiatives) × (c.id ≡ shipped)
build_board-columns_example = (build_board-columns no_order initiatives).0 shipped
