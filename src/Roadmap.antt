-- ===== src/Roadmap.antt =====
-- src/roadmap/roadmap.board.ts: the board of initiatives. `planMove` is the shared plan, with
-- `localeCompare` on identifiers as the parameter `locale_lt`; positions asked for are whole numbers.
pub mod Columns
use nola_hq_backend.Common.{
  ℕ, Bool, true, false, List, [], ◌∷◌, map, Eq, ◌↔◌, ◌≡◌, ◌==◌, string_eq, filter, String, arith,
}
use nola_hq_backend.Common.Sort.{sort}
use nola_hq_backend.Board.{ℤ, BoardItem, Placement, by_position, plan_move}

pub data RoadmapInitiativeStatus : Type 0 where
  idea planned in_progress shipped dropped : RoadmapInitiativeStatus

abbrev initiative_beq : RoadmapInitiativeStatus → RoadmapInitiativeStatus → Bool
initiative_beq idea idea = true
initiative_beq planned planned = true
initiative_beq in_progress in_progress = true
initiative_beq shipped shipped = true
initiative_beq dropped dropped = true
initiative_beq _ _ = false

pub initiative_beq_iff : (a b : RoadmapInitiativeStatus) → (initiative_beq a b ≡ true) ↔ (a ≡ b)
initiative_beq_iff a b = ground arith

instance abbrev pub initiative_eq : Eq RoadmapInitiativeStatus
initiative_eq = record { beq = initiative_beq; beq_iff = initiative_beq_iff }

abbrev pub BoardInitiative : Type 0
BoardInitiative = BoardItem String RoadmapInitiativeStatus

abbrev pub InitiativePlacement : Type 0
InitiativePlacement = Placement String RoadmapInitiativeStatus

abbrev pub initiative_statuses : List RoadmapInitiativeStatus
initiative_statuses = idea ∷ planned ∷ in_progress ∷ shipped ∷ dropped ∷ []

abbrev pub status_label : RoadmapInitiativeStatus → String
status_label idea = "Idée"
status_label planned = "Planifié"
status_label in_progress = "En cours"
status_label shipped = "Livré"
status_label dropped = "Abandonné"

abbrev pub status_tone : RoadmapInitiativeStatus → String
status_tone idea = "#94A3B8"
status_tone planned = "#4F46E5"
status_tone in_progress = "#D97706"
status_tone shipped = "#16A34A"
status_tone dropped = "#B91C1C"

pub record RoadmapBoardColumn : Type 0 where
  pub id : RoadmapInitiativeStatus
  pub label : String
  pub tone : String
  pub items : List BoardInitiative

module _ (locale_lt : String → String → Bool) where
  abbrev pub column : List BoardInitiative → RoadmapInitiativeStatus → RoadmapBoardColumn
  column items id = record {
    id = id;
    label = status_label id;
    tone = status_tone id;
    items = sort (by_position locale_lt) (filter (λ (i : BoardInitiative). i.status == id) items);
  }

  unfoldable pub build_board : List BoardInitiative → List RoadmapBoardColumn
  build_board items = map (column items) initiative_statuses

  unfoldable pub plan_initiative_move :
      List BoardInitiative → String → RoadmapInitiativeStatus → ℤ → List InitiativePlacement
  unfolding plan_move
  plan_initiative_move all moved_id target_status target_position =
      plan_move locale_lt all moved_id target_status target_position
