-- ===== src/Tests/Boards.antt =====
-- A card moved from one column to another, and the backlog's life.
use nola_hq_backend.Common.{ℕ, ◌≡◌, refl, List, [], ◌∷◌, inl, inr, ltb, nat_eq, string_eq, String}
use nola_hq_backend.Common.Sort.{sort}
use nola_hq_backend.Board.Splice.{splice}
use nola_hq_backend.Board.{pos, BoardItem, Placement, plan_move}
use nola_hq_backend.Board.Dense.{place_row, plan_move-dense}
use nola_hq_backend.Board.Keeps.{plan_move-keeps_status}
use nola_hq_backend.WorkItems.Types.{WorkItemStatus, todo, review, status_eq}
use nola_hq_backend.WorkItems.Service.{Backlog}
use nola_hq_backend.WorkItems.Service.Triage.{accept, decide_triage}
use nola_hq_backend.Tests.Items.{backlog}

abbrev card : ℕ → WorkItemStatus → ℕ → BoardItem ℕ WorkItemStatus
card id status position = record { id = id; status = status; position = position }

abbrev cards : List (BoardItem ℕ WorkItemStatus)
cards = card 1 todo 0 ∷ card 2 todo 1 ∷ card 3 review 0 ∷ []

plan_move-dense_example :
    place_row (plan_move ltb cards 1 review (pos 9)) (card 1 todo 0) ≡ card 1 review 1
unfolding sort
plan_move-dense_example =
    (plan_move-dense ltb cards 1 (card 1 todo 0) review (pos 9) (refl, (refl, (refl, tt))) refl).2

abbrev second : Placement ℕ WorkItemStatus
second = record { id = 2; status = todo; position = 0 }

plan_move-keeps_status_example : second.status ≡ todo
unfolding plan_move splice sort
plan_move-keeps_status_example =
    plan_move-keeps_status ltb cards 1 (card 1 todo 0) review (pos 9) (refl, (refl, (refl, tt)))
      refl (card 2 todo 1) (inr (inl refl)) (λ e. cc) second refl

abbrev slugify : String → String
slugify name = name

abbrev two_digits : ℕ → String
two_digits n = "07"

abbrev decided : Backlog
decided = (decide_triage backlog (1 ∷ []) "ana" accept 7).0
