-- ===== src/Board.antt =====
-- The reordering plan that src/work-items/work-items.board.ts and src/roadmap/roadmap.board.ts
-- share (the first is ported verbatim from the second): the same algorithm over any identifiers
-- and statuses. The comparison of identifiers is a parameter: numbers in one, `localeCompare` in
-- the other.
pub mod Splice
pub mod Renumber
pub mod Dense
pub mod Keeps
pub use Splice.{splice}
use nola_hq_backend.Common.{
  ℕ, zero, suc, min, Bool, ◌&&◌, ◌||◌, not, Option, none, some, List, [], ◌∷◌, ◌++◌, Eq, ◌==◌,
  nat_eq, ltb, length, filter, find, if◌then◌else◌, ◌+◌,
}
use nola_hq_backend.Common.Sort.{sort}

-- A whole number that may be negative, as a caller may pass it; `negsuc n` is -(n + 1).
pub data ℤ : Type 0 where
  pos : ℕ → ℤ
  negsuc : ℕ → ℤ

-- `Math.max(n, 0)`
abbrev pub at_least_zero : ℤ → ℕ
at_least_zero (pos n) = n
at_least_zero (negsuc n) = 0

pub record BoardItem (Key Status : Type 0) : Type 0 where
  pub id : Key
  pub status : Status
  pub position : ℕ

pub record Placement (Key Status : Type 0) : Type 0 where
  pub id : Key
  pub status : Status
  pub position : ℕ

module _ {Key Status : Type 0} ⦃ei : Eq Key⦄ ⦃es : Eq Status⦄ where
  -- the `forEach` over the target column
  unfoldable pub renumber : Status → ℕ → List (BoardItem Key Status) → List (Placement Key Status)
  renumber status k [] = []
  renumber status k (item ∷ rest) =
      if not (item.status == status) || not (item.position == k)
      then record { id = item.id; status = status; position = k } ∷ renumber status (suc k) rest
      else renumber status (suc k) rest

  -- the `forEach` over the source column
  unfoldable pub close_gaps : Status → ℕ → List (BoardItem Key Status) → List (Placement Key Status)
  close_gaps status k [] = []
  close_gaps status k (item ∷ rest) =
      if not (item.position == k)
      then record { id = item.id; status = status; position = k } ∷ close_gaps status (suc k) rest
      else close_gaps status (suc k) rest

module _ {Key Status : Type 0} ⦃ei : Eq Key⦄ ⦃es : Eq Status⦄ (id_lt : Key → Key → Bool) where
  -- `byPosition(a, b) < 0`
  abbrev pub by_position : BoardItem Key Status → BoardItem Key Status → Bool
  by_position a b = if a.position == b.position then id_lt a.id b.id else ltb a.position b.position

  -- a column without the moved item, in order
  abbrev pub column_without :
      List (BoardItem Key Status) → Key → Status → List (BoardItem Key Status)
  column_without all moved_id status =
      sort by_position (filter (λ i. i.status == status && not (i.id == moved_id)) all)

  -- the target column, with the moved item spliced in
  abbrev pub landing :
      List (BoardItem Key Status)
      → BoardItem Key Status
      → Key
      → Status
      → ℤ
      → List (BoardItem Key Status)
  landing all moved moved_id target_status target_position =
      let target = column_without all moved_id target_status in
      splice (min (at_least_zero target_position) (length target)) moved target

  unfoldable pub plan_move :
      List (BoardItem Key Status) → Key → Status → ℤ → List (Placement Key Status)
  unfolding renumber close_gaps
  plan_move all moved_id target_status target_position = elim (find (λ i. i.id == moved_id) all) [
    | none ↦ []
    | some moved ↦
        renumber target_status 0 (landing all moved moved_id target_status target_position)
        ++ (if not (moved.status == target_status)
            then close_gaps moved.status 0 (column_without all moved_id moved.status)
            else [])
  ]
