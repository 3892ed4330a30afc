-- ===== src/WorkItems/Hierarchy.antt =====
-- src/work-items/work-item-hierarchy.ts. The walks up the parents take fuel; `none` is a walk that
-- the fuel did not finish. A violation keeps what its message is made of.
pub mod Walk
pub mod Legal
pub mod Lineage
use nola_hq_backend.Common.{
  ℕ, zero, suc, Option, none, some, List, [], ◌∷◌, ◌++◌, ◌==◌, contains, if◌then◌else◌, not, nat_eq,
}
use nola_hq_backend.WorkItems.Types.{
  WorkItemType, bug, feature, task, ops, debt, epic, story, spike, type_eq,
}
use mathlib.Core.Option

unfoldable pub allowed_parent_types : WorkItemType → List WorkItemType
allowed_parent_types epic = []
allowed_parent_types story = epic ∷ []
allowed_parent_types task = epic ∷ story ∷ []
allowed_parent_types bug = epic ∷ story ∷ []
allowed_parent_types spike = epic ∷ story ∷ []
allowed_parent_types feature = epic ∷ story ∷ []
allowed_parent_types ops = epic ∷ story ∷ []
allowed_parent_types debt = epic ∷ story ∷ []

pub record HierarchyNode : Type 0 where
  pub id : ℕ
  pub type : WorkItemType
  pub parent_id : Option ℕ

pub data HierarchyViolation : Type 0 where
  self : HierarchyViolation
  forbidden : (child parent : WorkItemType) → (expected : List WorkItemType) → HierarchyViolation
  cycle : (path : List ℕ) → HierarchyViolation

-- `ancestors(id)?.parentId ?? null`
abbrev pub parent_of : Option HierarchyNode → Option ℕ
parent_of none = none
parent_of (some node) = node.parent_id

module _ (ancestors : ℕ → Option HierarchyNode) where
  -- the `while` loop of `checkParent`; `seen` has the ids of `path`, the latest first
  unfoldable pub climb :
      ℕ → (child : ℕ) → (path seen : List ℕ) → Option ℕ → Option (Option HierarchyViolation)
  climb fuel child path seen none = some none
  climb zero child path seen (some cursor) = none
  climb (suc fuel) child path seen (some cursor) =
      let rest =
        climb fuel child (path ++ cursor ∷ []) (cursor ∷ seen) (parent_of (ancestors cursor)) in
      if cursor == child
      then some (some (cycle (path ++ child ∷ [])))
      else if contains seen cursor
      then some none
      else rest

  -- `checkParent`: `some none` is a legal move
  unfoldable pub check_parent :
      ℕ → HierarchyNode → Option HierarchyNode → Option (Option HierarchyViolation)
  unfolding climb allowed_parent_types
  check_parent fuel child none = some none
  check_parent fuel child (some parent) =
      let allowed = allowed_parent_types child.type in
      if parent.id == child.id
      then some (some self)
      else if not (contains allowed parent.type)
      then some (some (forbidden child.type parent.type allowed))
      else climb fuel child.id (parent.id ∷ []) (parent.id ∷ []) parent.parent_id

  -- the `while` loop of `lineageOf`; the chain grows at its end
  unfoldable pub lineage_from :
      ℕ → (chain : List HierarchyNode) → (seen : List ℕ) → Option ℕ → Option (List HierarchyNode)
  lineage_from fuel chain seen none = some chain
  lineage_from zero chain seen (some cursor) = none
  lineage_from (suc fuel) chain seen (some cursor) =
      let next = λ (parent : HierarchyNode).
        lineage_from fuel (chain ++ parent ∷ []) (cursor ∷ seen) parent.parent_id in
      if contains seen cursor
      then some chain
      else elim (ancestors cursor) [ none ↦ some chain | some parent ↦ next parent ]

  unfoldable pub lineage_of : ℕ → HierarchyNode → Option (List HierarchyNode)
  unfolding lineage_from
  lineage_of fuel node = lineage_from fuel [] (node.id ∷ []) node.parent_id
