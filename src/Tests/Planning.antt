-- ===== src/Tests/Planning.antt =====
-- Dependencies, parents and sprints of a small backlog.
use nola_hq_backend.Common.{
  ℕ, ◌≡◌, refl, Bool, true, ◌↔◌, ◌==◌, nat_eq, inl, inr, Option, none, some, List, [], ◌∷◌, ok, In,
  if◌then◌else◌, find, beq→eq, arith, find_sound,
}
use nola_hq_backend.Common.Graph.{Reaches, IsAcyclic}
use nola_hq_backend.WorkItems.Types.{
  WorkItemType, epic, story, task, dependency_added, dependency_removed,
}
use nola_hq_backend.WorkItems.Planning.Dependencies.{
  WorkItemDependency, DependencyTables, reaches, add_dependency, remove_dependency, reach_loop,
}
use nola_hq_backend.WorkItems.Planning.Dependencies.Search.{DependsOn, reaches_decides}
use nola_hq_backend.WorkItems.Planning.Dependencies.Acyclic.{
  add_dependency-IsAcyclic, remove_dependency-IsAcyclic,
}
use nola_hq_backend.WorkItems.Planning.Sprints.{
  WorkSprint, active, CreateWorkSprintDto, UpdateWorkSprintDto, create_sprint, update_sprint,
  new_sprint, patched_sprint, completed, assert_sprint_dates, assert_no_active_sprint,
  check_activation,
}
use nola_hq_backend.WorkItems.Planning.Sprints.Invariant.{
  OneActive, DatesOrdered, create_sprint-OneActive, update_sprint-OneActive,
}
use nola_hq_backend.WorkItems.Hierarchy.{
  HierarchyNode, HierarchyViolation, cycle, check_parent, lineage_of, climb, allowed_parent_types,
}
use nola_hq_backend.WorkItems.Hierarchy.Walk.{check_parent_total}
use nola_hq_backend.WorkItems.Hierarchy.Legal.{
  Parent, reparent, check_parent-IsAcyclic, check_parent-cycle_sound,
}
use nola_hq_backend.WorkItems.Hierarchy.Lineage.{IsLineage, lineage_of_lem}
use nola_hq_backend.Tests.Items.{three}

abbrev start : DependencyTables
start = record { items = three; dependencies = []; events = [] }

abbrev first : WorkItemDependency
first = record { id = "a"; work_item_id = 1; depends_on_id = 2; created_at = 5 }

start_IsAcyclic : IsAcyclic (DependsOn [])
start_IsAcyclic a b s p = absurd s

abbrev after_first : DependencyTables
after_first = record {
  items = three;
  dependencies = first ∷ [];
  events =
      record { work_item_id = 1; actor = "ana"; action = dependency_added 2; created_at = 5 } ∷ [];
}

first_added : add_dependency start 2 1 2 "ana" "a" 5 ≡ some (ok (after_first, first))
unfolding add_dependency reaches reach_loop
first_added = refl

first_IsAcyclic : IsAcyclic (DependsOn (first ∷ []))
first_IsAcyclic =
    add_dependency-IsAcyclic start after_first 2 1 2 "ana" "a" 5 first start_IsAcyclic refl
      first_added

abbrev second : WorkItemDependency
second = record { id = "b"; work_item_id = 2; depends_on_id = 3; created_at = 6 }

abbrev after_second : DependencyTables
after_second = record {
  items = three;
  dependencies = first ∷ second ∷ [];
  events =
      record { work_item_id = 1; actor = "ana"; action = dependency_added 2; created_at = 5 }
      ∷ record { work_item_id = 2; actor = "ana"; action = dependency_added 3; created_at = 6 }
      ∷ [];
}

second_added : add_dependency after_first 3 2 3 "ana" "b" 6 ≡ some (ok (after_second, second))
unfolding add_dependency reaches reach_loop
second_added = refl

add_dependency-IsAcyclic_example : IsAcyclic (DependsOn (first ∷ second ∷ []))
add_dependency-IsAcyclic_example =
    add_dependency-IsAcyclic after_first after_second 3 2 3 "ana" "b" 6 second first_IsAcyclic refl
      second_added

abbrev without : DependencyTables
without = record {
  items = three;
  dependencies = [];
  events =
      record { work_item_id = 1; actor = "ana"; action = dependency_added 2; created_at = 5 }
      ∷ record { work_item_id = 1; actor = "ana"; action = dependency_removed 2; created_at = 8 }
      ∷ [];
}

removed : remove_dependency after_first "a" "ana" 8 ≡ ok without
unfolding remove_dependency
removed = refl

still_acyclic : IsAcyclic (DependsOn [])
still_acyclic = remove_dependency-IsAcyclic after_first without "a" "ana" 8 first_IsAcyclic removed

reaches_decides_example :
    (b : Bool) × (reaches (first ∷ second ∷ []) 4 1 3 ≡ some b)
    × ((b ≡ true) ↔ Reaches (DependsOn (first ∷ second ∷ [])) 1 3)
reaches_decides_example = reaches_decides (first ∷ second ∷ []) 1 3

abbrev sprint_dto : CreateWorkSprintDto
sprint_dto = record {
  project_id = "p";
  name = "One";
  goal = none;
  status = some active;
  start_date = some 20260101;
  end_date = some 20260114;
}

abbrev sprint : WorkSprint
sprint = new_sprint sprint_dto "s" 5

no_sprints : OneActive [] × DatesOrdered []
no_sprints = (λ p s t ms mt sa ta. absurd ms, λ s m. absurd m)

created : create_sprint ("p" ∷ []) [] sprint_dto "s" 5 ≡ ok (sprint ∷ [])
unfolding create_sprint assert_sprint_dates assert_no_active_sprint
created = refl

create_sprint-OneActive_example : OneActive (sprint ∷ []) × DatesOrdered (sprint ∷ [])
create_sprint-OneActive_example =
    create_sprint-OneActive ("p" ∷ []) [] (sprint ∷ []) sprint_dto "s" 5 created no_sprints

one_sprint : OneActive (sprint ∷ []) × DatesOrdered (sprint ∷ [])
one_sprint = create_sprint-OneActive ("p" ∷ []) [] (sprint ∷ []) sprint_dto "s" 5 created no_sprints

abbrev closing_dto : UpdateWorkSprintDto
closing_dto = record {
  name = none;
  goal = none;
  status = some completed;
  start_date = none;
  end_date = some (some 20260120);
}

closed_sprint :
    update_sprint (sprint ∷ []) "s" closing_dto 6 ≡ ok (patched_sprint sprint closing_dto 6 ∷ [])
unfolding update_sprint assert_sprint_dates check_activation
closed_sprint = refl

update_sprint-OneActive_example :
    OneActive (patched_sprint sprint closing_dto 6 ∷ [])
    × DatesOrdered (patched_sprint sprint closing_dto 6 ∷ [])
update_sprint-OneActive_example =
    update_sprint-OneActive (sprint ∷ []) (patched_sprint sprint closing_dto 6 ∷ []) "s" closing_dto
      6 closed_sprint one_sprint

-- The nodes of an epic, a story of it and a task of the story.
abbrev node : ℕ → WorkItemType → Option ℕ → HierarchyNode
node id type parent = record { id = id; type = type; parent_id = parent }

abbrev nodes : List HierarchyNode
nodes = node 1 epic none ∷ node 2 story (some 1) ∷ node 3 task (some 2) ∷ []

abbrev look : ℕ → Option HierarchyNode
look i = find (λ (n : HierarchyNode). n.id == i) nodes

look_finite : (i : ℕ) (n : HierarchyNode) → look i ≡ some n → In i (1 ∷ 2 ∷ 3 ∷ [])
look_finite i n h =
    let (m, same) = find_sound (λ (n : HierarchyNode). n.id == i) nodes h in
    let e : n.id ≡ i = beq→eq n.id i same in pick n m e
  where
    pick : (n : HierarchyNode) → In n nodes → n.id ≡ i → In i (1 ∷ 2 ∷ 3 ∷ [])
    pick n (inl q) e = inl (cc)
    pick n (inr (inl q)) e = inr (inl (cc))
    pick n (inr (inr (inl q))) e = inr (inr (inl (cc)))
    pick n (inr (inr (inr q))) e = absurd q

check_parent_total_example :
    (v : Option HierarchyViolation) × (check_parent look 4
        (node 4 task none)
        (some (node 2 story (some 1)))
      ≡ some v)
check_parent_total_example =
    check_parent_total look (1 ∷ 2 ∷ 3 ∷ []) look_finite (node 4 task none)
      (some (node 2 story (some 1)))

lineage_of_lem_example :
    (chain : List HierarchyNode) × (lineage_of look 4 (node 3 task (some 2)) ≡ some chain)
    × IsLineage look (3 ∷ []) (some 2) chain
lineage_of_lem_example = lineage_of_lem look (1 ∷ 2 ∷ 3 ∷ []) look_finite (node 3 task (some 2))

-- An epic and a story that stand alone.
abbrev apart : ℕ → Option HierarchyNode
apart i =
    if 1 == i then some (node 1 epic none) else if 2 == i then some (node 2 story none) else none

apart_IsAcyclic : IsAcyclic (Parent apart)
apart_IsAcyclic a b s p = ground arith

adopted : check_parent apart 3 (node 2 story none) (some (node 1 epic none)) ≡ some none
unfolding check_parent climb allowed_parent_types
adopted = refl

check_parent-IsAcyclic_example :
    IsAcyclic (Parent (reparent apart (node 2 story none) (some (node 1 epic none))))
check_parent-IsAcyclic_example =
    check_parent-IsAcyclic apart 3 (node 2 story none) (some (node 1 epic none))
      (λ p h. ground arith) apart_IsAcyclic adopted

-- An epic stored below a story.
abbrev wrong : ℕ → Option HierarchyNode
wrong i =
    if 1 == i
    then some (node 1 epic (some 2))
    else if 2 == i
    then some (node 2 story none)
    else none

refused :
    check_parent wrong 3 (node 2 story none) (some (node 1 epic (some 2)))
    ≡ some (some (cycle (1 ∷ 2 ∷ [])))
unfolding check_parent climb allowed_parent_types
refused = refl

check_parent-cycle_sound_example : Reaches (Parent wrong) 1 2
check_parent-cycle_sound_example =
    check_parent-cycle_sound wrong 3 (node 2 story none) (node 1 epic (some 2)) (1 ∷ 2 ∷ []) refl
      refused
