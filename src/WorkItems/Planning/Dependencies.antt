-- ===== src/WorkItems/Planning/Dependencies.antt =====
-- `addDependency`, `removeDependency` and `reaches` of src/work-items/work-planning.service.ts.
-- `reaches` takes fuel; `none` is a search that the fuel did not finish. `search_fuel` is one round
-- for each edge and one for the start: every row is followed at most once.
pub mod Search
pub mod Acyclic
use nola_hq_backend.Common.{
  ℕ, zero, suc, Bool, true, false, not, ◌||◌, ◌&&◌, Option, none, some, List, [], ◌∷◌, ◌++◌, map,
  ◌==◌, nat_eq, string_eq, option_eq, contains, filter, find, any, if◌then◌else◌, length, String,
  Result, ok, err, ◌>>=◌, ◌>>◌, throw_if, or_throw, bad_request, not_found, conflict, HttpError,
}
use nola_hq_backend.WorkItems.Types.{WorkItem, WorkItemEvent, dependency_added, dependency_removed}

pub record WorkItemDependency : Type 0 where
  pub id : String
  pub work_item_id : ℕ
  pub depends_on_id : ℕ
  pub created_at : ℕ

pub record DependencyTables : Type 0 where
  pub items : List WorkItem
  pub dependencies : List WorkItemDependency
  pub events : List WorkItemEvent

-- the targets of the rows that `find({ where: { workItemId: current } })` gives
abbrev pub targets : List WorkItemDependency → ℕ → List ℕ
targets edges current =
    map (λ (e : WorkItemDependency). e.depends_on_id)
      (filter (λ (e : WorkItemDependency). e.work_item_id == current) edges)

-- the `while` loop of `reaches`
unfoldable pub reach_loop : List WorkItemDependency → ℕ → ℕ → (seen queue : List ℕ) → Option Bool
reach_loop edges fuel target seen [] = some false
reach_loop edges zero target seen (current ∷ queue) = none
reach_loop edges (suc fuel) target seen (current ∷ queue) =
    let skip = reach_loop edges fuel target seen queue in
    let expand = reach_loop edges fuel target (current ∷ seen) (queue ++ targets edges current) in
    if current == target then some true else if contains seen current then skip else expand

unfoldable pub reaches : List WorkItemDependency → ℕ → ℕ → ℕ → Option Bool
unfolding reach_loop
reaches edges fuel from target = reach_loop edges fuel target [] (from ∷ [])

abbrev pub search_fuel : List WorkItemDependency → ℕ
search_fuel edges = suc (suc (length edges))

-- `none` is a search out of fuel; `new_id` is the uuid that the database draws
unfoldable pub add_dependency :
    DependencyTables
    → ℕ
    → (work_item_id depends_on_id : ℕ) → (actor new_id : String) → (now : ℕ)
    → Option (Result (DependencyTables × WorkItemDependency))
add_dependency t fuel work_item_id depends_on_id actor new_id now =
    if work_item_id == depends_on_id
    then some (err bad_request)
    else elim (find (λ (i : WorkItem). i.id == work_item_id) t.items) [
      | none ↦ some (err not_found)
      | some item ↦ elim (find (λ (i : WorkItem). i.id == depends_on_id) t.items) [
        | none ↦ some (err not_found)
        | some target ↦
            if not (item.project_id == target.project_id)
            then some (err bad_request)
            else if any
                (λ (e : WorkItemDependency).
                  e.work_item_id == work_item_id && e.depends_on_id == depends_on_id)
                t.dependencies
            then some (err conflict)
            else elim (reaches t.dependencies fuel depends_on_id work_item_id) [
              | none ↦ none
              | some true ↦ some (err conflict)
              | some false ↦
                  let dependency : WorkItemDependency = record {
                    id = new_id;
                    work_item_id = work_item_id;
                    depends_on_id = depends_on_id;
                    created_at = now;
                  } in
                  let event : WorkItemEvent = record {
                    work_item_id = work_item_id;
                    actor = actor;
                    action = dependency_added depends_on_id;
                    created_at = now;
                  } in
                  some (
                    ok (
                      record t {
                        dependencies = t.dependencies ++ dependency ∷ [];
                        events = t.events ++ event ∷ [];
                      },
                      dependency,
                    ))
            ]
      ]
    ]

unfoldable pub remove_dependency :
    DependencyTables → (id actor : String) → (now : ℕ) → Result DependencyTables
remove_dependency t id actor now =
    elim (find (λ (e : WorkItemDependency). e.id == id) t.dependencies) [
      | none ↦ err not_found
      | some dependency ↦
          let event : WorkItemEvent = record {
            work_item_id = dependency.work_item_id;
            actor = actor;
            action = dependency_removed dependency.depends_on_id;
            created_at = now;
          } in
          ok (record t {
            dependencies = filter (λ (e : WorkItemDependency). not (e.id == id)) t.dependencies;
            events = t.events ++ event ∷ [];
          })
    ]
