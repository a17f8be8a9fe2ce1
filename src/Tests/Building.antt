-- ===== src/Tests/Building.antt =====
-- The theorems of `DagBuilder` at two tasks, the first before the second.
use distributed_task_system.Common.{
  ℕ, ◌<◌, String, ◌≡◌, refl, ◌⊎◌, true, false, some, List, [], ◌∷◌, ◌++◌, arith, find, put,
}
use distributed_task_system.DagBuilder.{
  add_task, add_dependency, Builder, build_adj, scan, has_cycle_dfs, search_all, all_white,
  validate_cycle,
}
use distributed_task_system.DagBuilder.Acyclic.{edge_in, Walk}
use distributed_task_system.DagBuilder.Cycle.{validate_cycle_decides}
use distributed_task_system.DagBuilder.Building.{
  Call, task_added, dependency_added, apply_all, IsClosed, apply_all-IsClosed,
}

abbrev empty_builder : Builder String
empty_builder = record { idempotency_key = "key"; tasks_map = []; task_edges = [] }

abbrev two_tasks : Builder String
two_tasks = record {
  idempotency_key = "key";
  tasks_map = ("a", "print") ∷ ("b", "print") ∷ [];
  task_edges = record { parent_natural_id = "a"; child_natural_id = "b" } ∷ [];
}

-- With an edge back the search finds the cycle.
finds_cycle :
    validate_cycle (record two_tasks {
      task_edges =
          two_tasks.task_edges ++ record { parent_natural_id = "b"; child_natural_id = "a" } ∷ [];
    })
    ≡ some true
unfolding validate_cycle search_all has_cycle_dfs scan build_adj all_white find put
finds_cycle = refl

abbrev some_calls : List (Call String)
some_calls =
    task_added "a" "print"
    ∷ task_added "b" "print"
    ∷ dependency_added "a" "b"
    ∷ dependency_added "a" "a"
    ∷ dependency_added "a" "z"
    ∷ []

no_edges-IsClosed : IsClosed empty_builder
unfolding edge_in
no_edges-IsClosed p c h = ground (arith, h)

two_tasks-IsClosed : IsClosed two_tasks
unfolding apply_all add_task add_dependency find put
two_tasks-IsClosed =
    apply_all-IsClosed
      (task_added "a" "print" ∷ task_added "b" "print" ∷ dependency_added "a" "b" ∷ [])
      empty_builder no_edges-IsClosed

validate_cycle_decides_example :
    ((validate_cycle two_tasks ≡ some true) × ((x : String) × Walk two_tasks.task_edges x x))
    ⊎ ((validate_cycle two_tasks ≡ some false)
        × ((x : String) → ¬ Walk two_tasks.task_edges x x)
        × ((level : String → ℕ) × ((p c : String)
              → edge_in two_tasks.task_edges p c ≡ true
              → level p < level c)))
validate_cycle_decides_example = validate_cycle_decides two_tasks two_tasks-IsClosed
