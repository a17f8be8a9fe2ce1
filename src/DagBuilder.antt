-- ===== src/DagBuilder.antt =====
-- DagBuilder of src/client/src/dag_builder.cpp.
pub mod Search
pub mod Acyclic
pub mod Fuel
pub mod Building
pub mod Cycle
use distributed_task_system.Common.{
  ℕ, zero, suc, ◌>>=◌, String, ◌≡◌, Bool, true, false, not, Option, none, some, List, [], ◌∷◌, ◌++◌,
  map, arith, str_eq, ◌==◌, if◌then◌else◌, get_or, is_some, length, Dict, find, put, keys, values,
  find-put,
}

pub record TaskEdge : Type 0 where
  pub parent_natural_id : String
  pub child_natural_id : String

-- tasks_map_ over what a task holds, and task_edges_.
pub record Builder (Task : Type 0) : Type 0 where
  pub idempotency_key : String
  pub tasks_map : Dict Task
  pub task_edges : List TaskEdge

-- The exceptions that are thrown.
pub data Failure : Type 0 where
  empty_key : Failure
  repeated_task : Failure
  self_dependency : Failure
  no_parent : Failure
  no_child : Failure
  cycle : Failure

pub data Result (A : Type 0) : Type 0 where
  fine : A → Result A
  error : Failure → Result A

module _ {Task : Type 0} where
  unfoldable pub new_builder : String → Result (Builder Task)
  new_builder key =
      if str_eq key ""
      then error empty_key
      else fine (record { idempotency_key = key; tasks_map = []; task_edges = [] })

  unfoldable pub add_task : String → Task → Builder Task → Result (Builder Task)
  add_task natural_id t b =
      if is_some (find natural_id b.tasks_map)
      then error repeated_task
      else fine (record b { tasks_map = put natural_id t b.tasks_map })

  unfoldable pub add_dependency : String → String → Builder Task → Result (Builder Task)
  add_dependency p c b =
      if str_eq p c
      then error self_dependency
      else if not (is_some (find p b.tasks_map))
      then error no_parent
      else if not (is_some (find c b.tasks_map))
      then error no_child
      else fine (record b {
        task_edges = b.task_edges ++ record { parent_natural_id = p; child_natural_id = c } ∷ [];
      })

abbrev pub children_in : Dict (List String) → String → List String
children_in adj u = get_or (find u adj) []

-- adj[parent].push_back(child) for each edge.
unfoldable pub build_adj : List TaskEdge → Dict (List String) → Dict (List String)
build_adj [] adj = adj
build_adj (e ∷ es) adj =
    build_adj es
      (put e.parent_natural_id (children_in adj e.parent_natural_id ++ e.child_natural_id ∷ []) adj)

-- visited[u]: a name that is not there reads as 0.
abbrev pub colour : Dict ℕ → String → ℕ
colour visited u = get_or (find u visited) 0

pub colour-put :
    (u : String) (n : ℕ) (visited : Dict ℕ) (x : String)
    → colour (put u n visited) x ≡ (if str_eq u x then n else colour visited x)
colour-put u n visited x = ground (arith, find-put u x n visited)

-- The loop over the neighbours, over the recursive call.
unfoldable pub scan :
    (String → Dict ℕ → Option (Bool × Dict ℕ)) → List String → Dict ℕ → Option (Bool × Dict ℕ)
scan visit [] visited = some (false, visited)
scan visit (v ∷ vs) visited =
    if colour visited v == 1
    then some (true, visited)
    else if colour visited v == 0
    then (visit v visited >>= λ r. if r.0 then some (true, r.1) else scan visit vs r.1)
    else scan visit vs visited

-- visited[u] = 2 behind the loop.
abbrev pub finish : String → Bool × Dict ℕ → Bool × Dict ℕ
finish u (found, visited) = if found then (true, visited) else (false, put u 2 visited)

-- HasCycleDFS; `none` is for too little fuel.
unfoldable pub has_cycle_dfs : Dict (List String) → ℕ → String → Dict ℕ → Option (Bool × Dict ℕ)
has_cycle_dfs adj zero u visited = none
has_cycle_dfs adj (suc fuel) u visited =
    scan (has_cycle_dfs adj fuel) (children_in adj u) (put u 1 visited) >>= λ r. some (finish u r)

-- The loop of ValidateCycle over the names of the tasks.
unfoldable pub search_all : Dict (List String) → ℕ → List String → Dict ℕ → Option (Bool × Dict ℕ)
search_all adj fuel [] visited = some (false, visited)
search_all adj fuel (u ∷ us) visited =
    if colour visited u == 0
    then (has_cycle_dfs adj fuel u visited >>= λ r.
        if r.0 then some (true, r.1) else search_all adj fuel us r.1)
    else search_all adj fuel us visited

unfoldable pub all_white : List String → Dict ℕ
all_white [] = []
all_white (u ∷ us) = put u 0 (all_white us)

-- ValidateCycle: whether a cycle has been found. A call for each task is enough.
unfoldable pub validate_cycle : {Task : Type 0} → Builder Task → Option Bool
validate_cycle b =
    let names = keys b.tasks_map in
    search_all (build_adj b.task_edges []) (suc (length names)) names (all_white names) >>= λ r.
    some r.0

-- TaskToProto for each task, and the edges.
pub record Request (Proto : Type 0) : Type 0 where
  pub idempotency_key : String
  pub tasks : List Proto
  pub edges : List TaskEdge

-- BuildProto; `none` is for too little fuel.
unfoldable pub build_proto :
    {Task Proto : Type 0} → (Task → Proto) → Builder Task → Option (Result (Request Proto))
build_proto task_to_proto b = validate_cycle b >>= λ found. some (
    if found
    then error cycle
    else fine (record {
      idempotency_key = b.idempotency_key;
      tasks = map task_to_proto (values b.tasks_map);
      edges = b.task_edges;
    }))
