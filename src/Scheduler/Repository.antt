-- ===== src/Scheduler/Repository.antt =====
-- TaskRepository of src/scheduler/src/task_repository.cpp. `connected` is false where ExecuteTx throws.
pub mod Retries
pub mod Ownership
use distributed_task_system.Common.{
  ℕ, suc, ◌>>=◌, ◌>>◌, String, Bool, true, false, not, ◌&&◌, Option, none, some, List, [], ◌∷◌,
  str_eq, ltb, ◌==◌, if◌then◌else◌, take, select,
}
use distributed_task_system.Scheduler.{Row, find_row, update_where, affected_rows}

abbrev pub is_task : String → Row → Bool
is_task id r = str_eq r.task_id id

abbrev pub retry_row : String → Row → Row
retry_row error r = record r {
  state = 0;
  retry_count = suc r.retry_count;
  worker_id = none;
  start_ts = none;
  finish_ts = none;
  error_msg = some error;
}

abbrev pub fail_row : ℕ → String → Row → Row
fail_row now error r = record r { state = 3; finish_ts = some now; error_msg = some error }

-- HandleTaskFailure after its SELECT.
abbrev decide_failure : ℕ → String → String → List Row → Option Row → Bool × List Row
decide_failure now id error rows none = (false, rows)
decide_failure now id error rows (some r) =
    if ltb r.retry_count r.max_retry
    then (true, update_where (is_task id) (retry_row error) rows)
    else (false, update_where (is_task id) (fail_row now error) rows)

unfoldable pub handle_task_failure : Bool → ℕ → String → String → List Row → Bool × List Row
handle_task_failure connected now id error rows =
    if connected then decide_failure now id error rows (find_row id rows) else (false, rows)

-- The columns that GetTaskById reads; `parse` is nlohmann::json::parse, which may throw.
unfoldable pub get_task_by_id : Bool → (String → Option String) → String → List Row → Option Row
get_task_by_id connected parse id rows = if not connected then none else (do
  r ← find_row id rows
  params ← if str_eq r.func_params "" then some "" else parse r.func_params
  some (record r { func_params = params }))

abbrev pub with_params : Row → Option String → List Row → List Row
with_params r none rest = []
with_params r (some params) rest = record r { func_params = params } ∷ rest

-- The loop of GetPendingTasks: parameters that cannot be parsed end it, with what it has so far.
unfoldable pub read_tasks : (String → Option String) → List Row → List Row
read_tasks parse [] = []
read_tasks parse (r ∷ rows) =
    with_params r (if str_eq r.func_params "" then some "" else parse r.func_params)
      (read_tasks parse rows)

-- GetPendingTasks: `sort` is ORDER BY priority DESC, submit_ts ASC.
unfoldable pub get_pending_tasks :
    Bool → (String → Option String) → (List Row → List Row) → ℕ → List Row → List Row
get_pending_tasks connected parse sort limit rows =
    if connected then read_tasks parse (take limit (sort (select (λ r. r.state == 0) rows))) else []

abbrev pub is_pending_task : String → Row → Bool
is_pending_task id r = str_eq r.task_id id && r.state == 0

abbrev pub running_row : ℕ → String → Row → Row
running_row now worker r = record r { state = 1; worker_id = some worker; start_ts = some now }

unfoldable pub update_task_to_running : Bool → ℕ → String → String → List Row → Bool × List Row
update_task_to_running connected now id worker rows =
    if connected
    then (
      affected_rows (is_pending_task id) rows == 1,
      update_where (is_pending_task id) (running_row now worker) rows,
    )
    else (false, rows)

abbrev pub pending_row : Row → Row
pending_row r = record r { state = 0; worker_id = none; start_ts = none }

unfoldable pub revert_task_to_pending : Bool → String → List Row → Bool × List Row
revert_task_to_pending connected id rows =
    if connected then (true, update_where (is_task id) pending_row rows) else (false, rows)

abbrev pub runs_on : String → Option String → Bool
runs_on worker none = false
runs_on worker (some w) = str_eq w worker

abbrev pub is_orphan : String → Row → Bool
is_orphan worker r = runs_on worker r.worker_id && r.state == 1

unfoldable pub requeue_orphaned_tasks : Bool → String → List Row → ℕ × List Row
requeue_orphaned_tasks connected worker rows =
    if connected
    then (affected_rows (is_orphan worker) rows, update_where (is_orphan worker) pending_row rows)
    else (0, rows)
