-- ===== src/Scheduler/Service.antt =====
-- The gRPC handlers of src/scheduler/src/scheduler_service_impl.cpp.
pub mod Outcomes
use distributed_task_system.Common.{
  ℕ, String, Bool, true, false, ◌||◌, Option, none, some, List, [], ◌∷◌, str_eq, if◌then◌else◌, ℤ,
  Dict,
}
use distributed_task_system.Redis.{Redis, Fields, text}
use distributed_task_system.Redis.Keys.{k_tasks}
use distributed_task_system.CompleteTask.{complete_task}
use distributed_task_system.Workflow.Progress.{script_call}
use distributed_task_system.Scheduler.{TaskState, success, Row}
use distributed_task_system.Scheduler.Repository.{handle_task_failure, get_task_by_id}
use distributed_task_system.Scheduler.Batcher.{TaskUpdateOp, add_status_update}
use distributed_task_system.Scheduler.Workers.{WorkerInfo, handle_register, handle_heartbeat}

-- The header of a response: no error, or SYS_INVALID_PARAM with a message.
pub data Header : Type 0 where
  no_error : Header
  invalid_param : String → Header

unfoldable pub register : ℕ → String → String → Dict WorkerInfo → Header × Dict WorkerInfo
register now worker_id address workers =
    if str_eq worker_id "" || str_eq address ""
    then (invalid_param "worker_id or address is empty", workers)
    else (no_error, handle_register now worker_id address workers)

unfoldable pub heartbeat : ℕ → String → ℤ → Dict WorkerInfo → Header × Dict WorkerInfo
heartbeat now worker_id running workers =
    let (known, workers') = handle_heartbeat now worker_id running workers in
    if known
    then (no_error, workers')
    else (invalid_param "Worker not found. Please re-register.", workers')

pub record UpdateTaskStatusRequest : Type 0 where
  pub task_id : String
  pub final_state : TaskState
  pub job_id : String
  pub error_msg : String
  pub result_json : String
  pub worker_id : String

-- TaskSerializer::ToXAddArgs.
abbrev pub to_x_add_args : String → String → Fields
to_x_add_args task_id job_id = ("id", text task_id) ∷ ("job", text job_id) ∷ []

-- How EnsureScriptLoaded and EvalSha go: SCRIPT LOAD throws, EVALSHA fails, or the script runs.
pub data Script : Type 0 where
  not_loaded : Script
  not_run : Script
  runs : Script

abbrev pub is_success : TaskState → Bool
is_success success = true
is_success _ = false

abbrev pub status_op : UpdateTaskStatusRequest → TaskUpdateOp
status_op q = record {
  task_id = q.task_id;
  state = q.final_state;
  result_json = q.result_json;
  error_msg = q.error_msg;
  worker_id = q.worker_id;
}

module _ (r : Redis) where
  -- What the handler reaches: the store, the queue of the DbBatcher, and the table task.
  pub record World : Type 0 where
    pub store : r.Store
    pub queue : List TaskUpdateOp
    pub rows : List Row

  -- Branch 1. With `not_loaded` the exception leaves the handler.
  unfoldable pub report_success : Script → UpdateTaskStatusRequest → World → World
  report_success not_loaded q w = w
  report_success not_run q w = record w { queue = (add_status_update (status_op q) w.queue).1 }
  report_success runs q w = record w {
    store = (complete_task r (script_call q.task_id q.job_id) w.store).0;
    queue = (add_status_update (status_op q) w.queue).1;
  }

  -- The result of XAdd is not looked at: without `sends` it has failed.
  abbrev pub push_retry : Bool → Option Row → World → World
  push_retry _ none w = w
  push_retry false (some t) w = w
  push_retry true (some t) w = record w {
    store = r.xadd w.store k_tasks (to_x_add_args t.task_id t.job_id);
  }

  -- Branch 2: `updates` and `reads` tell whether its two transactions can be run.
  unfoldable pub report_failure :
      Bool → Bool → Bool → (String → Option String) → ℕ → UpdateTaskStatusRequest → World → World
  report_failure updates reads sends parse now q w =
      let (need_retry, rows) = handle_task_failure updates now q.task_id q.error_msg w.rows in
      let w' = record w { rows = rows } in
      if need_retry then push_retry sends (get_task_by_id reads parse q.task_id rows) w' else w'

  unfoldable pub update_task_status :
      Script
      → Bool
      → Bool
      → Bool
      → (String → Option String)
      → ℕ
      → UpdateTaskStatusRequest
      → World
      → World
  update_task_status script updates reads sends parse now q w =
      if str_eq q.task_id ""
      then w
      else if is_success q.final_state
      then report_success script q w
      else report_failure updates reads sends parse now q w
