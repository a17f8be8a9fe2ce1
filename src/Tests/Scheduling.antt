-- ===== src/Tests/Scheduling.antt =====
-- The theorems of `Scheduler` at small inputs.
use distributed_task_system.Common.{
  ◌+◌, ◌≤◌, String, ◌≡◌, refl, true, false, Option, none, some, List, [], ◌∷◌, ◌++◌, arith, All,
  pos, Dict, find, values,
}
use distributed_task_system.Redis.Keys.{k_tasks}
use distributed_task_system.Redis.Memory.{memory, empty_memory, memory_laws}
use distributed_task_system.Scheduler.{Row, failed, find_row}
use distributed_task_system.Scheduler.Repository.{requeue_orphaned_tasks}
use distributed_task_system.Scheduler.Repository.Retries.{
  Call, failure, revert, retries, budget, retries-bounded,
}
use distributed_task_system.Scheduler.Repository.Ownership.{Requeued, NotOn, requeue_complete}
use distributed_task_system.Scheduler.Workers.{WorkerInfo, IsIndexed}
use distributed_task_system.Scheduler.Patrol.{patrol_round, patrol_clears_worker}
use distributed_task_system.Scheduler.Service.{
  UpdateTaskStatusRequest, World, runs, update_task_status,
}
use distributed_task_system.Scheduler.Service.Outcomes.{
  reported_row, retry_message, failure_outcome,
}
use distributed_task_system.Scheduler.Loop.{StreamEntry, broken, LoopState, delivered}
use distributed_task_system.Scheduler.Loop.{missing, run_round}
use distributed_task_system.Scheduler.Loop.Bounds.{run_round-bounded}
use distributed_task_system.Scheduler.Loop.Inflight.{
  IsBalanced, Event, round, call_ends, total_lost, run_events, inflight-IsBalanced,
}

-- A running task with one retry left.
abbrev one_row : Row
one_row = record {
  task_id = "t";
  job_id = "j";
  natural_id = "a";
  func_name = "print";
  func_params = "";
  priority = 1;
  state = 1;
  max_retry = 2;
  retry_count = 1;
  timeout_ms = 1000;
  submit_ts = 7;
  worker_id = some "w";
  start_ts = some 8;
  finish_ts = none;
  error_msg = none;
  result = none;
}

abbrev some_calls : List Call
some_calls = failure true 9 "t" "e" ∷ revert true "t" ∷ failure true 10 "t" "e" ∷ []

retries-bounded_example : retries "t" some_calls (one_row ∷ []) ≤ budget "t" (one_row ∷ [])
retries-bounded_example = retries-bounded "t" some_calls (one_row ∷ [])

requeue_complete_example :
    let (n, rows') = requeue_orphaned_tasks true "w" (one_row ∷ []) in
    Requeued "w" (one_row ∷ []) rows' n × All (NotOn "w") rows'
requeue_complete_example = requeue_complete "w" (one_row ∷ [])

-- A worker that was last heard of at time 10, and one at time 50.
abbrev late_worker : WorkerInfo
late_worker = record {
  worker_id = "v";
  address = "v:1";
  last_heartbeat_time = 10;
  running_task_count = pos 3;
}

abbrev two_workers : Dict WorkerInfo
two_workers =
    ("v", late_worker)
    ∷ ("w", record late_worker { worker_id = "w"; last_heartbeat_time = 50 })
    ∷ []

two_workers-IsIndexed : IsIndexed two_workers
unfolding IsIndexed find
two_workers-IsIndexed = (refl, refl, (refl, refl, tt))

abbrev failed_report : UpdateTaskStatusRequest
failed_report = record {
  task_id = "t";
  final_state = failed;
  job_id = "j";
  error_msg = "e";
  result_json = "";
  worker_id = "";
}

abbrev small_world : World memory
small_world = record { store = empty_memory; queue = []; rows = one_row ∷ [] }

abbrev no_parse : String → Option String
no_parse params = none

failure_outcome_example :
    let w' = update_task_status memory runs true true true no_parse 9 failed_report small_world in
    (find_row "t" w'.rows ≡ some (reported_row 9 "e" one_row))
    × (memory.entries w'.store k_tasks
        ≡ memory.entries empty_memory k_tasks ++ retry_message true one_row)
    × (w'.queue ≡ [])
unfolding find_row
failure_outcome_example =
    failure_outcome memory memory_laws no_parse 9 failed_report runs true small_world one_row ""
      refl refl refl refl

abbrev all_workers : Dict WorkerInfo → List WorkerInfo
all_workers workers = values workers

abbrev some_message : String → StreamEntry
some_message id = record { stream_id = id; fields = ("task_id", "t") ∷ [] }

-- The connection breaks at the first message of the pull.
abbrev some_events : List (Event (λ k. broken) some all_workers)
some_events =
    round none ((false, some_message "1-0") ∷ (false, some_message "2-0") ∷ [])
    ∷ call_ends 0 delivered true
    ∷ []

abbrev idle : LoopState
idle = record { inflight = 0; workers = two_workers; acked = []; dispatches = [] }

inflight-IsBalanced_example :
    IsBalanced
      (0 + total_lost (λ k. broken) some all_workers some_events (idle, []))
      (run_events (λ k. broken) some all_workers some_events (idle, [])).0
inflight-IsBalanced_example =
    inflight-IsBalanced (λ k. broken) some all_workers some_events 0 (idle, []) refl

patrol_clears_worker_example :
    let (workers', rows') =
      patrol_round false 30 60 true (two_workers, record one_row { worker_id = some "v" } ∷ []) in
    (find "v" workers' ≡ none) × All (NotOn "v") rows'
unfolding find
patrol_clears_worker_example =
    patrol_clears_worker 30 60 two_workers (record one_row { worker_id = some "v" } ∷ []) "v"
      late_worker two_workers-IsIndexed refl refl

run_round-bounded_example :
    (run_round
      (λ k. missing)
      some
      none
      all_workers
      ((false, some_message "1-0") ∷ [])
      (record idle { inflight = 2000 })).inflight
    ≤ 2070
run_round-bounded_example =
    run_round-bounded (λ k. missing) some none all_workers ((false, some_message "1-0") ∷ [])
      (record idle { inflight = 2000 }) (omega arith) (omega arith) (omega arith)
