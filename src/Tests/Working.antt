-- ===== src/Tests/Working.antt =====
-- The theorems of `WorkerNode` at a node with one thread that knows one function.
use distributed_task_system.Common.{
  ℕ, ◌+◌, String, ◌≡◌, refl, Bool, false, some, List, [], ◌∷◌, map, arith, ℤ, pos, ◌+ℤ◌, Dict, find,
}
use distributed_task_system.Redis.Memory.{memory, empty_memory}
use distributed_task_system.Workflow.Progress.{complete_run}
use distributed_task_system.Scheduler.Service.{UpdateTaskStatusRequest, World, status_op}
use distributed_task_system.WorkerNode.Driving.{
  Succeeds, handle_reports, reports_of, successes_complete,
}
use distributed_task_system.Converters.Json.{Json}
use distributed_task_system.ThreadPool.{
  Job, Phase, Worker, ThreadPool, waiting, popped, running, ran, new_thread_pool, enqueue,
  set_worker, pop_task, loop_step, advances,
}
use distributed_task_system.ThreadPool.Counts.{total, held}
use distributed_task_system.ThreadPool.Ending.{IsStuck}
use distributed_task_system.Scheduler.{success}
use distributed_task_system.Scheduler.Workers.{WorkerInfo, timed_out}
use distributed_task_system.WorkerNode.{
  Outcome, returns, TaskHandler, get_handler, status_request, execute, Node, on_task_received,
}
use distributed_task_system.WorkerNode.Reports.{
  NodeReaches, at_first, receives, pool_moves, Closure, of_task, of_job, of_report, reports,
  received_reported,
}
use distributed_task_system.WorkerNode.Heartbeat.{arrives, heartbeat_round, heartbeat_round_heals}
use distributed_task_system.Tests.Conversions.{finished}

abbrev handler : TaskHandler
handler params = returns "done"

abbrev registry : Dict TaskHandler
registry = ("process_data", handler) ∷ []

abbrev dump : Json ℕ → Outcome
dump j = returns "{}"

abbrev job : Job (Closure ℕ ℕ)
job = record { captured_ctx_id = "r1"; task = (finished, handler) }

abbrev pool_at :
    Phase (Closure ℕ ℕ)
    → String
    → List (Job (Closure ℕ ℕ))
    → Bool
    → ℤ
    → ℤ
    → List (String × Job (Closure ℕ ℕ))
    → ThreadPool (Closure ℕ ℕ)
pool_at ph id tasks stop queued active executed = record {
  workers = record { phase = ph; req_id = id } ∷ [];
  tasks = tasks;
  stop = stop;
  queue_size_gauge = queued;
  active_threads_gauge = active;
  executed = executed;
}

abbrev node_at :
    Phase (Closure ℕ ℕ)
    → String
    → List (Job (Closure ℕ ℕ))
    → Bool
    → ℤ
    → ℤ
    → List (String × Job (Closure ℕ ℕ))
    → Node ℕ ℕ
node_at ph id tasks stop queued active executed = record {
  thread_pool = pool_at ph id tasks stop queued active executed;
  sent = [];
}

abbrev log : List (String × Job (Closure ℕ ℕ))
log = ("r1", job) ∷ []

abbrev over : Node ℕ ℕ
over = node_at waiting "" [] false (pos 0) (pos 0) log

NodeReaches-over : NodeReaches registry "w1" 1 (finished ∷ []) over
unfolding new_thread_pool on_task_received get_handler find enqueue loop_step pop_task set_worker
    ◌+ℤ◌
NodeReaches-over =
    pool_moves (finished ∷ []) (node_at ran "r1" [] false (pos 0) (pos 1) log) over.thread_pool
      (pool_moves (finished ∷ []) (node_at (running job) "" [] false (pos 0) (pos 1) [])
        (pool_at ran "r1" [] false (pos 0) (pos 1) log)
        (pool_moves (finished ∷ []) (node_at (popped job) "" [] false (pos 0) (pos 0) [])
          (pool_at (running job) "" [] false (pos 0) (pos 1) [])
          (pool_moves (finished ∷ []) (node_at waiting "" (job ∷ []) false (pos 1) (pos 0) [])
            (pool_at (popped job) "" [] false (pos 0) (pos 0) [])
            (receives "r1" finished [] (node_at waiting "" [] false (pos 0) (pos 0) []) at_first)
            (advances 0 _ _ _ refl refl) refl)
          (advances 0 _ _ _ refl refl) refl)
        (advances 0 _ _ _ refl refl) refl)
      (advances 0 _ _ _ refl refl) refl

received_reported_example :
    (total (of_report (λ id. 1)) (reports dump over)
        + total
            (λ (w : Worker (Closure ℕ ℕ)). held (of_job (λ id. 1)) w.phase)
            over.thread_pool.workers
        + total (of_job (λ id. 1)) over.thread_pool.tasks
      ≡ total (of_task (λ id. 1)) (finished ∷ []))
    × (IsStuck over.thread_pool
        → total (of_report (λ id. 1)) (reports dump over)
          ≡ total (of_task (λ id. 1)) (finished ∷ []))
received_reported_example =
    received_reported dump registry "w1" (λ id. 1) 1 (finished ∷ []) over NodeReaches-over
      (omega arith)

-- The handler's result is reported, with an empty worker_id.
over_report : reports dump over ≡ status_request "t1" success "j1" "" "done" "" ∷ []
unfolding execute
over_report = refl

abbrev no_worker : Dict WorkerInfo
no_worker = []

-- A scheduler that has lost its workers knows this one again after a round.
heartbeat_round_heals_example :
    (w : WorkerInfo) × (find "w1" (heartbeat_round arrives arrives 100 "w1" "host:1" no_worker)
      ≡ some w)
    × (w.last_heartbeat_time ≡ 100)
    × (w.running_task_count ≡ pos 0)
    × (timed_out 15 110 w ≡ false)
heartbeat_round_heals_example =
    heartbeat_round_heals arrives arrives 100 110 15 "w1" "host:1" no_worker refl refl refl
      (omega arith)

abbrev world : World memory
world = record { store = empty_memory; queue = []; rows = [] }

abbrev one_report : List (ℕ × Closure ℕ ℕ)
one_report = (7, (finished, handler)) ∷ []

finished-Succeeds : Succeeds dump finished.job_id (finished, handler)
finished-Succeeds = record { of_job = refl; has_id = refl; result = "done"; ends = refl }

successes_complete_example :
    handle_reports memory some (reports_of dump one_report) world ≡ record {
      store = complete_run memory finished.job_id (finished.task_id ∷ []) empty_memory;
      queue = map (λ (e : ℕ × UpdateTaskStatusRequest). status_op e.1) (reports_of dump one_report);
      rows = [];
    }
successes_complete_example =
    successes_complete dump memory some finished.job_id one_report world (finished-Succeeds, tt)
