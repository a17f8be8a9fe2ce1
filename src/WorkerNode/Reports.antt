-- ===== src/WorkerNode/Reports.antt =====
-- Every task that a node receives is reported once: from its server, or from its pool.
use distributed_task_system.Common.{
  ℕ, ◌+◌, ◌<◌, String, ◌≡◌, refl, false, Option, none, some, List, [], ◌∷◌, ◌++◌, map, arith, Dict,
}
use Prim.Native.String.{◌++◌ as ◌<>◌}
use distributed_task_system.Scheduler.{failed}
use distributed_task_system.Converters.Json.{Json}
use distributed_task_system.Converters.Tasks.{Task}
use distributed_task_system.Scheduler.Service.{UpdateTaskStatusRequest}
use distributed_task_system.ThreadPool.{
  Job, Worker, ThreadPool, new_thread_pool, enqueue, Moves, enqueues, Reaches, at_start, then_moves,
}
use distributed_task_system.ThreadPool.Counts.{
  total, total-append, held, jobs_conserved, enqueued as enqueued_pool,
}
use distributed_task_system.ThreadPool.Ending.{IsStuck}
use distributed_task_system.ThreadPool.Idle.{idle_ran_every}
use distributed_task_system.WorkerNode.{
  Outcome, TaskHandler, get_handler, status_request, execute, Node, received, enqueued,
  on_task_received,
}

-- The nodes that one with n threads can become, with the tasks that it received in order: it receives
-- a task, or its pool moves by itself. The pool is stopped only by the destructor of the node, which
-- first destroys the client that the jobs report by: these nodes are alive, and their pools not stopped.
pub data NodeReaches {N D : Type 0} (registry : Dict TaskHandler) (worker_id : String) (n : ℕ)
    : List (Task N D) → Node N D → Type 0 where
  at_first :
      NodeReaches registry worker_id n [] (record { thread_pool = new_thread_pool n; sent = [] })
  receives :
      (req_id : String) (task : Task N D) (tasks : List (Task N D)) (node : Node N D)
      → NodeReaches registry worker_id n tasks node
      → NodeReaches registry worker_id n
          (tasks ++ task ∷ [])
          (on_task_received registry worker_id req_id task node)
  pool_moves :
      (tasks : List (Task N D)) (node : Node N D) (pool : ThreadPool (Task N D × TaskHandler))
      → NodeReaches registry worker_id n tasks node
      → Moves node.thread_pool [] pool
      → pool.stop ≡ false
      → NodeReaches registry worker_id n tasks (record node { thread_pool = pool })

abbrev pub Closure : Type 0 → Type 0 → Type 0
Closure N D = Task N D × TaskHandler

-- A weight of ids, for what carries the id of a task.
abbrev pub of_task : {N D : Type 0} → (String → ℕ) → Task N D → ℕ
of_task g t = g t.task_id

abbrev pub of_job : {N D : Type 0} → (String → ℕ) → Job (Closure N D) → ℕ
of_job g j = g j.task.0.task_id

abbrev pub of_report : (String → ℕ) → UpdateTaskStatusRequest → ℕ
of_report g q = g q.task_id

-- The tasks that were received are those that the server reported and those that the pool was given.
record Accounted {N D : Type 0} (g : String → ℕ) (n : ℕ) (tasks : List (Task N D)) (node : Node N D)
    : Type 0 where
  given : List (Job (Closure N D))
  reaches : Reaches n given node.thread_pool
  live : node.thread_pool.stop ≡ false
  adds_up : total (of_task g) tasks ≡ total (of_report g) node.sent + total (of_job g) given

enqueue_live :
    {Call : Type 0} (req_id : String) (task : Call) (p q : ThreadPool Call)
    → enqueue req_id task p ≡ some q
    → p.stop ≡ false
    → q.stop ≡ false
enqueue_live req_id task p q h live = rw (enqueued_pool req_id task p q h).1 live

module _ {N D : Type 0} (g : String → ℕ) where
  enqueued-Accounted :
      (worker_id req_id : String) (n : ℕ) (task : Task N D) (handler : TaskHandler)
      (tasks : List (Task N D)) (node : Node N D) (result : Option (ThreadPool (Closure N D)))
      → enqueue req_id (task, handler) node.thread_pool ≡ result
      → Accounted g n tasks node
      → Accounted g n (tasks ++ task ∷ []) (enqueued worker_id task result node)
  unfolding status_request
  enqueued-Accounted worker_id req_id n task handler tasks node none e a = record {
    given = a.given;
    reaches = a.reaches;
    live = a.live;
    adds_up = omega (
      arith,
      a.adds_up,
      total-append (of_task g) tasks (task ∷ []),
      total-append (of_report g) node.sent (
          status_request task.task_id failed task.job_id
            ("Enqueue failed: " <> "enqueue on stopped ThreadPool") worker_id ""
          ∷ []),
    );
  }
  enqueued-Accounted worker_id req_id n task handler tasks node (some pool) e a = record {
    given = a.given ++ record { captured_ctx_id = req_id; task = (task, handler) } ∷ [];
    reaches =
        then_moves a.given _ node.thread_pool pool a.reaches
          (enqueues req_id (task, handler) node.thread_pool pool e);
    live = enqueue_live req_id (task, handler) node.thread_pool pool e a.live;
    adds_up = omega (
      arith,
      a.adds_up,
      total-append (of_task g) tasks (task ∷ []),
      total-append (of_job g) a.given
          (record { captured_ctx_id = req_id; task = (task, handler) } ∷ []),
    );
  }

  received-Accounted :
      (worker_id req_id : String) (n : ℕ) (task : Task N D) (tasks : List (Task N D))
      (node : Node N D) (handler : Option TaskHandler)
      → Accounted g n tasks node
      → Accounted g n (tasks ++ task ∷ []) (received worker_id req_id task handler node)
  unfolding status_request
  received-Accounted worker_id req_id n task tasks node none a = record {
    given = a.given;
    reaches = a.reaches;
    live = a.live;
    adds_up = omega (
      arith,
      a.adds_up,
      total-append (of_task g) tasks (task ∷ []),
      total-append (of_report g) node.sent (
          status_request task.task_id failed task.job_id
            "Worker does not have this task function registered" worker_id ""
          ∷ []),
    );
  }
  received-Accounted worker_id req_id n task tasks node (some handler) a =
      enqueued-Accounted worker_id req_id n task handler tasks node _ refl a

module _ {N D : Type 0} (dump : Json N → Outcome) where
  -- The reports of a node: those of its server, and those of the jobs that its pool has run.
  abbrev pub reports : Node N D → List UpdateTaskStatusRequest
  reports node =
      node.sent
      ++ map (λ (e : String × Job (Closure N D)). execute dump e.1.task) node.thread_pool.executed

  module _ (registry : Dict TaskHandler) (worker_id : String) where
    NodeReaches-Accounted :
        (g : String → ℕ) (n : ℕ) (tasks : List (Task N D)) (node : Node N D)
        → NodeReaches registry worker_id n tasks node
        → Accounted g n tasks node
    unfolding on_task_received
    NodeReaches-Accounted g n tasks node at_first = record {
      given = [];
      reaches = at_start;
      live = unfold new_thread_pool in refl;
      adds_up = refl;
    }
    NodeReaches-Accounted g n _ _ (receives req_id task tasks node r) =
        received-Accounted g worker_id req_id n task tasks node
          (get_handler task.func_name registry) (NodeReaches-Accounted g n tasks node r)
    NodeReaches-Accounted g n tasks _ (pool_moves _ node pool r m live) =
        let a = NodeReaches-Accounted g n tasks node r in
        record {
          given = a.given ++ [];
          reaches = then_moves a.given [] node.thread_pool pool a.reaches m;
          live = live;
          adds_up = omega (arith, a.adds_up, total-append (of_job g) a.given []);
        }

    -- A report carries the id of its task.
    executed_weight :
        (g : String → ℕ) (es : List (String × Job (Closure N D)))
        → total (of_report g) (map (λ (e : String × Job (Closure N D)). execute dump e.1.task) es)
          ≡ total (λ (e : String × Job (Closure N D)). of_job g e.1) es
    unfolding execute status_request
    executed_weight g [] = refl
    executed_weight g (e ∷ es) = omega (arith, executed_weight g es)

    -- At any time, whatever weight is given to an id, the tasks that a live node received weigh as much
    -- as its reports, the jobs that its threads hold and those that wait in its pool: a task is
    -- reported once, or still to come, never lost or reported twice. When no thread of the pool, which
    -- has at least one, has a step, the reports weigh as much as the tasks.
    pub received_reported :
        (g : String → ℕ) (n : ℕ) (tasks : List (Task N D)) (node : Node N D)
        → NodeReaches registry worker_id n tasks node
        → 0 < n
        → (total (of_report g) (reports node)
              + total
                  (λ (w : Worker (Closure N D)). held (of_job g) w.phase)
                  node.thread_pool.workers
              + total (of_job g) node.thread_pool.tasks
            ≡ total (of_task g) tasks)
          × (IsStuck node.thread_pool
              → total (of_report g) (reports node) ≡ total (of_task g) tasks)
    received_reported g n tasks node r some_thread =
        let a = NodeReaches-Accounted g n tasks node r in
        let split = total-append (of_report g) node.sent (
          map (λ (e : String × Job (Closure N D)). execute dump e.1.task)
            node.thread_pool.executed) in
        let ran = executed_weight g node.thread_pool.executed in
        (
          omega (
            arith,
            a.adds_up,
            jobs_conserved (of_job g) n a.given node.thread_pool a.reaches,
            split,
            ran,
          ),
          λ stuck. omega (
            arith,
            a.adds_up,
            idle_ran_every (of_job g) n a.given node.thread_pool a.reaches some_thread a.live stuck,
            split,
            ran,
          ),
        )
