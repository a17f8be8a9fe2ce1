-- ===== src/ThreadPool.antt =====
-- ThreadPool of src/common/include/thread_pool.h. A step of a thread is its critical section, or what
-- it does up to the next change of a gauge. A job is what enqueue packs: its exceptions go to its
-- future. `executed` is the trace of the jobs that are run, each with the request id of the thread.
pub mod Steps
pub mod Counts
pub mod Gauges
pub mod Ending
pub mod Shutdown
pub mod Idle
use distributed_task_system.Common.{
  ℕ, zero, suc, String, ◌≡◌, Bool, true, false, Option, none, some, List, [], ◌∷◌, ◌++◌,
  if◌then◌else◌, get_elem?, ℤ, pos, negsuc, ◌+ℤ◌,
}

pub record Job (Call : Type 0) : Type 0 where
  pub captured_ctx_id : String
  pub task : Call

-- Where a thread is in its loop: at the lock, with a job, in task(), after it, or returned.
pub data Phase (Call : Type 0) : Type 0 where
  waiting : Phase Call
  popped : Job Call → Phase Call
  running : Job Call → Phase Call
  ran : Phase Call
  returned : Phase Call

-- A thread, with its t_req_id.
pub record Worker (Call : Type 0) : Type 0 where
  pub phase : Phase Call
  pub req_id : String

pub record ThreadPool (Call : Type 0) : Type 0 where
  pub workers : List (Worker Call)
  pub tasks : List (Job Call)
  pub stop : Bool
  pub queue_size_gauge : ℤ
  pub active_threads_gauge : ℤ
  pub executed : List (String × Job Call)

module _ {Call : Type 0} where
  -- The constructor: threads that stand at the lock.
  abbrev pub start_workers : ℕ → List (Worker Call)
  start_workers zero = []
  start_workers (suc n) = record { phase = waiting; req_id = "" } ∷ start_workers n

  unfoldable pub new_thread_pool : ℕ → ThreadPool Call
  new_thread_pool threads = record {
    workers = start_workers threads;
    tasks = [];
    stop = false;
    queue_size_gauge = pos 0;
    active_threads_gauge = pos 0;
    executed = [];
  }

  -- `none` is the exception; `req_id` is the t_req_id of the caller.
  unfoldable pub enqueue : String → Call → ThreadPool Call → Option (ThreadPool Call)
  enqueue req_id task p =
      if p.stop
      then none
      else some (record p {
        tasks = p.tasks ++ record { captured_ctx_id = req_id; task = task } ∷ [];
        queue_size_gauge = p.queue_size_gauge +ℤ pos 1;
      })

  -- The destructor, up to its joins.
  unfoldable pub request_stop : ThreadPool Call → ThreadPool Call
  request_stop p = record p { stop = true }

  unfoldable pub set_worker : ℕ → Worker Call → List (Worker Call) → List (Worker Call)
  set_worker i w [] = []
  set_worker zero w (v ∷ ws) = w ∷ ws
  set_worker (suc i) w (v ∷ ws) = v ∷ set_worker i w ws

  -- The critical section: `none` while the thread waits for the condition.
  unfoldable pub pop_task :
      ℕ → Worker Call → Bool → List (Job Call) → ThreadPool Call → Option (ThreadPool Call)
  pop_task i w stopped (job ∷ rest) p = some (record p {
    workers = set_worker i (record w { phase = popped job }) p.workers;
    tasks = rest;
    queue_size_gauge = p.queue_size_gauge +ℤ negsuc 0;
  })
  pop_task i w true [] p =
      some (record p { workers = set_worker i (record w { phase = returned }) p.workers })
  pop_task i w false [] p = none

  -- One step of thread i, which is at w: the loop of the constructor.
  unfoldable pub loop_step :
      ℕ → Worker Call → Phase Call → ThreadPool Call → Option (ThreadPool Call)
  loop_step i w waiting p = pop_task i w p.stop p.tasks p
  loop_step i w (popped job) p = some (record p {
    workers = set_worker i (record w { phase = running job }) p.workers;
    active_threads_gauge = p.active_threads_gauge +ℤ pos 1;
  })
  loop_step i w (running job) p = some (record p {
    workers = set_worker i (record { phase = ran; req_id = job.captured_ctx_id }) p.workers;
    executed = p.executed ++ (job.captured_ctx_id, job) ∷ [];
  })
  loop_step i w ran p = some (record p {
    workers = set_worker i (record { phase = waiting; req_id = "" }) p.workers;
    active_threads_gauge = p.active_threads_gauge +ℤ negsuc 0;
  })
  loop_step i w returned p = none

-- What happens to a pool, in the order in which the lock and the gauges let it, with the jobs that it
-- gives the pool: a caller enqueues, the owner destroys it, or a thread moves on.
pub data Moves {Call : Type 0} : ThreadPool Call → List (Job Call) → ThreadPool Call → Type 0 where
  enqueues :
      (req_id : String) (task : Call) (p q : ThreadPool Call)
      → enqueue req_id task p ≡ some q
      → Moves p (record { captured_ctx_id = req_id; task = task } ∷ []) q
  stops : (p : ThreadPool Call) → Moves p [] (request_stop p)
  advances :
      (i : ℕ) (w : Worker Call) (p q : ThreadPool Call)
      → get_elem? p.workers i ≡ some w
      → loop_step i w w.phase p ≡ some q
      → Moves p [] q

-- The pools that a new one with n threads can become, with the jobs that it was given in order.
pub data Reaches {Call : Type 0} (n : ℕ) : List (Job Call) → ThreadPool Call → Type 0 where
  at_start : Reaches n [] (new_thread_pool n)
  then_moves :
      (given new : List (Job Call)) (p q : ThreadPool Call)
      → Reaches n given p
      → Moves p new q
      → Reaches n (given ++ new) q
