-- ===== src/Tests/Pools.antt =====
-- The theorems of `DatabasePool` and `ThreadPool` at small pools: a connection is whether it is open.
use distributed_task_system.Common.{
  zero, suc, eq_of_some-eq-some, ◌+◌, String, ◌≡◌, refl, sym, ap, ◌↔◌, Bool, true, false, none,
  some, List, [], ◌∷◌, arith, length, All, ℤ, pos, ◌+ℤ◌,
}
use distributed_task_system.DatabasePool.{
  TxEnd, committed, connection_broken, release_connection, finish_tx, acquire_connection,
}
use distributed_task_system.DatabasePool.Runs.{
  Connections, Event, acquires, ends, step, run, total, run-total, exhausted_iff_lost,
}
use distributed_task_system.ThreadPool.{
  Job, Phase, Worker, ThreadPool, waiting, popped, running, ran, returned, new_thread_pool, enqueue,
  request_stop, set_worker, pop_task, loop_step, Reaches, at_start, then_moves, enqueues, stops,
  advances,
}
use distributed_task_system.ThreadPool.Counts
use distributed_task_system.ThreadPool.Gauges.{GaugesAreTrue, gauges_are_true}
use distributed_task_system.ThreadPool.Ending.{
  at_once, after, steps_left, runs_end, IsReturned, IsStuck,
}
use distributed_task_system.ThreadPool.Shutdown.{shutdown_runs_every}

abbrev same : Bool → Bool
same b = b

abbrev breaks : Bool → Bool × TxEnd
breaks conn = (false, connection_broken)

abbrev commits : Bool → Bool × TxEnd
commits conn = (conn, committed)

-- One of two connections breaks while the other is in use, and cannot be made anew.
abbrev one_breaks : List (Event Bool)
one_breaks = acquires 0 ∷ acquires 1 ∷ ends 0 breaks none ∷ ends 1 commits none ∷ []

abbrev two_open : Connections Bool
two_open = record { idle = true ∷ true ∷ []; held = [] }

abbrev one_open : Connections Bool
one_open = record { idle = true ∷ []; held = [] }

run-total_example : total one_open + 1 ≡ total two_open
unfolding run step acquire_connection finish_tx release_connection
run-total_example = run-total same one_breaks two_open one_open 1 refl

exhausted_iff_lost_example : (acquire_connection {Conn = Bool} [] ≡ none) ↔ (1 ≡ length (true ∷ []))
unfolding run step acquire_connection finish_tx release_connection
exhausted_iff_lost_example =
    exhausted_iff_lost same (true ∷ []) (acquires 0 ∷ ends 0 breaks (some false) ∷ [])
      (record { idle = []; held = [] }) 1 refl refl

abbrev worker_at : Phase String → String → Worker String
worker_at ph id = record { phase = ph; req_id = id }

abbrev job : Job String
job = record { captured_ctx_id = "r1"; task = "resize" }

abbrev pool_at :
    Worker String
    → List (Job String)
    → Bool
    → ℤ
    → ℤ
    → List (String × Job String)
    → ThreadPool String
pool_at w tasks stop queued active executed = record {
  workers = w ∷ [];
  tasks = tasks;
  stop = stop;
  queue_size_gauge = queued;
  active_threads_gauge = active;
  executed = executed;
}

abbrev idle : ThreadPool String
idle = pool_at (worker_at waiting "") [] false (pos 0) (pos 0) []

abbrev queued : ThreadPool String
queued = pool_at (worker_at waiting "") (job ∷ []) false (pos 1) (pos 0) []

abbrev taken : ThreadPool String
taken = pool_at (worker_at (popped job) "") [] false (pos 0) (pos 0) []

abbrev begun : ThreadPool String
begun = pool_at (worker_at (running job) "") [] false (pos 0) (pos 1) []

abbrev worked : ThreadPool String
worked = pool_at (worker_at ran "r1") [] false (pos 0) (pos 1) (("r1", job) ∷ [])

abbrev ready : ThreadPool String
ready = pool_at (worker_at waiting "") [] false (pos 0) (pos 0) (("r1", job) ∷ [])

abbrev stopped : ThreadPool String
stopped = pool_at (worker_at waiting "") [] true (pos 0) (pos 0) (("r1", job) ∷ [])

abbrev over : ThreadPool String
over = pool_at (worker_at returned "") [] true (pos 0) (pos 0) (("r1", job) ∷ [])

Reaches-begun : Reaches 1 (job ∷ []) begun
unfolding new_thread_pool enqueue loop_step pop_task set_worker ◌+ℤ◌
Reaches-begun =
    then_moves (job ∷ []) [] taken begun
      (then_moves (job ∷ []) [] queued taken
        (then_moves [] (job ∷ []) idle queued at_start (enqueues "r1" "resize" idle queued refl))
        (advances 0 (worker_at waiting "") queued taken refl refl))
      (advances 0 (worker_at (popped job) "") taken begun refl refl)

Reaches-over : Reaches 1 (job ∷ []) over
unfolding request_stop loop_step pop_task set_worker ◌+ℤ◌
Reaches-over =
    then_moves (job ∷ []) [] stopped over
      (then_moves (job ∷ []) [] ready stopped
        (then_moves (job ∷ []) [] worked ready
          (then_moves (job ∷ []) [] begun worked Reaches-begun
            (advances 0 (worker_at (running job) "") begun worked refl refl))
          (advances 0 (worker_at ran "r1") worked ready refl refl))
        (stops ready))
      (advances 0 (worker_at waiting "") stopped over refl refl)

gauges_are_true_example : GaugesAreTrue begun
gauges_are_true_example = gauges_are_true 1 (job ∷ []) begun Reaches-begun

runs_end_example : 4 + steps_left ready ≡ steps_left queued
unfolding loop_step pop_task set_worker ◌+ℤ◌
runs_end_example = runs_end 4 queued ready (
    after 3 0 (worker_at waiting "") queued taken ready refl refl (
      after 2 0 (worker_at (popped job) "") taken begun ready refl refl (
        after 1 0 (worker_at (running job) "") begun worked ready refl refl
          (after 0 0 (worker_at ran "r1") worked ready ready refl refl (at_once ready)))))

IsStuck-over : IsStuck over
unfolding loop_step
IsStuck-over zero w at =
    ap (λ (v : Worker String). loop_step 0 w v.phase over) (sym (eq_of_some-eq-some _ w at))
IsStuck-over (suc i) w at = cc

shutdown_runs_every_example :
    All IsReturned over.workers
    × (Counts.total (λ (e : String × Job String). 1) over.executed
        ≡ Counts.total (λ j. 1) (job ∷ []))
shutdown_runs_every_example =
    shutdown_runs_every (λ j. 1) 1 (job ∷ []) over Reaches-over (omega arith) refl IsStuck-over
