-- ===== src/ThreadPool/Gauges.antt =====
-- The gauges of a ThreadPool tell the truth.
use distributed_task_system.Common.{
  ℕ, suc, ◌+◌, ◌≡◌, refl, sym, ap, ◌∙◌, some, List, [], ◌∷◌, arith, length, get_elem?,
  length-append, ℤ, pos, negsuc, ◌+ℤ◌,
}
use distributed_task_system.ThreadPool.Steps.{
  Advance, pops, returns, starts, runs, finishes, loop_step-Advance,
}
use distributed_task_system.ThreadPool.Counts.{total, total-set_worker, start_idle, enqueued}
use distributed_task_system.ThreadPool.{
  Job, Phase, waiting, popped, running, ran, returned, Worker, ThreadPool, new_thread_pool,
  request_stop, set_worker, Moves, enqueues, stops, advances, Reaches, at_start, then_moves,
}

plus_one : (z : ℤ) (a b : ℕ) → z ≡ pos a → b ≡ suc a → z +ℤ pos 1 ≡ pos b
unfolding ◌+ℤ◌
plus_one z a b e h = rw e (ground arith)

minus_one : (z : ℤ) (a b : ℕ) → z ≡ pos a → a ≡ suc b → z +ℤ negsuc 0 ≡ pos b
unfolding ◌+ℤ◌
minus_one z a b e h = rw e (ground arith)

module _ {Call : Type 0} where
  -- The threads in task() or just after it.
  abbrev is_active : Phase Call → ℕ
  is_active (running job) = 1
  is_active ran = 1
  is_active _ = 0

  abbrev pub active_threads : ThreadPool Call → ℕ
  active_threads p = total (λ (w : Worker Call). is_active w.phase) p.workers

  -- The gauges hold the number of the jobs that wait and of the threads in task().
  abbrev pub GaugesAreTrue : ThreadPool Call → Type 0
  GaugesAreTrue p =
      (p.queue_size_gauge ≡ pos (length p.tasks))
      × (p.active_threads_gauge ≡ pos (active_threads p))

  abbrev active : Worker Call → ℕ
  active w = is_active w.phase

  -- The active threads after thread i, at w, goes to v.
  active_after :
      (i : ℕ) (w v : Worker Call) (p : ThreadPool Call) (a : ℕ)
      → get_elem? p.workers i ≡ some w
      → a + active w ≡ active_threads p + active v
      → pos a ≡ pos (total active (set_worker i v p.workers))
  active_after i w v p a at h =
      ap pos (omega (arith, h, total-set_worker active i v w p.workers at))

  Advance-GaugesAreTrue :
      (i : ℕ) (w : Worker Call) (p q : ThreadPool Call)
      → get_elem? p.workers i ≡ some w
      → Advance i w p q
      → GaugesAreTrue p
      → GaugesAreTrue q
  Advance-GaugesAreTrue i w p q at (pops job rest is t) g = (
    minus_one p.queue_size_gauge (length p.tasks) _ g.0 (ap length t),
    g.1
        ∙ active_after i w (record w { phase = popped job }) p _ at
            (omega (arith, ap is_active is)),
  )
  Advance-GaugesAreTrue i w p q at (returns is t s) g = (
    g.0,
    g.1 ∙ active_after i w (record w { phase = returned }) p _ at (omega (arith, ap is_active is)),
  )
  Advance-GaugesAreTrue i w p q at (starts job is) g = (
    g.0,
    plus_one p.active_threads_gauge (active_threads p) _ g.1 (
        omega (
          arith,
          ap is_active is,
          total-set_worker active i (record w { phase = running job }) w p.workers at,
        )),
  )
  Advance-GaugesAreTrue i w p q at (runs job is) g = (
    g.0,
    g.1
        ∙ active_after i w (record { phase = ran; req_id = job.captured_ctx_id }) p _ at
            (omega (arith, ap is_active is)),
  )
  Advance-GaugesAreTrue i w p q at (finishes is) g = (
    g.0,
    minus_one p.active_threads_gauge (active_threads p) _ g.1 (
        omega (
          arith,
          ap is_active is,
          total-set_worker active i (record { phase = waiting; req_id = "" }) w p.workers at,
        )),
  )

  Moves-GaugesAreTrue :
      (new : List (Job Call)) (p q : ThreadPool Call)
      → Moves p new q
      → GaugesAreTrue p
      → GaugesAreTrue q
  unfolding request_stop
  Moves-GaugesAreTrue new p q (enqueues req_id task _ _ h) g = rw (enqueued req_id task p q h).1 (
    plus_one p.queue_size_gauge (length p.tasks) _ g.0 (
        omega
          (arith, length-append p.tasks (record { captured_ctx_id = req_id; task = task } ∷ []))),
    g.1,
  )
  Moves-GaugesAreTrue new p q (stops _) g = g
  Moves-GaugesAreTrue new p q (advances i w _ _ at h) g =
      Advance-GaugesAreTrue i w p q at (loop_step-Advance i w p q h) g

  -- In every pool that a new one can become the gauges hold the number of the jobs that wait and of
  -- the threads that run one.
  pub gauges_are_true :
      (n : ℕ) (given : List (Job Call)) (p : ThreadPool Call) → Reaches n given p → GaugesAreTrue p
  unfolding new_thread_pool
  gauges_are_true n given p at_start = (refl, ap pos (sym (start_idle active n refl)))
  gauges_are_true n given p (then_moves old new o _ r m) =
      Moves-GaugesAreTrue new o p m (gauges_are_true n old o r)
