-- ===== src/ThreadPool/Ending.antt =====
-- The threads of a ThreadPool come to an end, and when a stopped one has no step left.
use distributed_task_system.Common.{
  ℕ, suc, ◌+◌, ◌*◌, ◌≡◌, refl, ap, Bool, true, false, none, some, List, [], ◌∷◌, arith, length,
  get_elem?, All,
}
use distributed_task_system.ThreadPool.Steps.{
  Advance, pops, returns, starts, runs, finishes, loop_step-Advance,
}
use distributed_task_system.ThreadPool.Counts.{total, total-set_worker}
use distributed_task_system.ThreadPool.{
  Job, Phase, waiting, popped, running, ran, returned, Worker, ThreadPool, pop_task, loop_step,
}

module _ {Call : Type 0} where
  -- k steps of the threads of a pool, in any order, with no other caller.
  pub data Runs : ℕ → ThreadPool Call → ThreadPool Call → Type 0 where
    at_once : (p : ThreadPool Call) → Runs 0 p p
    after :
        (k i : ℕ) (w : Worker Call) (p q r : ThreadPool Call)
        → get_elem? p.workers i ≡ some w
        → loop_step i w w.phase p ≡ some q
        → Runs k q r
        → Runs (suc k) p r

  -- The steps that a thread has before it when no job waits.
  abbrev left : Phase Call → ℕ
  left waiting = 1
  left (popped job) = 4
  left (running job) = 3
  left ran = 2
  left returned = 0

  abbrev pub steps_left : ThreadPool Call → ℕ
  steps_left p = 4 * length p.tasks + total (λ (w : Worker Call). left w.phase) p.workers

  Advance-steps_left :
      (i : ℕ) (w : Worker Call) (p q : ThreadPool Call)
      → get_elem? p.workers i ≡ some w
      → Advance i w p q
      → suc (steps_left q) ≡ steps_left p
  Advance-steps_left i w p q at (pops job rest is t) = omega (
    arith,
    total-set_worker (λ v. left v.phase) i (record w { phase = popped job }) w p.workers at,
    ap left is,
    ap length t,
  )
  Advance-steps_left i w p q at (returns is t s) = omega (
    arith,
    total-set_worker (λ v. left v.phase) i (record w { phase = returned }) w p.workers at,
    ap left is,
  )
  Advance-steps_left i w p q at (starts job is) = omega (
    arith,
    total-set_worker (λ v. left v.phase) i (record w { phase = running job }) w p.workers at,
    ap left is,
  )
  Advance-steps_left i w p q at (runs job is) = omega (
    arith,
    total-set_worker (λ v. left v.phase) i (record { phase = ran; req_id = job.captured_ctx_id }) w
        p.workers at,
    ap left is,
  )
  Advance-steps_left i w p q at (finishes is) = omega (
    arith,
    total-set_worker (λ v. left v.phase) i (record { phase = waiting; req_id = "" }) w p.workers at,
    ap left is,
  )

  -- While nobody enqueues, the threads of a pool make no more steps, in whatever order, than four for
  -- each job that waits and those that each thread has before it.
  pub runs_end : (k : ℕ) (p q : ThreadPool Call) → Runs k p q → k + steps_left q ≡ steps_left p
  runs_end k p q (at_once _) = omega arith
  runs_end k p q (after j i w _ r _ at h more) =
      omega
        (arith, Advance-steps_left i w p r at (loop_step-Advance i w p r h), runs_end j r q more)

  abbrev pub IsReturned : Worker Call → Type 0
  IsReturned w = w.phase ≡ returned

  -- No thread has a step.
  abbrev pub IsStuck : ThreadPool Call → Type 0
  IsStuck p =
      (i : ℕ) (w : Worker Call) → get_elem? p.workers i ≡ some w → loop_step i w w.phase p ≡ none

  pub every :
      (P : Worker Call → Type 0) (ws : List (Worker Call))
      → ((i : ℕ) (w : Worker Call) → get_elem? ws i ≡ some w → P w)
      → All P ws
  every P [] h = tt
  every P (w ∷ ws) h = (h 0 w refl, every P ws (λ i v e. h (suc i) v e))

  pop_task_blocked :
      (i : ℕ) (w : Worker Call) (stopped : Bool) (tasks : List (Job Call)) (p : ThreadPool Call)
      → stopped ≡ true
      → ¬ (pop_task i w stopped tasks p ≡ none)
  unfolding pop_task
  pop_task_blocked i w true [] p s h = cc
  pop_task_blocked i w false [] p s h = cc
  pop_task_blocked i w stopped (job ∷ rest) p s h = cc

  pub stuck_phase :
      (i : ℕ) (w : Worker Call) (ph : Phase Call) (p : ThreadPool Call)
      → p.stop ≡ true
      → loop_step i w ph p ≡ none
      → ph ≡ returned
  unfolding loop_step
  stuck_phase i w waiting p s h = absurd (pop_task_blocked i w p.stop p.tasks p s h)
  stuck_phase i w (popped job) p s h = cc
  stuck_phase i w (running job) p s h = cc
  stuck_phase i w ran p s h = cc
  stuck_phase i w returned p s h = refl
