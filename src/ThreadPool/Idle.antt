-- ===== src/ThreadPool/Idle.antt =====
-- A ThreadPool that has nothing to do: no thread has a step, and it has not been stopped.
use distributed_task_system.Common.{
  ℕ, ◌<◌, String, ◌≡◌, refl, ap, ◌⊎◌, inl, inr, Bool, true, false, none, List, [], ◌∷◌, arith,
  length, All,
}
use distributed_task_system.ThreadPool.{
  Job, Phase, waiting, popped, running, ran, returned, Worker, ThreadPool, pop_task, loop_step,
  Reaches,
}
use distributed_task_system.ThreadPool.Counts.{total, held, jobs_conserved}
use distributed_task_system.ThreadPool.Ending.{IsStuck, every}
use distributed_task_system.ThreadPool.Shutdown.{is_returned, Reaches-Drained, Reaches-length}

module _ {Call : Type 0} where
  -- A thread without a step: it waits and no job does, or it has returned.
  abbrev IsIdle : ThreadPool Call → Phase Call → Type 0
  IsIdle p ph = ((ph ≡ waiting) × (p.tasks ≡ [])) ⊎ (ph ≡ returned)

  pop_task-IsIdle :
      (i : ℕ) (w : Worker Call) (stopped : Bool) (tasks : List (Job Call)) (p : ThreadPool Call)
      → p.tasks ≡ tasks
      → pop_task i w stopped tasks p ≡ none
      → IsIdle p waiting
  unfolding pop_task
  pop_task-IsIdle i w stopped (job ∷ rest) p e h = cc
  pop_task-IsIdle i w true [] p e h = cc
  pop_task-IsIdle i w false [] p e h = inl (refl, e)

  loop_step-IsIdle :
      (i : ℕ) (w : Worker Call) (ph : Phase Call) (p : ThreadPool Call)
      → loop_step i w ph p ≡ none
      → IsIdle p ph
  unfolding loop_step
  loop_step-IsIdle i w waiting p h = pop_task-IsIdle i w p.stop p.tasks p refl h
  loop_step-IsIdle i w (popped job) p h = cc
  loop_step-IsIdle i w (running job) p h = cc
  loop_step-IsIdle i w ran p h = cc
  loop_step-IsIdle i w returned p h = inr refl

  idle_holds :
      (f : Job Call → ℕ) (p : ThreadPool Call) (ws : List (Worker Call))
      → All (λ (w : Worker Call). IsIdle p w.phase) ws
      → total (λ (w : Worker Call). held f w.phase) ws ≡ 0
  idle_holds f p [] h = refl
  idle_holds f p (w ∷ ws) (inl e, h) = omega (arith, ap (held f) e.0, idle_holds f p ws h)
  idle_holds f p (w ∷ ws) (inr e, h) = omega (arith, ap (held f) e, idle_holds f p ws h)

  none_waits :
      (p : ThreadPool Call) (ws : List (Worker Call))
      → 0 < length ws
      → All (λ (w : Worker Call). IsIdle p w.phase) ws
      → total (λ (w : Worker Call). is_returned w.phase) ws ≡ 0
      → p.tasks ≡ []
  none_waits p [] l h z = absurd (omega (arith, l))
  none_waits p (w ∷ ws) l (inl e, h) z = e.1
  none_waits p (w ∷ ws) l (inr e, h) z = absurd (omega (arith, ap is_returned e, z))

  -- If a pool with at least one thread has not been stopped and no thread has a step, each job that it
  -- was given has been run once, by whatever weight of a job.
  pub idle_ran_every :
      (f : Job Call → ℕ) (n : ℕ) (given : List (Job Call)) (p : ThreadPool Call)
      → Reaches n given p
      → 0 < n
      → p.stop ≡ false
      → IsStuck p
      → total (λ (e : String × Job Call). f e.1) p.executed ≡ total f given
  idle_ran_every f n given p r some_thread live stuck =
      let all =
        every (λ w. IsIdle p w.phase) p.workers
          (λ i w at. loop_step-IsIdle i w w.phase p (stuck i w at)) in
      elim (Reaches-Drained n given p r) [
        | inl none_back ↦ omega (
          arith,
          jobs_conserved f n given p r,
          idle_holds f p p.workers all,
          ap (total f) (
              none_waits p p.workers (omega (arith, some_thread, Reaches-length n given p r)) all
                none_back),
        )
        | inr d ↦ absurd (cc (d.0, live))
      ]
