-- ===== src/ThreadPool/Steps.antt =====
-- The steps of a thread of a ThreadPool, case by case.
use distributed_task_system.Common.{
  ℕ, eq_of_some-eq-some, ◌≡◌, refl, subst, Bool, true, false, some, List, [], ◌∷◌, ◌++◌, pos,
  negsuc, ◌+ℤ◌,
}
use distributed_task_system.ThreadPool.{
  Job, Phase, waiting, popped, running, ran, returned, Worker, ThreadPool, set_worker, pop_task,
  loop_step,
}

-- What thread i, at w, makes of a pool.
pub data Advance {Call : Type 0} (i : ℕ) (w : Worker Call) (p : ThreadPool Call)
    : ThreadPool Call → Type 0 where
  pops :
      (job : Job Call) (rest : List (Job Call))
      → w.phase ≡ waiting
      → p.tasks ≡ job ∷ rest
      → Advance i w p (record p {
        workers = set_worker i (record w { phase = popped job }) p.workers;
        tasks = rest;
        queue_size_gauge = p.queue_size_gauge +ℤ negsuc 0;
      })
  returns :
      w.phase ≡ waiting
      → p.tasks ≡ []
      → p.stop ≡ true
      → Advance i w p
          (record p { workers = set_worker i (record w { phase = returned }) p.workers })
  starts :
      (job : Job Call)
      → w.phase ≡ popped job
      → Advance i w p (record p {
        workers = set_worker i (record w { phase = running job }) p.workers;
        active_threads_gauge = p.active_threads_gauge +ℤ pos 1;
      })
  runs :
      (job : Job Call)
      → w.phase ≡ running job
      → Advance i w p (record p {
        workers = set_worker i (record { phase = ran; req_id = job.captured_ctx_id }) p.workers;
        executed = p.executed ++ (job.captured_ctx_id, job) ∷ [];
      })
  finishes :
      w.phase ≡ ran
      → Advance i w p (record p {
        workers = set_worker i (record { phase = waiting; req_id = "" }) p.workers;
        active_threads_gauge = p.active_threads_gauge +ℤ negsuc 0;
      })

module _ {Call : Type 0} where
  pop_task-Advance :
      (i : ℕ) (w : Worker Call) (stopped : Bool) (tasks : List (Job Call)) (p q : ThreadPool Call)
      → w.phase ≡ waiting
      → p.stop ≡ stopped
      → p.tasks ≡ tasks
      → pop_task i w stopped tasks p ≡ some q
      → Advance i w p q
  unfolding pop_task
  pop_task-Advance i w stopped (job ∷ rest) p q is s t h =
      subst (Advance i w p) (eq_of_some-eq-some _ q h) (pops job rest is t)
  pop_task-Advance i w true [] p q is s t h =
      subst (Advance i w p) (eq_of_some-eq-some _ q h) (returns is t s)
  pop_task-Advance i w false [] p q is s t h = cc

  phase-Advance :
      (i : ℕ) (w : Worker Call) (ph : Phase Call) (p q : ThreadPool Call)
      → w.phase ≡ ph
      → loop_step i w ph p ≡ some q
      → Advance i w p q
  unfolding loop_step
  phase-Advance i w waiting p q is h = pop_task-Advance i w p.stop p.tasks p q is refl refl h
  phase-Advance i w (popped job) p q is h =
      subst (Advance i w p) (eq_of_some-eq-some _ q h) (starts job is)
  phase-Advance i w (running job) p q is h =
      subst (Advance i w p) (eq_of_some-eq-some _ q h) (runs job is)
  phase-Advance i w ran p q is h = subst (Advance i w p) (eq_of_some-eq-some _ q h) (finishes is)
  phase-Advance i w returned p q is h = cc

  pub loop_step-Advance :
      (i : ℕ) (w : Worker Call) (p q : ThreadPool Call)
      → loop_step i w w.phase p ≡ some q
      → Advance i w p q
  loop_step-Advance i w p q h = phase-Advance i w w.phase p q refl h
