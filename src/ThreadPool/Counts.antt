-- ===== src/ThreadPool/Counts.antt =====
-- No job of a ThreadPool is lost or run twice.
use distributed_task_system.Common.{
  ℕ, zero, suc, eq_of_some-eq-some, ◌+◌, String, ◌≡◌, refl, ap, inl, inr, false, some, List, [],
  ◌∷◌, ◌++◌, arith, Bool-cases, get_elem?, pos, ◌+ℤ◌,
}
use distributed_task_system.ThreadPool.Steps.{
  Advance, pops, returns, starts, runs, finishes, loop_step-Advance,
}
use distributed_task_system.ThreadPool.{
  Job, Phase, waiting, popped, running, ran, returned, Worker, ThreadPool, start_workers,
  new_thread_pool, enqueue, request_stop, set_worker, Moves, enqueues, stops, advances, Reaches,
  at_start, then_moves,
}

-- The sum of a weight over a list.
abbrev pub total : {A : Type 0} → (A → ℕ) → List A → ℕ
total f [] = 0
total f (x ∷ xs) = f x + total f xs

pub total-append :
    {A : Type 0} (f : A → ℕ) (xs ys : List A) → total f (xs ++ ys) ≡ total f xs + total f ys
total-append f [] ys = omega arith
total-append f (x ∷ xs) ys = omega (arith, total-append f xs ys)

module _ {Call : Type 0} where
  pub total-set_worker :
      (f : Worker Call → ℕ) (i : ℕ) (w v : Worker Call) (ws : List (Worker Call))
      → get_elem? ws i ≡ some v
      → total f (set_worker i w ws) + f v ≡ total f ws + f w
  unfolding set_worker
  total-set_worker f i w v [] h = cc
  total-set_worker f zero w v (u ∷ ws) h = rw (eq_of_some-eq-some u v h) (omega arith)
  total-set_worker f (suc i) w v (u ∷ ws) h = omega (arith, total-set_worker f i w v ws h)

  -- The weight of the job that a thread has yet to run.
  abbrev pub held : (Job Call → ℕ) → Phase Call → ℕ
  held f (popped job) = f job
  held f (running job) = f job
  held f _ = 0

  -- The weight of the jobs that were run, that threads hold, and that wait.
  abbrev pub weight : (Job Call → ℕ) → ThreadPool Call → ℕ
  weight f p =
      total (λ (e : String × Job Call). f e.1) p.executed
      + total (λ (w : Worker Call). held f w.phase) p.workers
      + total f p.tasks

  pub start_idle :
      (g : Worker Call → ℕ) (n : ℕ)
      → g (record { phase = waiting; req_id = "" }) ≡ 0
      → total g (start_workers n) ≡ 0
  start_idle g zero h = refl
  start_idle g (suc n) h = omega (arith, h, start_idle g n h)

  Advance-weight :
      (f : Job Call → ℕ) (i : ℕ) (w : Worker Call) (p q : ThreadPool Call)
      → get_elem? p.workers i ≡ some w
      → Advance i w p q
      → weight f q ≡ weight f p
  Advance-weight f i w p q at (pops job rest is t) = omega (
    arith,
    total-set_worker (λ v. held f v.phase) i (record w { phase = popped job }) w p.workers at,
    ap (held f) is,
    ap (total f) t,
  )
  Advance-weight f i w p q at (returns is t s) = omega (
    arith,
    total-set_worker (λ v. held f v.phase) i (record w { phase = returned }) w p.workers at,
    ap (held f) is,
  )
  Advance-weight f i w p q at (starts job is) = omega (
    arith,
    total-set_worker (λ v. held f v.phase) i (record w { phase = running job }) w p.workers at,
    ap (held f) is,
  )
  Advance-weight f i w p q at (runs job is) = omega (
    arith,
    total-set_worker (λ v. held f v.phase) i (record { phase = ran; req_id = job.captured_ctx_id })
        w p.workers at,
    ap (held f) is,
    total-append (λ (e : String × Job Call). f e.1) p.executed ((job.captured_ctx_id, job) ∷ []),
  )
  Advance-weight f i w p q at (finishes is) = omega (
    arith,
    total-set_worker (λ v. held f v.phase) i (record { phase = waiting; req_id = "" }) w p.workers
        at,
    ap (held f) is,
  )

  pub enqueued :
      (req_id : String) (task : Call) (p q : ThreadPool Call)
      → enqueue req_id task p ≡ some q
      → (p.stop ≡ false)
        × (q ≡ record p {
          tasks = p.tasks ++ record { captured_ctx_id = req_id; task = task } ∷ [];
          queue_size_gauge = p.queue_size_gauge +ℤ pos 1;
        })
  unfolding enqueue
  enqueued req_id task p q h = elim (Bool-cases p.stop) [
    | inl on ↦ ground (arith, on)
    | inr off ↦ (off, ground (arith, off))
  ]

  Moves-weight :
      (f : Job Call → ℕ) (new : List (Job Call)) (p q : ThreadPool Call)
      → Moves p new q
      → weight f p + total f new ≡ weight f q
  unfolding request_stop
  Moves-weight f new p q (enqueues req_id task _ _ h) = rw (enqueued req_id task p q h).1 (
      omega (arith, total-append f p.tasks (record { captured_ctx_id = req_id; task = task } ∷ [])))
  Moves-weight f new p q (stops _) = omega arith
  Moves-weight f new p q (advances i w _ _ at h) =
      omega (arith, Advance-weight f i w p q at (loop_step-Advance i w p q h))

  -- Whatever weight is given to a job, the jobs that a pool was given weigh as much as those that it
  -- has run, those that its threads hold and those that wait: none is lost, and none is run twice.
  pub jobs_conserved :
      (f : Job Call → ℕ) (n : ℕ) (given : List (Job Call)) (p : ThreadPool Call)
      → Reaches n given p
      → total f given ≡ weight f p
  unfolding new_thread_pool
  jobs_conserved f n given p at_start = omega (arith, start_idle (λ w. held f w.phase) n refl)
  jobs_conserved f n given p (then_moves old new o _ r m) =
      omega (arith, jobs_conserved f n old o r, Moves-weight f new o p m, total-append f old new)
