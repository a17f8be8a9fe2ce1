-- ===== src/ThreadPool/Shutdown.antt =====
-- The destructor of a ThreadPool: its joins return, and then every job has been run.
use distributed_task_system.Common.{
  ℕ, zero, suc, ◌<◌, String, ◌≡◌, refl, sym, ap, ◌∙◌, ◌⊎◌, inl, inr, true, some, List, [], ◌∷◌,
  arith, length, get_elem?, All,
}
use distributed_task_system.ThreadPool.Steps.{
  Advance, pops, returns, starts, runs, finishes, loop_step-Advance,
}
use distributed_task_system.ThreadPool.Counts.{
  total, total-set_worker, start_idle, enqueued, held, jobs_conserved,
}
use distributed_task_system.ThreadPool.{
  Job, Phase, waiting, popped, running, ran, returned, Worker, ThreadPool, start_workers,
  new_thread_pool, request_stop, set_worker, Moves, enqueues, stops, advances, Reaches, at_start,
  then_moves,
}
use distributed_task_system.ThreadPool.Ending.{IsReturned, IsStuck, every, stuck_phase}

length-start_workers : (Call : Type 0) (n : ℕ) → length (start_workers {Call = Call} n) ≡ n
length-start_workers Call zero = refl
length-start_workers Call (suc n) = ap suc (length-start_workers Call n)

module _ {Call : Type 0} where
  abbrev pub is_returned : Phase Call → ℕ
  is_returned returned = 1
  is_returned _ = 0

  abbrev pub returned_threads : ThreadPool Call → ℕ
  returned_threads p = total (λ (w : Worker Call). is_returned w.phase) p.workers

  -- A thread has returned only if the pool is stopped and empty.
  abbrev pub Drained : ThreadPool Call → Type 0
  Drained p = (returned_threads p ≡ 0) ⊎ ((p.stop ≡ true) × (p.tasks ≡ []))

  -- The threads that have returned once thread i, at w, is at v.
  returned_after :
      (i : ℕ) (w v : Worker Call) (p : ThreadPool Call)
      → get_elem? p.workers i ≡ some w
      → is_returned v.phase ≡ is_returned w.phase
      → total (λ (u : Worker Call). is_returned u.phase) (set_worker i v p.workers)
        ≡ returned_threads p
  returned_after i w v p at e =
      omega (arith, e, total-set_worker (λ u. is_returned u.phase) i v w p.workers at)

  Advance-Drained :
      (i : ℕ) (w : Worker Call) (p q : ThreadPool Call)
      → get_elem? p.workers i ≡ some w
      → Advance i w p q
      → Drained p
      → Drained q
  Advance-Drained i w p q at (pops job rest is t) (inl none_yet) = inl (
      returned_after i w (record w { phase = popped job }) p at (sym (ap is_returned is))
      ∙ none_yet)
  Advance-Drained i w p q at (pops job rest is t) (inr d) = cc (d.1, t)
  Advance-Drained i w p q at (returns is t s) d = inr (s, t)
  Advance-Drained i w p q at (starts job is) (inl none_yet) = inl (
      returned_after i w (record w { phase = running job }) p at (sym (ap is_returned is))
      ∙ none_yet)
  Advance-Drained i w p q at (starts job is) (inr d) = inr d
  Advance-Drained i w p q at (runs job is) (inl none_yet) = inl (
      returned_after i w (record { phase = ran; req_id = job.captured_ctx_id }) p at
        (sym (ap is_returned is))
      ∙ none_yet)
  Advance-Drained i w p q at (runs job is) (inr d) = inr d
  Advance-Drained i w p q at (finishes is) (inl none_yet) = inl (
      returned_after i w (record { phase = waiting; req_id = "" }) p at (sym (ap is_returned is))
      ∙ none_yet)
  Advance-Drained i w p q at (finishes is) (inr d) = inr d

  Moves-Drained :
      (new : List (Job Call)) (p q : ThreadPool Call) → Moves p new q → Drained p → Drained q
  unfolding request_stop
  Moves-Drained new p q (enqueues req_id task _ _ h) (inl none_yet) =
      rw (enqueued req_id task p q h).1 (inl none_yet)
  Moves-Drained new p q (enqueues req_id task _ _ h) (inr d) =
      cc (d.0, (enqueued req_id task p q h).0)
  Moves-Drained new p q (stops _) (inl none_yet) = inl none_yet
  Moves-Drained new p q (stops _) (inr d) = inr (refl, d.1)
  Moves-Drained new p q (advances i w _ _ at h) d =
      Advance-Drained i w p q at (loop_step-Advance i w p q h) d

  pub Reaches-Drained :
      (n : ℕ) (given : List (Job Call)) (p : ThreadPool Call) → Reaches n given p → Drained p
  unfolding new_thread_pool
  Reaches-Drained n given p at_start = inl (start_idle (λ w. is_returned w.phase) n refl)
  Reaches-Drained n given p (then_moves old new o _ r m) =
      Moves-Drained new o p m (Reaches-Drained n old o r)

  length-set_worker :
      (i : ℕ) (w : Worker Call) (ws : List (Worker Call)) → length (set_worker i w ws) ≡ length ws
  unfolding set_worker
  length-set_worker i w [] = refl
  length-set_worker zero w (v ∷ ws) = refl
  length-set_worker (suc i) w (v ∷ ws) = ap suc (length-set_worker i w ws)

  Advance-length :
      (i : ℕ) (w : Worker Call) (p q : ThreadPool Call)
      → Advance i w p q
      → length q.workers ≡ length p.workers
  Advance-length i w p q (pops job rest is t) = length-set_worker i _ p.workers
  Advance-length i w p q (returns is t s) = length-set_worker i _ p.workers
  Advance-length i w p q (starts job is) = length-set_worker i _ p.workers
  Advance-length i w p q (runs job is) = length-set_worker i _ p.workers
  Advance-length i w p q (finishes is) = length-set_worker i _ p.workers

  pub Reaches-length :
      (n : ℕ) (given : List (Job Call)) (p : ThreadPool Call)
      → Reaches n given p
      → length p.workers ≡ n
  unfolding new_thread_pool request_stop
  Reaches-length n given p at_start = length-start_workers Call n
  Reaches-length n given p (then_moves old _ o _ r (enqueues req_id task _ _ h)) =
      rw (enqueued req_id task o p h).1 (Reaches-length n old o r)
  Reaches-length n given p (then_moves old _ o _ r (stops _)) = Reaches-length n old o r
  Reaches-length n given p (then_moves old _ o _ r (advances i w _ _ at h)) =
      Advance-length i w o p (loop_step-Advance i w o p h) ∙ Reaches-length n old o r

  returned_count :
      (ws : List (Worker Call))
      → All IsReturned ws
      → total (λ (w : Worker Call). is_returned w.phase) ws ≡ length ws
  returned_count [] h = refl
  returned_count (w ∷ ws) h = omega (arith, ap is_returned h.0, returned_count ws h.1)

  none_held :
      (f : Job Call → ℕ) (ws : List (Worker Call))
      → All IsReturned ws
      → total (λ (w : Worker Call). held f w.phase) ws ≡ 0
  none_held f [] h = refl
  none_held f (w ∷ ws) h = omega (arith, ap (held f) h.0, none_held f ws h.1)

  none_wait :
      (f : Job Call → ℕ) (n : ℕ) (given : List (Job Call)) (p : ThreadPool Call)
      → Reaches n given p
      → 0 < n
      → All IsReturned p.workers
      → Drained p
      → total f p.tasks ≡ 0
  none_wait f n given p r some_thread all (inl none_yet) =
      absurd (omega (arith, returned_count p.workers all, Reaches-length n given p r))
  none_wait f n given p r some_thread all (inr d) = ap (total f) d.1

  -- If a pool with at least one thread has been stopped and no thread has a step, then all its threads
  -- have returned, and whatever weight is given to a job, the jobs that it has run weigh as much as
  -- those that it was given: each has been run once.
  pub shutdown_runs_every :
      (f : Job Call → ℕ) (n : ℕ) (given : List (Job Call)) (p : ThreadPool Call)
      → Reaches n given p
      → 0 < n
      → p.stop ≡ true
      → IsStuck p
      → All IsReturned p.workers
        × (total (λ (e : String × Job Call). f e.1) p.executed ≡ total f given)
  shutdown_runs_every f n given p r some_thread stopped stuck =
      let all =
        every IsReturned p.workers (λ i w at. stuck_phase i w w.phase p stopped (stuck i w at)) in
      (
        all,
        omega (
          arith,
          jobs_conserved f n given p r,
          none_held f p.workers all,
          none_wait f n given p r some_thread all (Reaches-Drained n given p r),
        ),
      )
