-- ===== src/Scheduler/Patrol.antt =====
-- RunPatrolLoop of src/scheduler/src/main.cpp.
use distributed_task_system.Common.{
  ℕ, String, ◌≡◌, refl, sym, subst, ◌∙◌, inl, inr, Bool, true, false, none, some, List, [], ◌∷◌,
  arith, str_eq, eq_iff, if◌then◌else◌, Bool-cases, All, mem, Dict, find,
}
use distributed_task_system.Scheduler.{Row, update_where}
use distributed_task_system.Scheduler.Repository.{pending_row, is_orphan, requeue_orphaned_tasks}
use distributed_task_system.Scheduler.Repository.Ownership.{NotOn, pending-NotOn, requeue_complete}
use distributed_task_system.Scheduler.Workers.{WorkerInfo, IsIndexed, timed_out, prune_dead_workers}
use distributed_task_system.Scheduler.Workers.Liveness.{prune-IsPruned}

-- The loop over the dead workers, with the number of tasks recovered from each.
unfoldable pub recover_all : Bool → List String → List Row → List ℕ × List Row
recover_all connected [] rows = ([], rows)
recover_all connected (id ∷ ids) rows =
    let (n, rows') = requeue_orphaned_tasks connected id rows in
    let (ns, rows'') = recover_all connected ids rows' in (n ∷ ns, rows'')

-- A round behind its wait; `stop` is what g_stop_patrol is then.
unfoldable pub patrol_round :
    Bool → ℕ → ℕ → Bool → Dict WorkerInfo × List Row → Dict WorkerInfo × List Row
patrol_round stop timeout now connected (workers, rows) =
    if stop
    then (workers, rows)
    else (let (dead, alive) = prune_dead_workers timeout now workers in
        (alive, (recover_all connected dead rows).1))

still_free :
    (id w : String) (rows : List Row)
    → All (NotOn id) rows
    → All (NotOn id) (update_where (is_orphan w) pending_row rows)
unfolding update_where
still_free id w [] a = tt
still_free id w (r ∷ rows) a = elim (Bool-cases (is_orphan w r)) [
  | inl y ↦ rw y (pending-NotOn id r, still_free id w rows a.1)
  | inr z ↦ rw z (a.0, still_free id w rows a.1)
]

stays_free :
    (id : String) (ids : List String) (rows : List Row)
    → All (NotOn id) rows
    → All (NotOn id) (recover_all true ids rows).1
unfolding recover_all requeue_orphaned_tasks
stays_free id [] rows a = a
stays_free id (w ∷ ids) rows a =
    stays_free id ids (update_where (is_orphan w) pending_row rows) (still_free id w rows a)

recovered :
    (id : String) (ids : List String) (rows : List Row)
    → mem id ids ≡ true
    → All (NotOn id) (recover_all true ids rows).1
unfolding recover_all mem
recovered id [] rows h = ground (arith, h)
recovered id (w ∷ ids) rows h = elim (Bool-cases (str_eq id w)) [
  | inl y ↦
      (let rows' = (requeue_orphaned_tasks true w rows).1 in
        stays_free id ids rows'
          (subst (λ z. All (NotOn z) rows') (sym ((eq_iff id w).0 y)) (requeue_complete w rows).1))
  | inr z ↦ recovered id ids (requeue_orphaned_tasks true w rows).1 (ground (arith, h, z))
]

-- A round of the patrol that is not stopped and can reach the database, over workers of which no id stands
-- twice: a worker whose last heartbeat is too old is no longer registered, and no row of the
-- table has it as its worker and RUNNING as its state.
pub patrol_clears_worker :
    (timeout now : ℕ) (workers : Dict WorkerInfo) (rows : List Row) (id : String) (w : WorkerInfo)
    → IsIndexed workers
    → find id workers ≡ some w
    → timed_out timeout now w ≡ true
    → let (workers', rows') = patrol_round false timeout now true (workers, rows) in
      (find id workers' ≡ none) × All (NotOn id) rows'
unfolding patrol_round
patrol_clears_worker timeout now workers rows id w u f late =
    let p = prune-IsPruned timeout now workers u in
    (
      p.stays id ∙ rw f (rw late refl),
      recovered id (prune_dead_workers timeout now workers).0 rows (p.dies id ∙ rw f late),
    )
