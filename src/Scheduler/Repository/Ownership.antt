-- ===== src/Scheduler/Repository/Ownership.antt =====
-- Who owns a running task: the optimistic claim, and the tasks of a dead worker.
use distributed_task_system.Common.{
  ℕ, suc, String, ◌≡◌, refl, ap, inl, inr, Bool, true, false, ◌&&◌, Option, none, some, List, [],
  ◌∷◌, arith, str_eq, eq_iff, eq_refl, ◌==◌, Bool-cases, All,
}
use distributed_task_system.Scheduler.{code, pending, running, Row, update_where, affected_rows}
use distributed_task_system.Scheduler.Repository.{
  is_pending_task, running_row, update_task_to_running, pending_row, runs_on, is_orphan,
  requeue_orphaned_tasks,
}

-- After an update that leaves no row as the test asks, none is affected, and a repetition changes nothing.
affected-update :
    (p : Row → Bool) (f : Row → Row)
    → ((r : Row) → p (f r) ≡ false)
    → (rows : List Row) → affected_rows p (update_where p f rows) ≡ 0
unfolding affected_rows update_where
affected-update p f h [] = refl
affected-update p f h (r ∷ rows) = elim (Bool-cases (p r)) [
  | inl y ↦ rw (y, h r) (affected-update p f h rows)
  | inr z ↦ rw (z, z) (affected-update p f h rows)
]

update_unaffected :
    (p : Row → Bool) (f : Row → Row) (rows : List Row)
    → affected_rows p rows ≡ 0
    → update_where p f rows ≡ rows
unfolding affected_rows update_where
update_unaffected p f [] h = refl
update_unaffected p f (r ∷ rows) h = elim (Bool-cases (p r)) [
  | inl y ↦ (let k = rw y at h in ground (arith, k))
  | inr z ↦ rw z (ap (λ l. r ∷ l) (update_unaffected p f rows (rw z at h)))
]

-- A task that one worker has claimed is not claimed by another, which changes nothing: whatever the
-- table held, a second UpdateTaskToRunning for the same task directly after the first answers false.
pub claim_once :
    (now later : ℕ) (id v w : String) (rows : List Row)
    → let claimed = (update_task_to_running true now id v rows).1 in
      update_task_to_running true later id w claimed ≡ (false, claimed)
unfolding update_task_to_running
claim_once now later id v w rows =
    let claimed = update_where (is_pending_task id) (running_row now v) rows in
    let gone =
      affected-update (is_pending_task id) (running_row now v)
        (λ r. ground (arith, eq_iff r.task_id id)) rows in
    λ i. (gone i == 1, update_unaffected (is_pending_task id) (running_row later w) claimed gone i)

-- A task runs on a worker: the worker owns its row, and its state is RUNNING.
abbrev pub RunsOn : String → Row → Type 0
RunsOn worker r = (r.worker_id ≡ some worker) × (r.state ≡ code running)

abbrev pub NotOn : String → Row → Type 0
NotOn worker r = ¬ RunsOn worker r

-- The row of a task that waits again, with no worker and not started.
abbrev pub waiting_again : Row → Row
waiting_again r = record r { state = code pending; worker_id = none; start_ts = none }

-- The rows are the old ones, each either as it was, where it was not running on the worker, or waiting
-- again; and how many of these there are.
pub data Requeued (worker : String) : List Row → List Row → ℕ → Type 0 where
  nothing : Requeued worker [] [] 0
  kept :
      {n : ℕ}
      → {old new : List Row} → (r : Row) → NotOn worker r
      → Requeued worker old new n
      → Requeued worker (r ∷ old) (r ∷ new) n
  freed :
      {n : ℕ}
      → {old new : List Row} → (r : Row) → RunsOn worker r
      → Requeued worker old new n
      → Requeued worker (r ∷ old) (waiting_again r ∷ new) (suc n)

owner-RunsOn :
    (worker : String) (owner : Option String) (n : ℕ)
    → (runs_on worker owner && n == 1) ≡ true
    → (owner ≡ some worker) × (n ≡ 1)
owner-RunsOn worker none n h = cc
owner-RunsOn worker (some w) n h = (ap some (ground (arith, h, eq_iff w worker)), ground (arith, h))

pub is_orphan-RunsOn : (worker : String) (r : Row) → is_orphan worker r ≡ true → RunsOn worker r
is_orphan-RunsOn worker r h = owner-RunsOn worker r.worker_id r.state h

pub orphan_free : (worker : String) (r : Row) → is_orphan worker r ≡ false → NotOn worker r
orphan_free worker r h (owned, runs) =
    let same : str_eq worker worker ≡ true = eq_refl worker in
    let on : is_orphan worker r ≡ true = rw (owned, runs, same) refl in cc (h, on)

requeue_all :
    (worker : String) (rows : List Row)
    → Requeued worker rows
        (update_where (is_orphan worker) pending_row rows)
        (affected_rows (is_orphan worker) rows)
unfolding update_where affected_rows
requeue_all worker [] = nothing
requeue_all worker (r ∷ rows) = elim (Bool-cases (is_orphan worker r)) [
  | inl y ↦ rw y (freed r (is_orphan-RunsOn worker r y) (requeue_all worker rows))
  | inr z ↦ rw z (kept r (orphan_free worker r z) (requeue_all worker rows))
]

pub pending-NotOn : (worker : String) (r : Row) → NotOn worker (pending_row r)
pending-NotOn worker r (owned, runs) = cc owned

none_left :
    (worker : String) (rows : List Row)
    → All (NotOn worker) (update_where (is_orphan worker) pending_row rows)
unfolding update_where
none_left worker [] = tt
none_left worker (r ∷ rows) = elim (Bool-cases (is_orphan worker r)) [
  | inl y ↦ rw y (pending-NotOn worker r, none_left worker rows)
  | inr z ↦ rw z (orphan_free worker r z, none_left worker rows)
]

-- RequeueOrphanedTasks, its transaction being run, turns exactly the rows that the dead worker owns and
-- whose state is RUNNING to PENDING, without a worker or a start, leaves every other row as it was,
-- answers how many they were, and leaves no row running on the worker.
pub requeue_complete :
    (worker : String) (rows : List Row)
    → let (n, rows') = requeue_orphaned_tasks true worker rows in
      Requeued worker rows rows' n × All (NotOn worker) rows'
unfolding requeue_orphaned_tasks
requeue_complete worker rows = (requeue_all worker rows, none_left worker rows)
