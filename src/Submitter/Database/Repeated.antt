-- ===== src/Submitter/Database/Repeated.antt =====
-- ON CONFLICT (idempotency_key) DO NOTHING, and the tasks of the job that was not written.
use distributed_task_system.Common.{
  ℕ, eq_of_some-eq-some, String, ◌≡◌, refl, subst, inl, inr, true, false, none, some, List, [], ◌∷◌,
  arith, str_eq, Bool-cases, Option-cases, All,
}
use distributed_task_system.Submitter.{PbTask, BatchItem, uuid_of}
use distributed_task_system.Submitter.Database.{
  TaskRow, Database, has_job, has_key, insert_job, insert_task, flush_jobs, task_row,
  flush_item_tasks, flush_tasks, flush_db_batch,
}

-- The other jobs of the batch do not bring the job in.
flush_jobs_absent :
    (id : String) (batch : List BatchItem) (db db' : Database)
    → All (λ j. str_eq j.ctx.job_id id ≡ false) batch
    → flush_jobs batch db ≡ some db'
    → has_job id db.jobs ≡ false
    → has_job id db'.jobs ≡ false
unfolding flush_jobs insert_job has_job
flush_jobs_absent id [] db db' a h e =
    subst (λ d. has_job id d.jobs ≡ false) (eq_of_some-eq-some db db' h) e
flush_jobs_absent id (j ∷ rest) db db' a h e =
    elim (Bool-cases (has_key j.req.idempotency_key db.jobs)) [
      | inl y ↦ flush_jobs_absent id rest db db' a.1 (rw y at h) e
      | inr z ↦ elim (Bool-cases (has_job j.ctx.job_id db.jobs)) [
        | inl y ↦ (let h' = rw (z, y) at h in ground (arith, h'))
        | inr w ↦ flush_jobs_absent id rest _ db' a.1 (rw (z, w) at h) (ground (arith, a.0, e))
      ]
    ]

insert_task_orphan :
    (t : TaskRow) (db : Database) → has_job t.job_id db.jobs ≡ false → insert_task t db ≡ none
unfolding insert_task
insert_task_orphan t db e = ground (arith, e)

flush_tasks_orphan :
    (now : ℕ) (i : BatchItem) (t : PbTask) (ts : List PbTask) (rest : List BatchItem)
    (db : Database)
    → i.req.tasks ≡ t ∷ ts
    → has_job i.ctx.job_id db.jobs ≡ false
    → flush_tasks now (i ∷ rest) db ≡ none
unfolding flush_tasks flush_item_tasks
flush_tasks_orphan now i t ts rest db e absent = elim (Option-cases (uuid_of i.ctx t.natural_id)) [
  | inl n ↦ rw (e, n) refl
  | inr (u, s) ↦ rw (e, s, insert_task_orphan (task_row i.ctx now t _ u) db absent) refl
]

-- A batch whose first item repeats the idempotency key of a job of the table, under a job id
-- that neither the table nor the rest of the batch has, and brings a task: nothing of the batch is
-- committed.
pub flush_db_batch_repeated :
    (now : ℕ) (i : BatchItem) (t : PbTask) (ts : List PbTask) (rest : List BatchItem)
    (db : Database)
    → i.req.tasks ≡ t ∷ ts
    → has_key i.req.idempotency_key db.jobs ≡ true
    → has_job i.ctx.job_id db.jobs ≡ false
    → All (λ j. str_eq j.ctx.job_id i.ctx.job_id ≡ false) rest
    → flush_db_batch now (i ∷ rest) db ≡ none
unfolding flush_db_batch flush_jobs insert_job
flush_db_batch_repeated now i t ts rest db e key absent others =
    elim (Option-cases (flush_jobs rest db)) [
      | inl n ↦ rw (key, n) refl
      | inr (db1, s) ↦
          rw
            (
              key,
              s,
              flush_tasks_orphan now i t ts rest db1 e
                  (flush_jobs_absent i.ctx.job_id rest db db1 others s absent),
            )
            refl
    ]
