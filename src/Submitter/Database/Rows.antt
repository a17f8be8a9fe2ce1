-- ===== src/Submitter/Database/Rows.antt =====
-- The rows that a transaction of FlushDBBatch of src/api-server/src/task_submitter.cpp writes.
use distributed_task_system.Common.{
  ℕ, >>=-eq-some, eq_of_some-eq-some, String, ◌≡◌, sym, ap, subst, ◌⊎◌, inl, inr, true, false, not,
  ◌||◌, some, List, [], ◌∷◌, arith, ◌==◌, if◌then◌else◌, Bool-cases, Dict, find,
}
use distributed_task_system.Submitter.{
  PbTask, PbTaskEdge, DagCommitContext, BatchItem, uuid_of, in_degree, count_dependencies,
  count_dependencies-in_degree, dependency_count,
}
use distributed_task_system.Submitter.Database.{
  TaskRow, Database, has_job, has_key, has_task, has_natural, has_edge_row, insert_job, insert_task,
  insert_edge, task_row, flush_jobs, flush_item_tasks, flush_tasks, flush_item_edges, flush_edges,
  flush_db_batch,
}
use distributed_task_system.Submitter.Database.Integrity.{IsConsistent, flush_db_batch-IsConsistent}

-- A job whose key is in the table is passed over; of another the row is added.
pub JobsAdded : List BatchItem → Database → Database → Type 0
JobsAdded [] db db' = db' ≡ db
JobsAdded (i ∷ rest) db db' =
    ((has_key i.req.idempotency_key db.jobs ≡ true) × JobsAdded rest db db')
    ⊎ ((has_key i.req.idempotency_key db.jobs ≡ false)
        × JobsAdded rest
            (record db {
              jobs =
                  record { job_id = i.ctx.job_id; idempotency_key = i.req.idempotency_key }
                  ∷ db.jobs;
            })
            db')

-- Every task of a request gets a row: PENDING (0) where no edge of the request leads to it, and else
-- WAITING (6) with the number of the edges that do.
unfoldable TasksAdded :
    ℕ → String → Dict String → List PbTaskEdge → List PbTask → Database → Database → Type 0
TasksAdded now job uuids es [] db db' = db' ≡ db
TasksAdded now job uuids es (t ∷ ts) db db' =
    (uuid : String) × (find t.natural_id uuids ≡ some uuid)
    × TasksAdded now job uuids es ts
        (record db {
          tasks =
              record {
                task_id = uuid;
                job_id = job;
                natural_id = t.natural_id;
                func_name = t.func_name;
                func_params = t.func_params;
                priority = t.priority;
                state = if in_degree es t.natural_id == 0 then 0 else 6;
                pending_dependencies = in_degree es t.natural_id;
                max_retry = t.max_retry;
                retry_count = 0;
                timeout_ms = t.timeout_ms;
                submit_ts = now;
              }
              ∷ db.tasks;
        })
        db'

-- Every edge gets a row, from the id of its parent to that of its child.
unfoldable EdgesAdded : Dict String → List PbTaskEdge → Database → Database → Type 0
EdgesAdded uuids [] db db' = db' ≡ db
EdgesAdded uuids (e ∷ es) db db' =
    (p : String) × (c : String) × (find e.parent_natural_id uuids ≡ some p)
    × (find e.child_natural_id uuids ≡ some c)
    × EdgesAdded uuids es
        (record db { edges = record { parent_task_id = p; child_task_id = c } ∷ db.edges }) db'

pub BatchTasks : ℕ → List BatchItem → Database → Database → Type 0
BatchTasks now [] db db' = db' ≡ db
BatchTasks now (i ∷ rest) db db' =
    (mid : Database) × TasksAdded now i.ctx.job_id i.ctx.natural_to_uuid i.req.edges i.req.tasks db
      mid
    × BatchTasks now rest mid db'

pub BatchEdges : List BatchItem → Database → Database → Type 0
BatchEdges [] db db' = db' ≡ db
BatchEdges (i ∷ rest) db db' =
    (mid : Database) × EdgesAdded i.ctx.natural_to_uuid i.req.edges db mid × BatchEdges rest mid db'

-- First the jobs of the whole batch, then its tasks, then its edges.
pub record IsWritten (now : ℕ) (batch : List BatchItem) (db db' : Database) : Type 0 where
  pub with_jobs : Database
  pub with_tasks : Database
  pub jobs : JobsAdded batch db with_jobs
  pub tasks : BatchTasks now batch with_jobs with_tasks
  pub edges : BatchEdges batch with_tasks db'

flush_jobs-JobsAdded :
    (batch : List BatchItem) (db db' : Database)
    → flush_jobs batch db ≡ some db'
    → JobsAdded batch db db'
unfolding flush_jobs insert_job JobsAdded
flush_jobs-JobsAdded [] db db' h = sym (eq_of_some-eq-some db db' h)
flush_jobs-JobsAdded (i ∷ rest) db db' h =
    elim (Bool-cases (has_key i.req.idempotency_key db.jobs)) [
      | inl y ↦ inl (y, flush_jobs-JobsAdded rest db db' (rw y at h))
      | inr z ↦ elim (Bool-cases (has_job i.ctx.job_id db.jobs)) [
        | inl y ↦ (let h' = rw (z, y) at h in ground (arith, h'))
        | inr w ↦ inr (z, flush_jobs-JobsAdded rest _ db' (rw (z, w) at h))
      ]
    ]

-- A row that is accepted stands in front of the table.
insert_task-front :
    (t : TaskRow) (db db' : Database)
    → insert_task t db ≡ some db'
    → record db { tasks = t ∷ db.tasks } ≡ db'
unfolding insert_task
insert_task-front t db db' h =
    elim (Bool-cases (
      has_task t.task_id db.tasks
      || has_natural t.job_id t.natural_id db.tasks
      || not (has_job t.job_id db.jobs))) [
        | inl y ↦ (let h' = rw y at h in ground (arith, h'))
        | inr z ↦ eq_of_some-eq-some _ db' (rw z at h)
      ]

insert_edge-front :
    (p c : String) (db db' : Database)
    → insert_edge p c db ≡ some db'
    → record db { edges = record { parent_task_id = p; child_task_id = c } ∷ db.edges } ≡ db'
unfolding insert_edge
insert_edge-front p c db db' h =
    elim (Bool-cases
      (has_edge_row p c db.edges || not (has_task p db.tasks) || not (has_task c db.tasks))) [
        | inl y ↦ (let h' = rw y at h in ground (arith, h'))
        | inr z ↦ eq_of_some-eq-some _ db' (rw z at h)
      ]

counted :
    (es : List PbTaskEdge) (n : String)
    → dependency_count (count_dependencies es []) n ≡ in_degree es n
unfolding find
counted es n = ground (arith, count_dependencies-in_degree es [] n)

-- The context keeps its job and its ids, and the table of the counts holds the in-degrees.
flush_item_tasks-TasksAdded :
    (es : List PbTaskEdge) (now : ℕ) (ts : List PbTask) (ctx ctx' : DagCommitContext)
    (db db' : Database)
    → flush_item_tasks (count_dependencies es []) now ctx ts db ≡ some (ctx', db')
    → TasksAdded now ctx.job_id ctx.natural_to_uuid es ts db db'
      × (ctx'.natural_to_uuid ≡ ctx.natural_to_uuid)
unfolding flush_item_tasks TasksAdded
flush_item_tasks-TasksAdded es now [] ctx ctx' db db' h =
    let e = sym (eq_of_some-eq-some (ctx, db) (ctx', db') h) in
    (ap (λ x. x.1) e, ap (λ x. x.0.natural_to_uuid) e)
flush_item_tasks-TasksAdded es now (t ∷ ts) ctx ctx' db db' h =
    let (uuid, e, h1) = >>=-eq-some (uuid_of ctx t.natural_id) _ h in
    let (db1, e1, h2) = >>=-eq-some (insert_task _ db) _ h1 in
    let (later, same) = flush_item_tasks-TasksAdded es now ts _ ctx' db1 db' h2 in
    (
      (
        uuid,
        e,
        subst
            (λ k.
              TasksAdded now ctx.job_id ctx.natural_to_uuid es ts
                (record db { tasks = task_row ctx now t k uuid ∷ db.tasks }) db')
            (counted es t.natural_id)
            (subst (λ d. TasksAdded now ctx.job_id ctx.natural_to_uuid es ts d db')
              (sym (insert_task-front _ db db1 e1)) later),
      ),
      same,
    )

flush_item_edges-EdgesAdded :
    (ctx : DagCommitContext) (es : List PbTaskEdge) (db db' : Database)
    → flush_item_edges ctx es db ≡ some db'
    → EdgesAdded ctx.natural_to_uuid es db db'
unfolding flush_item_edges EdgesAdded
flush_item_edges-EdgesAdded ctx [] db db' h = sym (eq_of_some-eq-some db db' h)
flush_item_edges-EdgesAdded ctx (x ∷ es) db db' h =
    let (a, ea, h1) = >>=-eq-some (uuid_of ctx x.parent_natural_id) _ h in
    let (c, ec, h2) = >>=-eq-some (uuid_of ctx x.child_natural_id) _ h1 in
    let (db1, e, h3) = >>=-eq-some (insert_edge a c db) _ h2 in
    (
      a,
      c,
      ea,
      ec,
      subst (λ d. EdgesAdded ctx.natural_to_uuid es d db') (sym (insert_edge-front a c db db1 e))
          (flush_item_edges-EdgesAdded ctx es db1 db' h3),
    )

-- The tasks of the batch, and with them that the edges of the items that go on are looked up in the
-- ids of the batch.
flush_tasks-BatchTasks :
    (now : ℕ) (batch items : List BatchItem) (db db' : Database)
    → flush_tasks now batch db ≡ some (items, db')
    → BatchTasks now batch db db'
      × ((d d' : Database) → flush_edges items d ≡ some d' → BatchEdges batch d d')
unfolding flush_tasks flush_edges BatchTasks BatchEdges
flush_tasks-BatchTasks now [] items db db' h =
    let e = eq_of_some-eq-some ([], db) (items, db') h in
    (
      sym (ap (λ x. x.1) e),
      λ d d' k. sym (
          eq_of_some-eq-some d d'
            (subst (λ l. flush_edges l d ≡ some d') (sym (ap (λ x. x.0) e)) k)),
    )
flush_tasks-BatchTasks now (i ∷ rest) items db db' h =
    let ((ctx, db1), e, h1) = >>=-eq-some (flush_item_tasks _ now i.ctx i.req.tasks db) _ h in
    let ((later, db2), e2, h2) = >>=-eq-some (flush_tasks now rest db1) _ h1 in
    let last = eq_of_some-eq-some (record i { ctx = ctx } ∷ later, db2) (items, db') h2 in
    let (added, same) =
      flush_item_tasks-TasksAdded i.req.edges now i.req.tasks i.ctx ctx db db1 e in
    let (tasks, edges) = flush_tasks-BatchTasks now rest later db1 db2 e2 in
    (
      (db1, added, subst (BatchTasks now rest db1) (ap (λ x. x.1) last) tasks),
      λ d d' k.
          let k' = subst (λ l. flush_edges l d ≡ some d') (sym (ap (λ x. x.0) last)) k in
          let (mid, ke, kr) = >>=-eq-some (flush_item_edges ctx i.req.edges d) _ k' in
          (
            mid,
            subst (λ u. EdgesAdded u i.req.edges d mid) same
                (flush_item_edges-EdgesAdded ctx i.req.edges d mid ke),
            edges mid d' kr,
          ),
    )

-- A batch that is committed has written these rows and no others: of every item whose idempotency key
-- is not in the table, its job; of every task, its row in state PENDING where no edge of its request
-- leads to it, and in state WAITING with the number of such edges where one does, no retry counted; of
-- every edge, the ids of its parent and of its child, in this order. And tables whose job ids, keys,
-- task ids, names of tasks within a job and edges are unique, and whose tasks and edges refer to rows
-- of the tables, are so afterwards.
pub flush_db_batch-IsWritten :
    (now : ℕ) (batch items : List BatchItem) (db db' : Database)
    → flush_db_batch now batch db ≡ some (items, db')
    → IsConsistent db
    → IsWritten now batch db db' × IsConsistent db'
unfolding flush_db_batch
flush_db_batch-IsWritten now batch items db db' h a =
    let (db1, e1, h1) = >>=-eq-some (flush_jobs batch db) _ h in
    let ((its, db2), e2, h2) = >>=-eq-some (flush_tasks now batch db1) _ h1 in
    let (db3, e3, h3) = >>=-eq-some (flush_edges its db2) _ h2 in
    let (tasks, edges) = flush_tasks-BatchTasks now batch its db1 db2 e2 in
    (
      record {
        with_jobs = db1;
        with_tasks = db2;
        jobs = flush_jobs-JobsAdded batch db db1 e1;
        tasks = tasks;
        edges =
            subst (BatchEdges batch db2) (ap (λ x. x.1) (eq_of_some-eq-some _ (items, db') h3))
              (edges db2 db3 e3);
      },
      flush_db_batch-IsConsistent now batch items db db' h a,
    )
