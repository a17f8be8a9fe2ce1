-- ===== src/Submitter/Database/Integrity.antt =====
-- What a transaction of FlushDBBatch keeps of the tables.
use distributed_task_system.Common.{
  ℕ, >>=-eq-some, eq_of_some-eq-some, String, ◌≡◌, ap, subst, inl, inr, true, false, not, ◌||◌,
  some, List, [], ◌∷◌, arith, eq_iff, Bool-cases, All, Dict,
}
use distributed_task_system.Submitter.{PbTask, PbTaskEdge, DagCommitContext, BatchItem, uuid_of}
use distributed_task_system.Submitter.Database.{
  TaskRow, JobRow, EdgeRow, Database, has_job, has_key, has_task, has_natural, has_edge_row,
  insert_job, insert_task, insert_edge, flush_jobs, flush_item_tasks, flush_tasks, flush_item_edges,
  flush_edges, flush_db_batch,
}

-- The task ids of a table are all different, and so are its edges.
unfoldable pub UniqueTasks : List TaskRow → Type 0
UniqueTasks [] = Unit
UniqueTasks (t ∷ ts) = (has_task t.task_id ts ≡ false) × UniqueTasks ts

unfoldable pub UniqueEdges : List EdgeRow → Type 0
UniqueEdges [] = Unit
UniqueEdges (e ∷ es) = (has_edge_row e.parent_task_id e.child_task_id es ≡ false) × UniqueEdges es

unfoldable pub UniqueKeys : List JobRow → Type 0
UniqueKeys [] = Unit
UniqueKeys (j ∷ js) = (has_key j.idempotency_key js ≡ false) × UniqueKeys js

unfoldable pub UniqueJobs : List JobRow → Type 0
UniqueJobs [] = Unit
UniqueJobs (j ∷ js) = (has_job j.job_id js ≡ false) × UniqueJobs js

unfoldable pub UniqueNames : List TaskRow → Type 0
UniqueNames [] = Unit
UniqueNames (t ∷ ts) = (has_natural t.job_id t.natural_id ts ≡ false) × UniqueNames ts

-- The tables keep their primary, unique and foreign keys.
pub record IsConsistent (db : Database) : Type 0 where
  pub jobs : UniqueJobs db.jobs
  pub keys : UniqueKeys db.jobs
  pub tasks : UniqueTasks db.tasks
  pub names : UniqueNames db.tasks
  pub edges : UniqueEdges db.edges
  pub owned : All (λ t. has_job t.job_id db.jobs ≡ true) db.tasks
  pub linked :
      (p c : String)
      → has_edge_row p c db.edges ≡ true
      → (has_task p db.tasks ≡ true) × (has_task c db.tasks ≡ true)

-- A property of the database that every row kept in order leaves as it is.
pub record IsKept (P : Database → Type 0) : Type 0 where
  pub by_job :
      (id key : String) (db db' : Database) → insert_job id key db ≡ some db' → P db → P db'
  pub by_task : (t : TaskRow) (db db' : Database) → insert_task t db ≡ some db' → P db → P db'
  pub by_edge : (p c : String) (db db' : Database) → insert_edge p c db ≡ some db' → P db → P db'

module _ (P : Database → Type 0) (kept : IsKept P) where
  pub flush_jobs_keeps :
      (batch : List BatchItem) (db db' : Database) → flush_jobs batch db ≡ some db' → P db → P db'
  unfolding flush_jobs
  flush_jobs_keeps [] db db' h p = subst P (eq_of_some-eq-some db db' h) p
  flush_jobs_keeps (i ∷ rest) db db' h p =
      let (db1, e, h1) = >>=-eq-some (insert_job i.ctx.job_id i.req.idempotency_key db) _ h in
      flush_jobs_keeps rest db1 db' h1 (kept.by_job _ _ db db1 e p)

  pub flush_item_tasks_keeps :
      (counts : Dict ℕ) (now : ℕ) (ts : List PbTask) (ctx ctx' : DagCommitContext)
      (db db' : Database)
      → flush_item_tasks counts now ctx ts db ≡ some (ctx', db')
      → P db
      → P db'
  unfolding flush_item_tasks
  flush_item_tasks_keeps counts now [] ctx ctx' db db' h p =
      subst P (ap (λ x. x.1) (eq_of_some-eq-some (ctx, db) (ctx', db') h)) p
  flush_item_tasks_keeps counts now (t ∷ ts) ctx ctx' db db' h p =
      let (uuid, e, h1) = >>=-eq-some (uuid_of ctx t.natural_id) _ h in
      let (db1, e1, h2) = >>=-eq-some (insert_task _ db) _ h1 in
      flush_item_tasks_keeps counts now ts _ ctx' db1 db' h2 (kept.by_task _ db db1 e1 p)

  pub flush_tasks_keeps :
      (now : ℕ) (batch items : List BatchItem) (db db' : Database)
      → flush_tasks now batch db ≡ some (items, db')
      → P db
      → P db'
  unfolding flush_tasks
  flush_tasks_keeps now [] items db db' h p =
      subst P (ap (λ x. x.1) (eq_of_some-eq-some ([], db) (items, db') h)) p
  flush_tasks_keeps now (i ∷ rest) items db db' h p =
      let ((ctx, db1), e, h1) = >>=-eq-some (flush_item_tasks _ now i.ctx i.req.tasks db) _ h in
      let ((later, db2), e2, h2) = >>=-eq-some (flush_tasks now rest db1) _ h1 in
      subst P (ap (λ x. x.1) (eq_of_some-eq-some _ (items, db') h2)) (
        flush_tasks_keeps now rest later db1 db2 e2
          (flush_item_tasks_keeps _ now i.req.tasks i.ctx ctx db db1 e p))

  pub flush_item_edges_keeps :
      (ctx : DagCommitContext) (es : List PbTaskEdge) (db db' : Database)
      → flush_item_edges ctx es db ≡ some db'
      → P db
      → P db'
  unfolding flush_item_edges
  flush_item_edges_keeps ctx [] db db' h p = subst P (eq_of_some-eq-some db db' h) p
  flush_item_edges_keeps ctx (x ∷ es) db db' h p =
      let (a, ea, h1) = >>=-eq-some (uuid_of ctx x.parent_natural_id) _ h in
      let (c, ec, h2) = >>=-eq-some (uuid_of ctx x.child_natural_id) _ h1 in
      let (db1, e, h3) = >>=-eq-some (insert_edge a c db) _ h2 in
      flush_item_edges_keeps ctx es db1 db' h3 (kept.by_edge a c db db1 e p)

  pub flush_edges_keeps :
      (batch : List BatchItem) (db db' : Database) → flush_edges batch db ≡ some db' → P db → P db'
  unfolding flush_edges
  flush_edges_keeps [] db db' h p = subst P (eq_of_some-eq-some db db' h) p
  flush_edges_keeps (i ∷ rest) db db' h p =
      let (db1, e, h1) = >>=-eq-some (flush_item_edges i.ctx i.req.edges db) _ h in
      flush_edges_keeps rest db1 db' h1 (flush_item_edges_keeps i.ctx i.req.edges db db1 e p)

  pub flush_db_batch_keeps :
      (now : ℕ) (batch items : List BatchItem) (db db' : Database)
      → flush_db_batch now batch db ≡ some (items, db')
      → P db
      → P db'
  unfolding flush_db_batch
  flush_db_batch_keeps now batch items db db' h p =
      let (db1, e1, h1) = >>=-eq-some (flush_jobs batch db) _ h in
      let ((its, db2), e2, h2) = >>=-eq-some (flush_tasks now batch db1) _ h1 in
      let (db3, e3, h3) = >>=-eq-some (flush_edges its db2) _ h2 in
      subst P (ap (λ x. x.1) (eq_of_some-eq-some _ (items, db') h3)) (
        flush_edges_keeps its db2 db3 e3
          (flush_tasks_keeps now batch its db1 db2 e2 (flush_jobs_keeps batch db db1 e1 p)))

more_jobs :
    (j : JobRow) (js : List JobRow) (ts : List TaskRow)
    → All (λ t. has_job t.job_id js ≡ true) ts
    → All (λ t. has_job t.job_id (j ∷ js) ≡ true) ts
unfolding has_job
more_jobs j js [] a = a
more_jobs j js (t ∷ ts) a = (ground (arith, a.0), more_jobs j js ts a.1)

insert_job-IsConsistent :
    (id key : String) (db db' : Database)
    → insert_job id key db ≡ some db'
    → IsConsistent db
    → IsConsistent db'
unfolding insert_job
insert_job-IsConsistent id key db db' h a = elim (Bool-cases (has_key key db.jobs)) [
  | inl y ↦ subst IsConsistent (eq_of_some-eq-some db db' (rw y at h)) a
  | inr z ↦ elim (Bool-cases (has_job id db.jobs)) [
    | inl y ↦ (let h' = rw (z, y) at h in ground (arith, h'))
    | inr w ↦ subst IsConsistent (eq_of_some-eq-some _ db' (rw (z, w) at h)) (record {
      jobs = unfold UniqueJobs in (w, a.jobs);
      keys = unfold UniqueKeys in (z, a.keys);
      tasks = a.tasks;
      names = a.names;
      edges = a.edges;
      owned = more_jobs _ db.jobs db.tasks a.owned;
      linked = a.linked;
    })
  ]
]

insert_task-IsConsistent :
    (t : TaskRow) (db db' : Database)
    → insert_task t db ≡ some db'
    → IsConsistent db
    → IsConsistent db'
unfolding insert_task
insert_task-IsConsistent t db db' h a =
    elim (Bool-cases (
      has_task t.task_id db.tasks
      || has_natural t.job_id t.natural_id db.tasks
      || not (has_job t.job_id db.jobs))) [
        | inl y ↦ (let h' = rw y at h in ground (arith, h'))
        | inr z ↦ subst IsConsistent (eq_of_some-eq-some _ db' (rw z at h)) (record {
          jobs = a.jobs;
          keys = a.keys;
          tasks = unfold UniqueTasks in (ground (arith, z), a.tasks);
          names = unfold UniqueNames in (ground (arith, z), a.names);
          edges = a.edges;
          owned = (ground (arith, z), a.owned);
          linked = λ p c e.
              let (l, r) = a.linked p c e in
              unfold has_task in (ground (arith, l), ground (arith, r));
        })
      ]

new_edge_linked :
    (p c : String) (db : Database)
    → IsConsistent db
    → (has_edge_row p c db.edges || not (has_task p db.tasks) || not (has_task c db.tasks)) ≡ false
    → (q d : String)
    → has_edge_row q d (record { parent_task_id = p; child_task_id = c } ∷ db.edges) ≡ true
    → (has_task q db.tasks ≡ true) × (has_task d db.tasks ≡ true)
unfolding has_edge_row
new_edge_linked p c db a z q d e =
    let l = a.linked q d in
    (
      ground (arith, l, eq_iff p q, eq_iff c d, z, e),
      ground (arith, l, eq_iff p q, eq_iff c d, z, e),
    )

insert_edge-IsConsistent :
    (p c : String) (db db' : Database)
    → insert_edge p c db ≡ some db'
    → IsConsistent db
    → IsConsistent db'
unfolding insert_edge
insert_edge-IsConsistent p c db db' h a =
    elim (Bool-cases
      (has_edge_row p c db.edges || not (has_task p db.tasks) || not (has_task c db.tasks))) [
        | inl y ↦ (let h' = rw y at h in ground (arith, h'))
        | inr z ↦ subst IsConsistent (eq_of_some-eq-some _ db' (rw z at h)) (record {
          jobs = a.jobs;
          keys = a.keys;
          tasks = a.tasks;
          names = a.names;
          edges = unfold UniqueEdges in (ground (arith, z), a.edges);
          owned = a.owned;
          linked = new_edge_linked p c db a z;
        })
      ]

-- The keys of the tables are kept by every row that the tables accept.
pub flush_db_batch-IsConsistent :
    (now : ℕ) (batch items : List BatchItem) (db db' : Database)
    → flush_db_batch now batch db ≡ some (items, db')
    → IsConsistent db
    → IsConsistent db'
flush_db_batch-IsConsistent = flush_db_batch_keeps IsConsistent (record {
  by_job = insert_job-IsConsistent;
  by_task = insert_task-IsConsistent;
  by_edge = insert_edge-IsConsistent;
})
