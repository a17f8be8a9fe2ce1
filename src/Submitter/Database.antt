-- ===== src/Submitter/Database.antt =====
-- FlushDBBatch of src/api-server/src/task_submitter.cpp over the tables and constraints of init.sql.
pub mod Integrity
pub mod Commit
pub mod Repeated
pub mod Rows
use distributed_task_system.Common.{
  ℕ, ◌>>=◌, ◌>>◌, String, Bool, false, not, ◌&&◌, ◌||◌, Option, none, some, List, [], ◌∷◌, ◌++◌,
  str_eq, ◌==◌, if◌then◌else◌, Dict,
}
use distributed_task_system.Submitter.{
  PbTask, PbTaskEdge, DagCommitContext, BatchItem, uuid_of, count_dependencies, dependency_count,
}

-- A row of public.task, in the columns that FlushDBBatch writes.
pub record TaskRow : Type 0 where
  pub task_id : String
  pub job_id : String
  pub natural_id : String
  pub func_name : String
  pub func_params : String
  pub priority : ℕ
  pub state : ℕ
  pub pending_dependencies : ℕ
  pub max_retry : ℕ
  pub retry_count : ℕ
  pub timeout_ms : ℕ
  pub submit_ts : ℕ

pub record JobRow : Type 0 where
  pub job_id : String
  pub idempotency_key : String

pub record EdgeRow : Type 0 where
  pub parent_task_id : String
  pub child_task_id : String

-- The newest row of a table stands first.
pub record Database : Type 0 where
  pub jobs : List JobRow
  pub tasks : List TaskRow
  pub edges : List EdgeRow

unfoldable pub has_job : String → List JobRow → Bool
has_job id [] = false
has_job id (j ∷ js) = str_eq j.job_id id || has_job id js

unfoldable pub has_key : String → List JobRow → Bool
has_key key [] = false
has_key key (j ∷ js) = str_eq j.idempotency_key key || has_key key js

unfoldable pub has_task : String → List TaskRow → Bool
has_task id [] = false
has_task id (t ∷ ts) = str_eq t.task_id id || has_task id ts

unfoldable pub has_natural : String → String → List TaskRow → Bool
has_natural job natural [] = false
has_natural job natural (t ∷ ts) =
    (str_eq t.job_id job && str_eq t.natural_id natural) || has_natural job natural ts

unfoldable pub has_edge_row : String → String → List EdgeRow → Bool
has_edge_row p c [] = false
has_edge_row p c (e ∷ es) =
    (str_eq e.parent_task_id p && str_eq e.child_task_id c) || has_edge_row p c es

-- INSERT INTO public.job ... ON CONFLICT (idempotency_key) DO NOTHING, one row of the temporary table.
unfoldable pub insert_job : String → String → Database → Option Database
insert_job job_id key db =
    if has_key key db.jobs
    then some db
    else if has_job job_id db.jobs
    then none
    else some (record db { jobs = record { job_id = job_id; idempotency_key = key } ∷ db.jobs })

-- task_pkey, uq_job_natural_id and fk_task_to_job.
unfoldable pub insert_task : TaskRow → Database → Option Database
insert_task t db =
    if has_task t.task_id db.tasks
      || has_natural t.job_id t.natural_id db.tasks
      || not (has_job t.job_id db.jobs)
    then none
    else some (record db { tasks = t ∷ db.tasks })

-- task_edge_pkey, fk_edge_to_child and fk_edge_to_parent.
unfoldable pub insert_edge : String → String → Database → Option Database
insert_edge p c db =
    if has_edge_row p c db.edges || not (has_task p db.tasks) || not (has_task c db.tasks)
    then none
    else some (record db { edges = record { parent_task_id = p; child_task_id = c } ∷ db.edges })

-- Part 1: the jobs of the batch.
unfoldable pub flush_jobs : List BatchItem → Database → Option Database
flush_jobs [] db = some db
flush_jobs (i ∷ rest) db = insert_job i.ctx.job_id i.req.idempotency_key db >>= flush_jobs rest

-- The row of a task; 0 is PENDING and 6 is WAITING.
abbrev pub task_row : DagCommitContext → ℕ → PbTask → ℕ → String → TaskRow
task_row ctx now_ts t pending uuid = record {
  task_id = uuid;
  job_id = ctx.job_id;
  natural_id = t.natural_id;
  func_name = t.func_name;
  func_params = t.func_params;
  priority = t.priority;
  state = if pending == 0 then 0 else 6;
  pending_dependencies = pending;
  max_retry = t.max_retry;
  retry_count = 0;
  timeout_ms = t.timeout_ms;
  submit_ts = now_ts;
}

-- Part 2, the tasks of one item, with the entry tasks that it notes in the context.
unfoldable pub flush_item_tasks :
    Dict ℕ → ℕ → DagCommitContext → List PbTask → Database → Option (DagCommitContext × Database)
flush_item_tasks counts now_ts ctx [] db = some (ctx, db)
flush_item_tasks counts now_ts ctx (t ∷ ts) db = do
  uuid ← uuid_of ctx t.natural_id
  let pending = dependency_count counts t.natural_id
  let noted = if pending == 0 then ctx.entry_task_ids ++ uuid ∷ [] else ctx.entry_task_ids
  db' ← insert_task (task_row ctx now_ts t pending uuid) db
  flush_item_tasks counts now_ts (record ctx { entry_task_ids = noted }) ts db'

unfoldable pub flush_tasks : ℕ → List BatchItem → Database → Option (List BatchItem × Database)
flush_tasks now_ts [] db = some ([], db)
flush_tasks now_ts (i ∷ rest) db = do
  (ctx, db') ← flush_item_tasks (count_dependencies i.req.edges []) now_ts i.ctx i.req.tasks db
  (items, db'') ← flush_tasks now_ts rest db'
  some (record i { ctx = ctx } ∷ items, db'')

-- Part 3, the edges of one item. With no edges in the batch no stream is opened, and none is written.
unfoldable pub flush_item_edges : DagCommitContext → List PbTaskEdge → Database → Option Database
flush_item_edges ctx [] db = some db
flush_item_edges ctx (e ∷ es) db = do
  p ← uuid_of ctx e.parent_natural_id
  c ← uuid_of ctx e.child_natural_id
  db' ← insert_edge p c db
  flush_item_edges ctx es db'

unfoldable pub flush_edges : List BatchItem → Database → Option Database
flush_edges [] db = some db
flush_edges (i ∷ rest) db = flush_item_edges i.ctx i.req.edges db >>= flush_edges rest

-- The transaction: `none` is an exception, after which PostgreSQL rolls back.
unfoldable pub flush_db_batch : ℕ → List BatchItem → Database → Option (List BatchItem × Database)
flush_db_batch now_ts batch db = do
  with_jobs ← flush_jobs batch db
  (items, with_tasks) ← flush_tasks now_ts batch with_jobs
  with_edges ← flush_edges items with_tasks
  some (items, with_edges)
