-- ===== src/Submitter/Pipeline.antt =====
-- AppendDagToPipeline of src/api-server/src/task_submitter.cpp: the Redis commands of one job.
pub mod Effect
pub mod OneTask
pub mod Tasks
pub mod Tracked
use distributed_task_system.Common.{
  ℕ, ◌>>=◌, ◌>>◌, String, Option, some, List, [], ◌∷◌, ◌++◌, str_eq, ltb, if◌then◌else◌, is_empty,
  mem, ℤ, pos, Dict,
}
use distributed_task_system.Redis.{Redis, Fields, text}
use distributed_task_system.Redis.Keys.{k_tasks, children, dependency_hash, task_meta}
use distributed_task_system.Submitter.{
  PbTask, PbTaskEdge, SubmitDagRequest, DagCommitContext, uuid_of, count_dependencies,
  dependency_count,
}

-- A command that waits in the pipeline.
pub data Command : Type 0 where
  sadd : String → String → Command
  expire : String → Command
  set : String → String → Command
  hset : String → String → ℤ → Command
  xadd : String → Fields → Command

-- BuildXAddFieldsFromProto.
abbrev pub x_add_fields : String → String → Fields
x_add_fields task_uuid job_id = ("id", text task_uuid) ∷ ("job", text job_id) ∷ []

-- Phase 1: the sets of children. `processed` are the parents that have had their EXPIRE.
unfoldable pub append_edges :
    DagCommitContext → List String → List PbTaskEdge → Option (List Command)
append_edges ctx processed [] = some []
append_edges ctx processed (e ∷ es) = do
  p_uuid ← uuid_of ctx e.parent_natural_id
  c_uuid ← uuid_of ctx e.child_natural_id
  let seen = mem p_uuid processed
  rest ← append_edges ctx (if seen then processed else p_uuid ∷ processed) es
  some (sadd (children p_uuid) c_uuid ∷ (if seen then rest else expire (children p_uuid) ∷ rest))

-- The message that is stored for a task, before it is serialised.
abbrev pub internal_task : DagCommitContext → String → PbTask → PbTask
internal_task ctx uuid t = record t { task_id = uuid; job_id = ctx.job_id }

module _ (serialize : PbTask → String) where
  -- Phase 2: the metadata, and the counter or the stream message, of each task.
  unfoldable pub append_tasks : Dict ℕ → DagCommitContext → List PbTask → Option (List Command)
  append_tasks counts ctx [] = some []
  append_tasks counts ctx (t ∷ ts) = do
    uuid ← uuid_of ctx t.natural_id
    let pending = dependency_count counts t.natural_id
    rest ← append_tasks counts ctx ts
    some (
        set (task_meta uuid) (serialize (internal_task ctx uuid t))
        ∷ (if ltb 0 pending
            then hset (dependency_hash ctx.job_id) uuid (pos pending)
            else xadd k_tasks (x_add_fields uuid ctx.job_id))
        ∷ rest)

  -- The whole job; `none` is std::out_of_range.
  unfoldable pub append_dag_to_pipeline :
      SubmitDagRequest → DagCommitContext → Option (List Command)
  append_dag_to_pipeline req ctx = if str_eq ctx.job_id "" then some [] else (do
    edges ← append_edges ctx [] req.edges
    tasks ← append_tasks (count_dependencies req.edges []) ctx req.tasks
    some (
        edges
        ++ (tasks
            ++ (if is_empty req.edges then [] else expire (dependency_hash ctx.job_id) ∷ []))))

module _ (r : Redis) where
  abbrev pub run_command : Command → r.Store → r.Store
  run_command (sadd k v) s = r.sadd s k v
  run_command (expire k) s = r.expire s k
  run_command (set k v) s = r.write s k v
  run_command (hset k f n) s = r.hset s k f n
  run_command (xadd k e) s = r.xadd s k e

  -- pipe.exec().
  unfoldable pub exec : List Command → r.Store → r.Store
  exec [] s = s
  exec (c ∷ cs) s = exec cs (run_command c s)
