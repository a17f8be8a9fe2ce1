-- ===== src/Submitter.antt =====
-- api-server: a SubmitDagRequest is given its ids and queued (task_submitter.cpp, batch_item.hpp); a
-- flusher takes the queue, writes it to PostgreSQL (`Database`) and then sends it to Redis (`Pipeline`).
pub mod Database
pub mod Pipeline
pub mod Queue
pub mod Delivery
pub mod Offers
pub mod Progress
use distributed_task_system.Common.{
  ℕ, suc, ◌+◌, String, ◌≡◌, Option, List, [], ◌∷◌, arith, str_eq, eq_iff, if◌then◌else◌, get_or,
  Dict, find, put, find-put,
}

-- The fields of the message dts.task.Task that the submitter reads and writes.
pub record PbTask : Type 0 where
  pub task_id : String
  pub job_id : String
  pub natural_id : String
  pub func_name : String
  pub func_params : String
  pub priority : ℕ
  pub max_retry : ℕ
  pub timeout_ms : ℕ

pub record PbTaskEdge : Type 0 where
  pub parent_natural_id : String
  pub child_natural_id : String

pub record SubmitDagRequest : Type 0 where
  pub idempotency_key : String
  pub tasks : List PbTask
  pub edges : List PbTaskEdge

pub record DagCommitContext : Type 0 where
  pub job_id : String
  pub natural_to_uuid : Dict String
  pub entry_task_ids : List String

pub record BatchItem : Type 0 where
  pub req : SubmitDagRequest
  pub ctx : DagCommitContext

-- ctx.natural_to_uuid.at(natural_id): `none` is std::out_of_range.
abbrev pub uuid_of : DagCommitContext → String → Option String
uuid_of ctx natural_id = find natural_id ctx.natural_to_uuid

-- counts[k]++, where operator[] makes a missing entry 0.
abbrev pub bump : String → Dict ℕ → Dict ℕ
bump k m = put k (suc (get_or (find k m) 0)) m

-- The in-degrees: the loop over the edges in FlushDBBatch and in AppendDagToPipeline.
unfoldable pub count_dependencies : List PbTaskEdge → Dict ℕ → Dict ℕ
count_dependencies [] counts = counts
count_dependencies (e ∷ es) counts = count_dependencies es (bump e.child_natural_id counts)

-- counts[k] as it is read.
abbrev pub dependency_count : Dict ℕ → String → ℕ
dependency_count counts natural_id = get_or (find natural_id counts) 0

-- The number of edges into a task, by its natural id.
unfoldable pub in_degree : List PbTaskEdge → String → ℕ
in_degree [] c = 0
in_degree (e ∷ es) c =
    let rest = in_degree es c in if str_eq e.child_natural_id c then suc rest else rest

-- The table that one pass over the edges builds holds the in-degree of every task.
pub count_dependencies-in_degree :
    (es : List PbTaskEdge) (counts : Dict ℕ) (c : String)
    → dependency_count (count_dependencies es counts) c ≡ dependency_count counts c + in_degree es c
unfolding count_dependencies in_degree
count_dependencies-in_degree [] counts c = omega arith
count_dependencies-in_degree (e ∷ es) counts c = ground (
  arith,
  count_dependencies-in_degree es (bump e.child_natural_id counts) c,
  find-put e.child_natural_id c (suc (get_or (find e.child_natural_id counts) 0)) counts,
  eq_iff e.child_natural_id c,
)
