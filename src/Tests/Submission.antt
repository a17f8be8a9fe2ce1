-- ===== src/Tests/Submission.antt =====
-- The theorems of `Submitter` at the diamond.
use distributed_task_system.Common.{
  ℕ, String, ◌≡◌, refl, true, false, none, some, List, [], ◌∷◌, ◌++◌, map, arith, str_eq,
  if◌then◌else◌, get_or, length, mem, find, put,
}
use distributed_task_system.Submitter.Offers.{IsOffered}
use distributed_task_system.Submitter.Progress.{job_goes_on}
use distributed_task_system.Redis.Keys.{k_tasks, k_errors}
use distributed_task_system.Redis.Memory.{memory, empty_memory, memory_laws}
use distributed_task_system.CompleteTask.{ready_entry}
use distributed_task_system.Workflow.{Edge, DistinctEdges, IsFresh}
use distributed_task_system.Workflow.Progress.{complete_run}
use distributed_task_system.Workflow.Runs.{Releases}
use distributed_task_system.Submitter.{BatchItem, count_dependencies}
use distributed_task_system.Submitter.Database.{
  Database, has_job, has_key, has_task, has_natural, has_edge_row, insert_job, insert_task,
  insert_edge, flush_jobs, flush_item_tasks, flush_tasks, flush_item_edges, flush_edges,
  flush_db_batch,
}
use distributed_task_system.Submitter.Database.Integrity.{
  IsConsistent, UniqueJobs, UniqueNames, UniqueTasks, UniqueEdges, UniqueKeys,
}
use distributed_task_system.Submitter.Database.Rows.{IsWritten, flush_db_batch-IsWritten}
use distributed_task_system.Submitter.Database.Repeated.{flush_db_batch_repeated}
use distributed_task_system.Submitter.Pipeline.{
  Command, append_edges, append_tasks, append_dag_to_pipeline, exec,
}
use distributed_task_system.Submitter.Pipeline.Effect.{resolve_edges}
use distributed_task_system.Submitter.Pipeline.Tracked.{Submitted, append_dag-Submitted}
use distributed_task_system.Submitter.Queue.{
  Outcome, new_item, assign, done, append_all, send, after_tx, process_batch,
}
use distributed_task_system.Submitter.Queue.Ids.{new_item-IsInjective, new_item-IsNamed}
use distributed_task_system.Submitter.Queue.Behaviour.{
  Event, request, wake, stop, initial, run, IsFifo, IsServed, queue-IsFifo,
}
use distributed_task_system.Submitter.Delivery.{new_ids, first_messages, submit_and_run}
use distributed_task_system.Tests.{
  unary_id, unary_id_injective, small_task, diamond, diamond_ctx, no_tables, task_name,
}

abbrev whole : List Command → ℕ
whole cs = length cs

-- The batch that holds the diamond alone.
abbrev batch_result : Outcome × Database × memory.Store
batch_result =
    process_batch task_name memory true whole 7 (new_item unary_id 0 diamond ∷ []) no_tables
      empty_memory

batch_ends_well : batch_result ≡ (done, batch_result.1, batch_result.2)
unfolding process_batch flush_db_batch flush_jobs insert_job has_key has_job flush_tasks
    flush_item_tasks insert_task has_task has_natural flush_edges flush_item_edges insert_edge
    has_edge_row after_tx send append_all append_dag_to_pipeline append_edges append_tasks assign
    count_dependencies find put unary_id mem
batch_ends_well = refl

abbrev diamond_ids : List String
diamond_ids = new_ids unary_id 0 diamond

-- The ids of a, b and c.
abbrev completed : List String
completed = "xz" ∷ "xxz" ∷ "xxxz" ∷ []

completed-IsFresh : IsFresh diamond_ids completed []
unfolding assign find put unary_id mem
completed-IsFresh = (refl, refl, (refl, refl, (refl, refl, tt)))

abbrev final_store : memory.Store
final_store = complete_run memory (unary_id 0) completed batch_result.2

submit_and_run_example :
    (us : List Edge) × (resolve_edges diamond_ctx diamond.edges ≡ some us)
    × DistinctEdges us
    × ((rs : List String) × (memory.entries final_store k_tasks
          ≡ (memory.entries empty_memory k_tasks ++ first_messages unary_id 0 diamond)
            ++ map (ready_entry (unary_id 0)) rs)
        × (memory.entries final_store k_errors ≡ memory.entries empty_memory k_errors)
        × Releases us completed [] rs)
unfolding unary_id mem
submit_and_run_example =
    submit_and_run task_name memory memory_laws whole unary_id unary_id_injective 0 7 diamond
      completed no_tables batch_result.1 empty_memory batch_result.2 refl batch_ends_well
      (λ p c k. refl) completed-IsFresh

abbrev diamond_level : String → ℕ
diamond_level n = if str_eq n "a" then 0 else if str_eq n "d" then 2 else 1

-- With d left out.
job_goes_on_example :
    (y : String) × (mem y diamond_ids ≡ true)
    × (mem y completed ≡ false)
    × IsOffered (memory.entries final_store k_tasks) (unary_id 0) y
unfolding unary_id mem assign find put
job_goes_on_example =
    job_goes_on unary_id unary_id_injective 0 diamond task_name memory memory_laws whole 7 completed
      no_tables batch_result.1 empty_memory batch_result.2 diamond_level "xxxxz" refl
      batch_ends_well (λ p c k. refl) completed-IsFresh
      (omega arith, (omega arith, (omega arith, (omega arith, tt)))) refl refl

diamond_commands : List Command
unfolding append_dag_to_pipeline append_edges append_tasks assign count_dependencies find put
    unary_id mem
diamond_commands = get_or (append_dag_to_pipeline task_name diamond diamond_ctx) []

append_dag-Submitted_example :
    (us : List Edge) × (resolve_edges diamond_ctx diamond.edges ≡ some us)
    × Submitted task_name memory memory_laws diamond diamond_ctx
        (new_item-IsInjective unary_id unary_id_injective 0 diamond)
        (new_item-IsNamed unary_id 0 diamond)
        us
        empty_memory
        (exec memory diamond_commands empty_memory)
unfolding append_dag_to_pipeline append_edges append_tasks assign count_dependencies find put
    unary_id mem diamond_commands
append_dag-Submitted_example =
    append_dag-Submitted task_name memory memory_laws diamond diamond_ctx
      (new_item-IsInjective unary_id unary_id_injective 0 diamond)
      (new_item-IsNamed unary_id 0 diamond) diamond_commands empty_memory refl refl (λ p c k. refl)

abbrev committed : List BatchItem × Database
committed = get_or (flush_db_batch 7 (new_item unary_id 0 diamond ∷ []) no_tables) ([], no_tables)

commits :
    flush_db_batch 7 (new_item unary_id 0 diamond ∷ []) no_tables ≡ some (committed.0, committed.1)
unfolding flush_db_batch flush_jobs insert_job has_key has_job flush_tasks flush_item_tasks
    insert_task has_task has_natural flush_edges flush_item_edges insert_edge has_edge_row assign
    count_dependencies find put unary_id
commits = refl

no_tables-IsConsistent : IsConsistent no_tables
unfolding UniqueJobs UniqueNames UniqueTasks UniqueEdges UniqueKeys has_edge_row
no_tables-IsConsistent = record {
  jobs = tt;
  keys = tt;
  tasks = tt;
  names = tt;
  edges = tt;
  owned = tt;
  linked = λ p c h. ground (arith, h);
}

flush_db_batch-IsWritten_example :
    IsWritten 7 (new_item unary_id 0 diamond ∷ []) no_tables committed.1 × IsConsistent committed.1
flush_db_batch-IsWritten_example =
    flush_db_batch-IsWritten 7 (new_item unary_id 0 diamond ∷ []) committed.0 no_tables committed.1
      commits no_tables-IsConsistent

abbrev some_rounds : List Event
some_rounds = request diamond ∷ wake true ∷ request diamond ∷ stop ∷ wake false ∷ []

queue-IsFifo_example :
    IsFifo unary_id (run unary_id some_rounds initial)
    × IsServed unary_id (run unary_id some_rounds initial)
queue-IsFifo_example = queue-IsFifo unary_id some_rounds

-- The same request again, with new ids.
flush_db_batch_repeated_example :
    flush_db_batch 8 (new_item unary_id 9 diamond ∷ []) batch_result.1 ≡ none
unfolding process_batch flush_db_batch flush_jobs insert_job has_key has_job flush_tasks
    flush_item_tasks insert_task has_task has_natural flush_edges flush_item_edges insert_edge
    has_edge_row after_tx assign count_dependencies find put unary_id
flush_db_batch_repeated_example =
    flush_db_batch_repeated 8 (new_item unary_id 9 diamond) (small_task "a")
      (small_task "b" ∷ small_task "c" ∷ small_task "d" ∷ []) [] batch_result.1 refl refl refl tt
