-- ===== src/Tests/Flushing.antt =====
-- The theorems of `Scheduler.Batcher` at a few updates.
use distributed_task_system.Common.{◌≡◌, refl, true, false, none, some, List, [], ◌∷◌, arith, All}
use distributed_task_system.Scheduler.{Row, failed, success}
use distributed_task_system.Scheduler.Batcher.{TaskUpdateOp, concat, ops_for, join_row, flush_batch}
use distributed_task_system.Scheduler.Batcher.Running.{
  BatcherEvent, added, turned, started, returned, run_batcher, stop_batcher, turns, updates,
  IsBatch,
}
use distributed_task_system.Scheduler.Batcher.Running.Stopping.{stop_flushes_every}
use distributed_task_system.Scheduler.Batcher.Writes.{
  Flush, updated, LastWrite, Each, IsChoice, flush_each, flush_each-LastWrite,
}

abbrev one_op : TaskUpdateOp
one_op = record {
  task_id = "t";
  state = success;
  result_json = "";
  error_msg = "";
  worker_id = "w";
}

abbrev two_updates : List BatcherEvent
two_updates = added one_op ∷ turned ∷ added one_op ∷ turned ∷ []

stop_flushes_every_example :
    let b = turns 6 (stop_batcher (run_batcher two_updates started)) in
    (b.phase ≡ returned) × (concat b.flushed ≡ one_op ∷ one_op ∷ []) × All IsBatch b.flushed
unfolding updates
stop_flushes_every_example = stop_flushes_every two_updates 6 (omega arith)

abbrev task_row : Row
task_row = record {
  task_id = "t";
  job_id = "j";
  natural_id = "a";
  func_name = "print";
  func_params = "";
  priority = 1;
  state = 1;
  max_retry = 2;
  retry_count = 1;
  timeout_ms = 1000;
  submit_ts = 7;
  worker_id = some "w";
  start_ts = some 8;
  finish_ts = none;
  error_msg = none;
  result = none;
}

-- The second flush does not reach the database.
abbrev two_flushes : List Flush
two_flushes =
    record { connected = true; now = 7; batch = one_op ∷ record one_op { state = failed } ∷ [] }
    ∷ record { connected = false; now = 8; batch = one_op ∷ [] }
    ∷ []

abbrev first_one : TaskUpdateOp → List TaskUpdateOp → TaskUpdateOp
first_one op ops = op

first_one-IsChoice : IsChoice first_one
first_one-IsChoice op ops = (0, refl)

flush_each-LastWrite_example :
    Each (LastWrite two_flushes) (task_row ∷ []) (flush_each first_one two_flushes (task_row ∷ []))
flush_each-LastWrite_example =
    flush_each-LastWrite first_one first_one-IsChoice two_flushes (task_row ∷ [])

written_once : flush_each first_one two_flushes (task_row ∷ []) ≡ updated 7 one_op task_row ∷ []
unfolding flush_each flush_batch join_row ops_for
written_once = refl
