-- ===== src/Scheduler/Batcher.antt =====
-- DbBatcher of src/scheduler/src/db_batcher.cpp.
pub mod Running
pub mod Writes
use distributed_task_system.Common.{
  ℕ, zero, suc, ◌+◌, ◌≤◌, ◌<◌, String, ◌≡◌, refl, ap, ◌∙◌, Bool, some, List, [], ◌∷◌, ◌++◌, map,
  arith, str_eq, leb, if◌then◌else◌, length, All,
}
use distributed_task_system.Scheduler.{TaskState, code, Row}

pub record TaskUpdateOp : Type 0 where
  pub task_id : String
  pub state : TaskState
  pub result_json : String
  pub error_msg : String
  pub worker_id : String

abbrev pub batch_size : ℕ
batch_size = 1000

-- AddStatusUpdate: the queue, and whether the thread is woken.
unfoldable pub add_status_update : TaskUpdateOp → List TaskUpdateOp → Bool × List TaskUpdateOp
add_status_update op queue =
    let queue' = queue ++ op ∷ [] in (leb batch_size (length queue'), queue')

-- The loop that moves the front of the queue into the batch, which starts empty.
unfoldable pub collect : ℕ → List TaskUpdateOp → List TaskUpdateOp × List TaskUpdateOp
collect zero queue = ([], queue)
collect (suc room) [] = ([], [])
collect (suc room) (op ∷ queue) = let (batch, rest) = collect room queue in (op ∷ batch, rest)

-- RunLoop once stop_flag_ is set: the batches that it hands to FlushBatch, and the queue it leaves. The
-- fuel bounds the rounds.
unfoldable pub drain : ℕ → List TaskUpdateOp → List (List TaskUpdateOp) × List TaskUpdateOp
drain zero queue = ([], queue)
drain (suc fuel) [] = ([], [])
drain (suc fuel) (op ∷ queue) =
    let (batch, rest) = collect batch_size (op ∷ queue) in
    let (batches, left) = drain fuel rest in (batch ∷ batches, left)

-- The operations of a batch for a task.
unfoldable pub ops_for : String → List TaskUpdateOp → List TaskUpdateOp
ops_for id [] = []
ops_for id (op ∷ ops) =
    let rest = ops_for id ops in if str_eq op.task_id id then op ∷ rest else rest

abbrev pub written_row : ℕ → TaskUpdateOp → Row → Row
written_row now op r = record r {
  state = code op.state;
  result = some (if str_eq op.result_json "" then "{}" else op.result_json);
  error_msg = some op.error_msg;
  worker_id = some op.worker_id;
  finish_ts = some now;
}

-- UPDATE ... FROM (VALUES ...): where several values join a row, the server uses one of them, `choose`.
unfoldable pub join_row :
    (TaskUpdateOp → List TaskUpdateOp → TaskUpdateOp) → ℕ → List TaskUpdateOp → Row → Row
join_row choose now [] r = r
join_row choose now (op ∷ ops) r = written_row now (choose op ops) r

unfoldable pub flush_batch :
    (TaskUpdateOp → List TaskUpdateOp → TaskUpdateOp)
    → Bool
    → ℕ
    → List TaskUpdateOp
    → List Row
    → List Row
flush_batch choose connected now batch rows =
    if connected then map (λ r. join_row choose now (ops_for r.task_id batch) r) rows else rows

-- The batches in order.
unfoldable pub concat : List (List TaskUpdateOp) → List TaskUpdateOp
concat [] = []
concat (b ∷ bs) = b ++ concat bs

pub collect-append :
    (room : ℕ) (queue : List TaskUpdateOp)
    → (collect room queue).0 ++ (collect room queue).1 ≡ queue
unfolding collect
collect-append zero queue = refl
collect-append (suc room) [] = refl
collect-append (suc room) (op ∷ queue) = ap (λ l. op ∷ l) (collect-append room queue)

pub collect-bounds :
    (room : ℕ) (queue : List TaskUpdateOp)
    → (length (collect room queue).0 ≤ room)
      × (length (collect room queue).0 + length (collect room queue).1 ≡ length queue)
unfolding collect
collect-bounds zero queue = (omega arith, omega arith)
collect-bounds (suc room) [] = (omega arith, omega arith)
collect-bounds (suc room) (op ∷ queue) =
    let (a, b) = collect-bounds room queue in (omega (arith, a), omega (arith, b))

shorter : (a b l f : ℕ) → a + b ≡ suc l → 0 < a → suc l ≤ suc f → b ≤ f
shorter a b l f e h k = omega (arith, e, h, k)

pub first_taken :
    (room : ℕ) (op : TaskUpdateOp) (queue : List TaskUpdateOp)
    → 0 < length (collect (suc room) (op ∷ queue)).0
unfolding collect
first_taken room op queue = omega arith

-- What is flushed after the stop.
record Drained (queue : List TaskUpdateOp) (bs : List (List TaskUpdateOp))
    (left : List TaskUpdateOp) : Type 0 where
  pub complete : concat bs ≡ queue
  pub small : All (λ b. (0 < length b) × (length b ≤ batch_size)) bs
  pub empty : left ≡ []

-- Stop: once no updates are added, as many rounds as there are operations are enough for
-- RunLoop to end with an empty queue; its batches are neither empty nor longer than batch_size, and one after the
-- other they are the queue, in its order.
drain-Drained :
    (fuel : ℕ) (queue : List TaskUpdateOp)
    → length queue ≤ fuel
    → let (bs, left) = drain fuel queue in Drained queue bs left
unfolding drain concat
drain-Drained zero [] h = record { complete = refl; small = tt; empty = refl }
drain-Drained zero (op ∷ queue) h = absurd (omega (arith, h))
drain-Drained (suc fuel) [] h = record { complete = refl; small = tt; empty = refl }
drain-Drained (suc fuel) (op ∷ queue) h =
    let (batch, rest) = collect batch_size (op ∷ queue) in
    let (small, sum) = collect-bounds batch_size (op ∷ queue) in
    let pos_len = first_taken 999 op queue in
    let d = drain-Drained fuel rest (shorter _ _ (length queue) fuel sum pos_len h) in
    record {
      complete = ap (λ l. batch ++ l) d.complete ∙ collect-append batch_size (op ∷ queue);
      small = ((pos_len, small), d.small);
      empty = d.empty;
    }
