-- ===== src/Submitter/Queue.antt =====
-- SubmitDagAsync, FlusherLoop and ProcessBatch of src/api-server/src/task_submitter.cpp.
pub mod Ids
pub mod Behaviour
use distributed_task_system.Common.{
  ℕ, suc, ◌>>=◌, ◌>>◌, String, Bool, not, ◌&&◌, ◌||◌, Option, none, some, List, [], ◌∷◌, ◌++◌, ltb,
  leb, if◌then◌else◌, length, take, is_empty, Dict, put,
}
use distributed_task_system.Redis.{Redis}
use distributed_task_system.Submitter.{PbTask, SubmitDagRequest, BatchItem}
use distributed_task_system.Submitter.Database.{Database, flush_db_batch}
use distributed_task_system.Submitter.Pipeline.{Command, append_dag_to_pipeline, exec}

abbrev pub max_queue_size : ℕ
max_queue_size = 100000

abbrev pub min_batch_size : ℕ
min_batch_size = 200

-- The members of TaskSubmitter, and how many ids dts::common::generate has made.
pub record State : Type 0 where
  pub pending_queue : List BatchItem
  pub running : Bool
  pub generated : ℕ

-- What SubmitDagAsync does for its caller: an id, with or without a wake-up, or std::runtime_error.
pub data Reply : Type 0 where
  accepted : String → Bool → Reply
  queue_full : Reply

module _ (generate : ℕ → String) where
  -- The ids of the tasks: natural_to_uuid[task.natural_id()] = uuid.
  unfoldable pub assign : ℕ → List PbTask → Dict String → ℕ × Dict String
  assign n [] m = (n, m)
  assign n (t ∷ ts) m = assign (suc n) ts (put t.natural_id (generate n) m)

  -- The item that the request becomes, after the ids that have been made already.
  abbrev pub new_item : ℕ → SubmitDagRequest → BatchItem
  new_item n req = record {
    req = req;
    ctx = record {
      job_id = generate n;
      natural_to_uuid = (assign (suc n) req.tasks []).1;
      entry_task_ids = [];
    };
  }

  unfoldable pub submit_dag_async : SubmitDagRequest → State → Reply × State
  submit_dag_async req s =
      let n = (assign (suc s.generated) req.tasks []).0 in
      if leb max_queue_size (length s.pending_queue)
      then (queue_full, record s { generated = n })
      else (let queue = s.pending_queue ++ new_item s.generated req ∷ [] in
          (
            accepted (generate s.generated) (leb min_batch_size (length queue)),
            record s { pending_queue = queue; generated = n },
          ))

-- What a round of FlusherLoop decides: to return, to go around, or to process a batch.
pub data Round : Type 0 where
  leave : Round
  again : Round
  flush : List BatchItem → Round

-- A round: `running` is what the head of the loop read, and the state is the one after the wait.
unfoldable pub flusher_round : Bool → State → Round × State
flusher_round running s =
    if not running || (not s.running && is_empty s.pending_queue)
    then (leave, s)
    else if is_empty s.pending_queue
    then (again, s)
    else (flush s.pending_queue, record s { pending_queue = [] })

pub data Outcome : Type 0 where
  done : Outcome
  batch_failed : Outcome

-- The commands of every item, in order; `none` is an exception.
unfoldable pub append_all : (PbTask → String) → List BatchItem → Option (List Command)
append_all serialize [] = some []
append_all serialize (i ∷ rest) = do
  first ← append_dag_to_pipeline serialize i.req i.ctx
  others ← append_all serialize rest
  some (first ++ others)

-- ProcessBatch. `connected` tells whether the transaction can be run at all, and `reaches` how many of the
-- commands the server runs before the connection breaks.
module _ (serialize : PbTask → String) (r : Redis) (connected : Bool)
    (reaches : List Command → ℕ) where
  unfoldable pub send : Option (List Command) → r.Store → Outcome × r.Store
  send none s = (batch_failed, s)
  send (some cs) s =
      (if ltb (reaches cs) (length cs) then batch_failed else done, exec r (take (reaches cs) cs) s)

  unfoldable pub after_tx :
      Option (List BatchItem × Database) → Database → r.Store → Outcome × Database × r.Store
  after_tx none db s = (batch_failed, db, s)
  after_tx (some (items, db')) db s =
      let (o, t) = send (append_all serialize items) s in (o, db', t)

  unfoldable pub process_batch :
      ℕ → List BatchItem → Database → r.Store → Outcome × Database × r.Store
  process_batch now_ts batch db s =
      if is_empty batch
      then (done, db, s)
      else if not connected
      then (batch_failed, db, s)
      else after_tx (flush_db_batch now_ts batch db) db s
