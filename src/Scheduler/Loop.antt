-- ===== src/Scheduler/Loop.antt =====
-- SchedulerLoop of src/scheduler/src/scheduler_loop.cpp, ParseStreamEntry of
-- src/common/include/utils/TaskSerializer.hpp.
pub mod Messages
pub mod Acks
pub mod Inflight
pub mod Rescue
pub mod Channels
pub mod Envelopes
pub mod Bounds
pub mod Spread
use distributed_task_system.Common.{
  ℕ, zero, suc, ◌>>=◌, ◌+◌, ◌-◌, ◌%◌, String, Bool, true, false, ◌||◌, Option, none, some, List, [],
  ◌∷◌, ◌++◌, str_eq, ltb, if◌then◌else◌, get_or, length, get_elem?, pos, Dict,
}
use distributed_task_system.Redis.Keys.{task_meta}
use distributed_task_system.Scheduler.{Row}
use distributed_task_system.Scheduler.Repository.{revert_task_to_pending}
use distributed_task_system.Scheduler.Workers.{WorkerInfo, prebook_task}

-- A message of the stream: its id and its fields.
pub record StreamEntry : Type 0 where
  pub stream_id : String
  pub fields : List (String × String)

pub record StreamTaskPointer : Type 0 where
  pub task_id : String
  pub job_id : String
  pub stream_id : String

-- The loop over the fields, with found_id.
unfoldable pub parse_fields :
    List (String × String) → Bool × StreamTaskPointer → Bool × StreamTaskPointer
parse_fields [] p = p
parse_fields ((field, value) ∷ rest) (found, p) =
    if str_eq field "id" || str_eq field "task_id"
    then parse_fields rest (true, record p { task_id = value })
    else if str_eq field "job" || str_eq field "job_id"
    then parse_fields rest (found, record p { job_id = value })
    else parse_fields rest (found, p)

unfoldable pub parse_stream_entry : StreamEntry → Option StreamTaskPointer
parse_stream_entry e =
    let (found, p) =
      parse_fields e.fields
        (false, record { task_id = ""; job_id = ""; stream_id = e.stream_id }) in
    if found then some p else none

-- GET of the metadata: a reply, no such key, or an exception.
pub data Fetched : Type 0 where
  binary : String → Fetched
  missing : Fetched
  broken : Fetched

-- A call of DoDispatch that waits in the thread pool.
pub record Dispatch : Type 0 where
  pub task_id : String
  pub stream_id : String
  pub worker : WorkerInfo

pub record LoopState : Type 0 where
  pub inflight : ℕ
  pub workers : Dict WorkerInfo
  pub acked : List String
  pub dispatches : List Dispatch

-- AckAndSkip with the fetch_sub behind it.
abbrev pub skip : String → LoopState → LoopState
skip id s = record s { inflight = s.inflight - 1; acked = s.acked ++ id ∷ [] }

-- Prebook the worker and enqueue the call.
abbrev pub dispatch_to : WorkerInfo → String → String → LoopState → LoopState
dispatch_to w task_id stream_id s = record s {
  workers = prebook_task w.worker_id (pos 1) s.workers;
  dispatches = s.dispatches ++ record { task_id = task_id; stream_id = stream_id; worker = w } ∷ [];
}

-- workers[worker_idx % workers.size()], for a list that is not empty.
abbrev pub round_robin : WorkerInfo → List WorkerInfo → ℕ → WorkerInfo
round_robin w ws idx = get_or (get_elem? (w ∷ ws) (idx % length (w ∷ ws))) w

-- How an entry comes out: a task to dispatch, a message to skip, or an exception.
pub data Decoded : Type 0 where
  task : String → Decoded
  invalid : Decoded
  thrown : Decoded

module _ (fetch : String → Fetched) (from_meta_binary : String → Option String) where
  abbrev pub decode_meta : Fetched → Decoded
  decode_meta missing = invalid
  decode_meta broken = thrown
  decode_meta (binary b) = elim (from_meta_binary b) [ none ↦ invalid | some id ↦ task id ]

  abbrev pub decode_pointer : Option StreamTaskPointer → Decoded
  decode_pointer none = invalid
  decode_pointer (some p) = decode_meta (fetch (task_meta p.task_id))

  -- Steps A to C: parse the envelope, claim the metadata, deserialise; the id is that in the metadata.
  unfoldable pub decode : StreamEntry → Decoded
  decode e = decode_pointer (parse_stream_entry e)

  -- The entries of one pull, each with what stop_flag_ is when the loop comes to it.
  unfoldable pub run_entries :
      WorkerInfo → List WorkerInfo → ℕ → List (Bool × StreamEntry) → LoopState → LoopState
  run_entries w ws idx [] s = s
  run_entries w ws idx ((stop, e) ∷ rest) s = if stop then s else (elim (decode e) [
    | invalid ↦ run_entries w ws idx rest (skip e.stream_id s)
    | thrown ↦ s
    | task id ↦
        run_entries w ws (suc idx) rest (dispatch_to (round_robin w ws idx) id e.stream_id s)
  ])

  -- Steps 2 and 3 of ProcessStreamEntry; `none` is an exception.
  abbrev pub rescue_decoded : List WorkerInfo → String → Decoded → LoopState → Option LoopState
  rescue_decoded available stream_id invalid s = some (skip stream_id s)
  rescue_decoded available stream_id thrown s = none
  rescue_decoded [] stream_id (task id) s = some (record s { inflight = s.inflight - 1 })
  rescue_decoded (w ∷ ws) stream_id (task id) s = some (dispatch_to w id stream_id s)

  -- ProcessStreamEntry, for the available workers at that time.
  unfoldable pub process_stream_entry : List WorkerInfo → StreamEntry → LoopState → Option LoopState
  process_stream_entry available e s = rescue_decoded available e.stream_id (decode e) s

  -- DoRescue from the messages that were claimed, each with the workers that are available then.
  unfoldable pub rescue_entries : List (List WorkerInfo × StreamEntry) → LoopState → LoopState
  rescue_entries [] s = s
  rescue_entries ((available, e) ∷ rest) s =
      let after = process_stream_entry available e s in
      get_or (after >>= λ t. some (rescue_entries rest t)) s

  unfoldable pub do_rescue : List (List WorkerInfo × StreamEntry) → LoopState → LoopState
  do_rescue claimed s = rescue_entries claimed (record s { inflight = s.inflight + length claimed })

  abbrev pub rescue_due : Option (List (List WorkerInfo × StreamEntry)) → LoopState → LoopState
  rescue_due none s = s
  rescue_due (some claimed) s = do_rescue claimed s

  abbrev pub pull : List WorkerInfo → List (Bool × StreamEntry) → LoopState → LoopState
  pull [] entries s = s
  pull (w ∷ ws) entries s =
      run_entries w ws 0 entries (record s { inflight = s.inflight + length entries })

  -- One round of RunLoop: `rescued` is `none` where ten seconds have not passed, and there are no entries
  -- where XREADGROUP has none or throws.
  unfoldable pub run_round :
      Option (List (List WorkerInfo × StreamEntry))
      → (Dict WorkerInfo → List WorkerInfo)
      → List (Bool × StreamEntry)
      → LoopState
      → LoopState
  run_round rescued available entries s =
      if ltb 2000 s.inflight
      then s
      else (let t = rescue_due rescued s in pull (available t.workers) entries t)

-- How the call of a worker ends.
pub data RpcResult : Type 0 where
  no_stub : RpcResult
  rpc_failed : RpcResult
  rejected : RpcResult
  delivered : RpcResult

-- DoDispatch of a call; `connected` is for the repository.
unfoldable pub do_dispatch :
    RpcResult → Bool → Dispatch → LoopState × List Row → LoopState × List Row
do_dispatch delivered connected d (s, rows) = (skip d.stream_id s, rows)
do_dispatch _ connected d (s, rows) =
    (record s { inflight = s.inflight - 1 }, (revert_task_to_pending connected d.task_id rows).1)

abbrev pub pool_of : RpcResult → Bool → List Dispatch → LoopState × List Row → LoopState × List Row
pool_of result connected [] w = w
pool_of result connected (d ∷ ds) (s, rows) =
    do_dispatch result connected d (record s { dispatches = ds }, rows)

abbrev pub in_front : Dispatch → List Dispatch → List Dispatch
in_front d [] = d ∷ []
in_front d (x ∷ xs) = x ∷ d ∷ xs

-- The waiting calls with the one at a place in front; a place past the end is that of the last.
unfoldable pub chosen : ℕ → List Dispatch → List Dispatch
chosen n [] = []
chosen zero (d ∷ ds) = d ∷ ds
chosen (suc n) (d ∷ ds) = in_front d (chosen n ds)

-- One of the waiting calls ends: the threads of the pool end in any order.
unfoldable pub pool_step : ℕ → RpcResult → Bool → LoopState × List Row → LoopState × List Row
pool_step n result connected (s, rows) = pool_of result connected (chosen n s.dispatches) (s, rows)
