-- ===== src/Scheduler/Loop/Messages.antt =====
-- The rounds of SchedulerLoop with what they find, the messages that workers take, and those of which
-- no task can be made.
use distributed_task_system.Common.{
  ℕ, String, ◌≡◌, refl, ◌⊎◌, Bool, true, Option, none, some, List, [], ◌∷◌, ◌++◌, get_elem?, mem,
  Dict,
}
use distributed_task_system.Redis.Keys.{task_meta}
use distributed_task_system.Scheduler.{Row}
use distributed_task_system.Scheduler.Workers.{WorkerInfo}
use distributed_task_system.Scheduler.Loop.{
  StreamEntry, StreamTaskPointer, parse_stream_entry, Fetched, binary, missing, broken, invalid,
  decode_meta, decode_pointer, decode, Dispatch, LoopState, run_round, RpcResult, delivered, chosen,
  pool_step,
}

-- What a round finds: the metadata in Redis, the messages that were claimed, the workers and the
-- messages that were pulled.
pub record Round : Type 0 where
  pub fetch : String → Fetched
  pub from_meta_binary : String → Option String
  pub rescued : Option (List (List WorkerInfo × StreamEntry))
  pub available : Dict WorkerInfo → List WorkerInfo
  pub entries : List (Bool × StreamEntry)

-- A round of the loop, or the end of the oldest call in the pool.
pub data LoopEvent : Type 0 where
  round : Round → LoopEvent
  call_ends : ℕ → RpcResult → Bool → LoopEvent

abbrev pub on_event : LoopEvent → LoopState × List Row → LoopState × List Row
on_event (round r) (s, rows) =
    (run_round r.fetch r.from_meta_binary r.rescued r.available r.entries s, rows)
on_event (call_ends n result connected) w = pool_step n result connected w

abbrev pub on_events : List LoopEvent → LoopState × List Row → LoopState × List Row
on_events [] w = w
on_events (e ∷ es) w = on_events es (on_event e w)

-- The message whose task a worker takes, where the call of the oldest dispatch is delivered.
abbrev pub taken_by : RpcResult → List Dispatch → List String
taken_by delivered (d ∷ ds) = d.stream_id ∷ []
taken_by _ _ = []

abbrev pub taken_at : LoopEvent → LoopState → List String
taken_at (call_ends n result _) s = taken_by result (chosen n s.dispatches)
taken_at (round _) s = []

-- The messages whose tasks a worker has taken.
abbrev pub taken : List LoopEvent → LoopState × List Row → List String
taken [] w = []
taken (e ∷ es) w = taken_at e w.0 ++ taken es (on_event e w)

-- A message of which no task can be made: it names no task, its task has no metadata, or these are no
-- message.
pub data Unreadable (r : Round) (e : StreamEntry) : Type 0 where
  no_pointer : parse_stream_entry e ≡ none → Unreadable r e
  no_metadata :
      (p : StreamTaskPointer)
      → parse_stream_entry e ≡ some p
      → r.fetch (task_meta p.task_id) ≡ missing
      → Unreadable r e
  no_message :
      (p : StreamTaskPointer) (b : String)
      → parse_stream_entry e ≡ some p
      → r.fetch (task_meta p.task_id) ≡ binary b
      → r.from_meta_binary b ≡ none
      → Unreadable r e

-- A message that a round is given: it was pulled, or claimed.
pub data Given (r : Round) (e : StreamEntry) : Type 0 where
  pulled : (i : ℕ) (stop : Bool) → get_elem? r.entries i ≡ some (stop, e) → Given r e
  claimed :
      (i : ℕ) (ws : List WorkerInfo) (l : List (List WorkerInfo × StreamEntry))
      → r.rescued ≡ some l
      → get_elem? l i ≡ some (ws, e)
      → Given r e

-- One of the events is a round that was given an unreadable message with the id.
pub record IsUnreadable (es : List LoopEvent) (id : String) : Type 0 where
  pub when : ℕ
  pub in_round : Round
  pub happened : get_elem? es when ≡ some (round in_round)
  pub entry : StreamEntry
  pub was_given : Given in_round entry
  pub has_id : entry.stream_id ≡ id
  pub unreadable : Unreadable in_round entry

abbrev pub MayBeAcked : List LoopEvent → List String → String → Type 0
MayBeAcked es ids id = IsUnreadable es id ⊎ (mem id ids ≡ true)

message-Unreadable :
    (r : Round) (e : StreamEntry) (p : StreamTaskPointer) (b : String) (m : Option String)
    → parse_stream_entry e ≡ some p
    → r.fetch (task_meta p.task_id) ≡ binary b
    → r.from_meta_binary b ≡ m
    → decode_meta r.fetch r.from_meta_binary (binary b) ≡ invalid
    → Unreadable r e
message-Unreadable r e p b none ep ef em h = no_message p b ep ef em
message-Unreadable r e p b (some id) ep ef em h = (let k = rw (decode_meta, em) at h in cc)

meta-Unreadable :
    (r : Round) (e : StreamEntry) (p : StreamTaskPointer) (f : Fetched)
    → parse_stream_entry e ≡ some p
    → r.fetch (task_meta p.task_id) ≡ f
    → decode_meta r.fetch r.from_meta_binary f ≡ invalid
    → Unreadable r e
meta-Unreadable r e p missing ep ef h = no_metadata p ep ef
meta-Unreadable r e p broken ep ef h = cc
meta-Unreadable r e p (binary b) ep ef h = message-Unreadable r e p b _ ep ef refl h

pointer-Unreadable :
    (r : Round) (e : StreamEntry) (p : Option StreamTaskPointer)
    → parse_stream_entry e ≡ p
    → decode_pointer r.fetch r.from_meta_binary p ≡ invalid
    → Unreadable r e
pointer-Unreadable r e none ep h = no_pointer ep
pointer-Unreadable r e (some p) ep h = meta-Unreadable r e p _ ep refl h

pub invalid-Unreadable :
    (r : Round) (e : StreamEntry) → decode r.fetch r.from_meta_binary e ≡ invalid → Unreadable r e
unfolding decode
invalid-Unreadable r e h = pointer-Unreadable r e _ refl h
