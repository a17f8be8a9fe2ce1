-- ===== src/Tests/Acking.antt =====
-- The acknowledgements of `Scheduler.Loop` at two messages, of which one has no envelope.
use distributed_task_system.Common.{
  ◌≡◌, refl, true, false, none, some, List, [], ◌∷◌, pos, find, put, values,
}
use distributed_task_system.Scheduler.Workers.{WorkerInfo, prebook_task}
use distributed_task_system.Scheduler.Loop.{
  StreamEntry, binary, LoopState, run_round, run_entries, decode, parse_stream_entry, parse_fields,
  delivered, chosen, pool_step, do_dispatch,
}
use distributed_task_system.Scheduler.Loop.Messages.{LoopEvent, round, call_ends, on_events}

abbrev pub worker : WorkerInfo
worker = record {
  worker_id = "w";
  address = "host:1";
  last_heartbeat_time = 0;
  running_task_count = pos 0;
}

abbrev start : LoopState
start = record { inflight = 0; workers = ("w", worker) ∷ []; acked = []; dispatches = [] }

abbrev pub good : StreamEntry
good = record { stream_id = "1-0"; fields = ("id", "t") ∷ ("job", "j") ∷ [] }

abbrev bad : StreamEntry
bad = record { stream_id = "2-0"; fields = ("job", "j") ∷ [] }

abbrev events : List LoopEvent
events =
    round (record {
      fetch = λ k. binary k;
      from_meta_binary = some;
      rescued = none;
      available = λ workers. values workers;
      entries = (false, good) ∷ (false, bad) ∷ [];
    })
    ∷ call_ends 0 delivered true
    ∷ []

-- Both are acknowledged: the one that could not be read first.
both_acked : (on_events events (start, [])).0.acked ≡ "2-0" ∷ "1-0" ∷ []
unfolding run_round run_entries decode parse_stream_entry parse_fields pool_step chosen do_dispatch
    prebook_task find put
both_acked = refl
