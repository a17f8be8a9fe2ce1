-- ===== src/Scheduler/Loop/Acks.antt =====
-- Which messages SchedulerLoop acknowledges.
use distributed_task_system.Common.{String, ◌≡◌, Option, All}
use distributed_task_system.Scheduler.Loop.{StreamEntry, Fetched, invalid, decode, LoopState}

-- What is acknowledged has a property that unreadable messages and messages that were taken have.
module _ (Fine : String → Type 0) where
  abbrev Acked : LoopState → Type 0
  Acked s = All Fine s.acked

  module _ (fetch : String → Fetched) (from_meta_binary : String → Option String) where
    -- The message has the property if it is to be skipped.
    abbrev MaySkip : StreamEntry → Type 0
    MaySkip e = decode fetch from_meta_binary e ≡ invalid → Fine e.stream_id
