-- ===== src/Scheduler/Loop/Rescue.antt =====
-- DoRescue of src/scheduler/src/scheduler_loop.cpp over `RedisManager`: which messages it claims.
use distributed_task_system.Common.{
  String, ◌≡◌, inl, inr, Bool, true, false, ◌&&◌, Option, none, some, List, [], ◌∷◌, map, arith,
  str_eq, eq_iff, leb, if◌then◌else◌, Bool-cases, get_or, mem, ℤ, pos, negsuc,
}
use distributed_task_system.Redis.Keys.{k_tasks, k_group_main}
use distributed_task_system.RedisManager.{Client, RedisManager, PendingEntry, x_pending, x_claim}
use distributed_task_system.RedisManager
use distributed_task_system.Scheduler.Loop.{StreamEntry}

-- item.idle_time_ms >= MIN_IDLE_MS
abbrev is_stuck : ℤ → Bool
is_stuck (pos n) = leb 60000 n
is_stuck (negsuc n) = false

unfoldable pub ids_to_claim : List PendingEntry → List String
ids_to_claim [] = []
ids_to_claim (item ∷ items) =
    let rest = ids_to_claim items in if is_stuck item.idle_time_ms then item.id ∷ rest else rest

abbrev to_entry : RedisManager.StreamEntry → StreamEntry
to_entry (id, fields) = record { stream_id = id; fields = fields }

module _ {S : Type 0} (c : Client S) (m : RedisManager) (consumer_name : String) where
  abbrev claim : List String → S → List StreamEntry × S
  claim ids s =
      let r = x_claim c m k_tasks k_group_main consumer_name (pos 60000) ids s in
      (map to_entry (get_or r.0 []), r.1)

  abbrev claim_pending : Option (List PendingEntry) → S → List StreamEntry × S
  claim_pending none s = ([], s)
  claim_pending (some items) s = claim (ids_to_claim items) s

  -- The messages that DoRescue handles: claimed from those that nobody has acknowledged for a minute.
  unfoldable pub claimed_messages : S → List StreamEntry × S
  claimed_messages s =
      let r = x_pending c m k_tasks k_group_main (pos 50) "-" "+" "" s in claim_pending r.0 r.1

-- Every id that is claimed was pending for a minute or more.
pub ids_to_claim_idle :
    (items : List PendingEntry) (id : String)
    → mem id (ids_to_claim items) ≡ true
    → (item : PendingEntry) × (item.id ≡ id) × (is_stuck item.idle_time_ms ≡ true)
unfolding ids_to_claim mem
ids_to_claim_idle [] id h = cc
ids_to_claim_idle (item ∷ items) id h =
    elim (Bool-cases (is_stuck item.idle_time_ms && str_eq id item.id)) [
      | inl this ↦ (item, ground (arith, this, eq_iff id item.id), ground (arith, this))
      | inr other ↦ ids_to_claim_idle items id (ground (arith, other, h))
    ]
