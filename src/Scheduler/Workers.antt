-- ===== src/Scheduler/Workers.antt =====
-- WorkerManager of src/scheduler/src/worker_manager.cpp. Times are numbers on one clock; cpu_usage, which
-- nothing writes or reads, is left out, and running_task_count is not cut to 32 bits.
pub mod Liveness
pub mod Sorted
use distributed_task_system.Common.{
  ℕ, ◌+◌, String, ◌≡◌, Bool, true, false, Option, none, some, List, [], ◌∷◌, ltb, if◌then◌else◌,
  count, ℤ, pos, ◌+ℤ◌, Dict, find, put,
}

pub record WorkerInfo : Type 0 where
  pub worker_id : String
  pub address : String
  pub last_heartbeat_time : ℕ
  pub running_task_count : ℤ

-- WorkerInfo(id, addr).
abbrev pub new_worker : ℕ → String → String → WorkerInfo
new_worker now id addr = record {
  worker_id = id;
  address = addr;
  last_heartbeat_time = now;
  running_task_count = pos 0;
}

abbrev pub re_register : ℕ → String → String → Option WorkerInfo → WorkerInfo
re_register now id addr none = new_worker now id addr
re_register now id addr (some w) = record w {
  address = addr;
  last_heartbeat_time = now;
  running_task_count = pos 0;
}

unfoldable pub handle_register : ℕ → String → String → Dict WorkerInfo → Dict WorkerInfo
handle_register now id addr workers = put id (re_register now id addr (find id workers)) workers

abbrev pub heartbeat_of :
    ℕ → String → ℤ → Dict WorkerInfo → Option WorkerInfo → Bool × Dict WorkerInfo
heartbeat_of now id running workers none = (false, workers)
heartbeat_of now id running workers (some w) =
    (true, put id (record w { last_heartbeat_time = now; running_task_count = running }) workers)

unfoldable pub handle_heartbeat : ℕ → String → ℤ → Dict WorkerInfo → Bool × Dict WorkerInfo
handle_heartbeat now id running workers = heartbeat_of now id running workers (find id workers)

-- now - last_heartbeat_time > worker_timeout_, where the clock may also have gone back.
abbrev pub timed_out : ℕ → ℕ → WorkerInfo → Bool
timed_out timeout now w = ltb (w.last_heartbeat_time + timeout) now

-- The copies of the workers that are in time.
unfoldable pub available : ℕ → ℕ → Dict WorkerInfo → List WorkerInfo
available timeout now [] = []
available timeout now ((id, w) ∷ rest) =
    let later = available timeout now rest in if timed_out timeout now w then later else w ∷ later

-- `sort` is std::sort by running_task_count.
unfoldable pub get_available_workers_sorted :
    (List WorkerInfo → List WorkerInfo) → ℕ → ℕ → Dict WorkerInfo → List WorkerInfo
get_available_workers_sorted sort timeout now workers = sort (available timeout now workers)

-- The ids of the dead workers, and the workers that stay.
unfoldable pub prune_dead_workers : ℕ → ℕ → Dict WorkerInfo → List String × Dict WorkerInfo
prune_dead_workers timeout now [] = ([], [])
prune_dead_workers timeout now ((id, w) ∷ rest) =
    let (dead, alive) = prune_dead_workers timeout now rest in
    if timed_out timeout now w then (id ∷ dead, alive) else (dead, (id, w) ∷ alive)

abbrev prebook_of : String → ℤ → Dict WorkerInfo → Option WorkerInfo → Dict WorkerInfo
prebook_of id count workers none = workers
prebook_of id count workers (some w) =
    put id (record w { running_task_count = w.running_task_count +ℤ count }) workers

unfoldable pub prebook_task : String → ℤ → Dict WorkerInfo → Dict WorkerInfo
prebook_task id count workers = prebook_of id count workers (find id workers)

-- Every worker stands under its own id, and no id stands twice.
unfoldable pub IsIndexed : Dict WorkerInfo → Type 0
IsIndexed [] = Unit
IsIndexed ((id, w) ∷ rest) = (w.worker_id ≡ id) × (find id rest ≡ none) × IsIndexed rest
