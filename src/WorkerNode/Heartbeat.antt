-- ===== src/WorkerNode/Heartbeat.antt =====
-- The heartbeats of a worker (src/worker/src/worker_node.cpp, src/worker/src/scheduler_client.cpp and
-- src/common/include/utils/rpc_utils.h) against the handlers of the scheduler.
use distributed_task_system.Common.{
  ℕ, ◌+◌, ◌≤◌, String, ◌≡◌, refl, Bool, true, false, Option, none, some, arith, str_eq, eq_refl,
  if◌then◌else◌, ℤ, pos, Dict, find, put, find-put,
}
use distributed_task_system.Scheduler.Workers.{
  WorkerInfo, timed_out, new_worker, re_register, handle_register, handle_heartbeat, heartbeat_of,
}
use distributed_task_system.Scheduler.Service.{Header, no_error, invalid_param, register, heartbeat}

-- CheckRpcStatus on what comes back of a call: nothing, or the header of a response.
abbrev pub check_rpc_status : Option Header → Bool
check_rpc_status none = false
check_rpc_status (some no_error) = true
check_rpc_status (some (invalid_param _)) = false

-- How a call goes: the request is lost, the response is lost, or both arrive.
pub data Link : Type 0 where
  request_lost : Link
  response_lost : Link
  arrives : Link

-- A call of a handler of the scheduler, with its response and its state afterwards.
abbrev pub call : {S : Type 0} → Link → (S → Header × S) → S → Option Header × S
call request_lost handler s = (none, s)
call response_lost handler s = (none, (handler s).1)
call arrives handler s = (some (handler s).0, (handler s).1)

-- SchedulerClient::RegisterWorker and SendHeartbeat.
unfoldable pub register_worker :
    Link → ℕ → String → String → Dict WorkerInfo → Bool × Dict WorkerInfo
register_worker link now worker_id ip_address workers =
    let (response, workers') = call link (register now worker_id ip_address) workers in
    (check_rpc_status response, workers')

unfoldable pub send_heartbeat : Link → ℕ → String → ℤ → Dict WorkerInfo → Bool × Dict WorkerInfo
send_heartbeat link now worker_id running_task_count workers =
    let (response, workers') = call link (heartbeat now worker_id running_task_count) workers in
    (check_rpc_status response, workers')

-- One round of HeartbeatLoop, whose running_tasks is 0; the links are those of its two calls.
unfoldable pub heartbeat_round :
    Link → Link → ℕ → String → String → Dict WorkerInfo → Dict WorkerInfo
heartbeat_round hb_link reg_link now worker_id advertise_addr workers =
    let (hb_success, workers') = send_heartbeat hb_link now worker_id (pos 0) workers in
    if hb_success
    then workers'
    else (register_worker reg_link now worker_id advertise_addr workers').1

-- Start: `none` is exit(1). A node that runs already is left as it is.
unfoldable pub start :
    Link → ℕ → String → String → Bool → Dict WorkerInfo → Option (Bool × Dict WorkerInfo)
start link now worker_id advertise_addr true workers = some (true, workers)
start link now worker_id advertise_addr false workers =
    let (registered, workers') = register_worker link now worker_id advertise_addr workers in
    if registered then some (true, workers') else none

-- A scheduler that knows a worker as one that was heard of at a time, with no task.
pub record IsHeard (now : ℕ) (id : String) (workers : Dict WorkerInfo) : Type 0 where
  pub info : WorkerInfo
  pub found : find id workers ≡ some info
  pub heard : info.last_heartbeat_time ≡ now
  pub idle : info.running_task_count ≡ pos 0

find-put_same :
    (id : String) (w : WorkerInfo) (workers : Dict WorkerInfo) → find id (put id w workers) ≡ some w
find-put_same id w workers = rw (find-put id id w workers, eq_refl id) refl

re_register-IsHeard :
    (now : ℕ) (id address : String) (workers : Dict WorkerInfo) (old : Option WorkerInfo)
    → IsHeard now id (put id (re_register now id address old) workers)
re_register-IsHeard now id address workers none = record {
  info = new_worker now id address;
  found = find-put_same id _ workers;
  heard = refl;
  idle = refl;
}
re_register-IsHeard now id address workers (some w) = record {
  info = record w { address = address; last_heartbeat_time = now; running_task_count = pos 0 };
  found = find-put_same id _ workers;
  heard = refl;
  idle = refl;
}

abbrev pub is_reached : Link → Bool
is_reached request_lost = false
is_reached _ = true

register-IsHeard :
    (now : ℕ) (id address : String) (workers : Dict WorkerInfo)
    → str_eq id "" ≡ false
    → str_eq address "" ≡ false
    → IsHeard now id (register now id address workers).1
unfolding register handle_register
register-IsHeard now id address workers named placed =
    rw (named, placed) (re_register-IsHeard now id address workers (find id workers))

register_worker-IsHeard :
    (link : Link) (now : ℕ) (id address : String) (workers : Dict WorkerInfo)
    → is_reached link ≡ true
    → str_eq id "" ≡ false
    → str_eq address "" ≡ false
    → IsHeard now id (register_worker link now id address workers).1
unfolding register_worker
register_worker-IsHeard request_lost now id address workers reached named placed = cc
register_worker-IsHeard response_lost now id address workers reached named placed =
    register-IsHeard now id address workers named placed
register_worker-IsHeard arrives now id address workers reached named placed =
    register-IsHeard now id address workers named placed

abbrev answer : Bool × Dict WorkerInfo → Header × Dict WorkerInfo
answer (known, workers) =
    if known
    then (no_error, workers)
    else (invalid_param "Worker not found. Please re-register.", workers)

heartbeat_of-IsHeard :
    (now : ℕ) (id : String) (workers : Dict WorkerInfo) (old : Option WorkerInfo)
    → check_rpc_status (some (answer (heartbeat_of now id (pos 0) workers old)).0) ≡ true
    → IsHeard now id (answer (heartbeat_of now id (pos 0) workers old)).1
heartbeat_of-IsHeard now id workers none ok = cc
heartbeat_of-IsHeard now id workers (some w) ok = record {
  info = record w { last_heartbeat_time = now; running_task_count = pos 0 };
  found = find-put_same id _ workers;
  heard = refl;
  idle = refl;
}

-- A heartbeat that succeeds was taken by a scheduler that knows the worker.
send_heartbeat-IsHeard :
    (link : Link) (now : ℕ) (id : String) (workers : Dict WorkerInfo)
    → (send_heartbeat link now id (pos 0) workers).0 ≡ true
    → IsHeard now id (send_heartbeat link now id (pos 0) workers).1
unfolding send_heartbeat heartbeat handle_heartbeat
send_heartbeat-IsHeard request_lost now id workers ok = cc
send_heartbeat-IsHeard response_lost now id workers ok = cc
send_heartbeat-IsHeard arrives now id workers ok =
    heartbeat_of-IsHeard now id workers (find id workers) ok

-- If the worker and its address have names and the request of the second call, where there is one,
-- is not lost, then after a round of the heartbeat loop, whatever becomes of the heartbeat, the
-- scheduler knows the worker, heard of it at that time, counts no task for it, and still has it among
-- the workers in time at any later time within the timeout.
pub heartbeat_round_heals :
    (hb_link reg_link : Link) (now later timeout : ℕ) (id address : String)
    (workers : Dict WorkerInfo)
    → is_reached reg_link ≡ true
    → str_eq id "" ≡ false
    → str_eq address "" ≡ false
    → later ≤ now + timeout
    → let workers' = heartbeat_round hb_link reg_link now id address workers in
      (w : WorkerInfo) × (find id workers' ≡ some w)
      × (w.last_heartbeat_time ≡ now)
      × (w.running_task_count ≡ pos 0)
      × (timed_out timeout later w ≡ false)
unfolding heartbeat_round
heartbeat_round_heals hb_link reg_link now later timeout id address workers reached named placed
      soon =
    let h =
      heard (send_heartbeat hb_link now id (pos 0) workers)
        (send_heartbeat-IsHeard hb_link now id workers) in
    (h.info, h.found, h.heard, h.idle, ground (arith, h.heard))
  where
    heard :
        (r : Bool × Dict WorkerInfo)
        → (r.0 ≡ true → IsHeard now id r.1)
        → IsHeard now id (if r.0 then r.1 else (register_worker reg_link now id address r.1).1)
    heard (true, ws) h = h refl
    heard (false, ws) h = register_worker-IsHeard reg_link now id address ws reached named placed
