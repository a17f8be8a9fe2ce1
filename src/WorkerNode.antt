-- ===== src/WorkerNode.antt =====
-- The worker: TaskRegistry (src/worker/src/task_registry.cpp), WorkerServiceImpl
-- (src/worker/src/worker_service.cpp), the requests of SchedulerClient
-- (src/worker/src/scheduler_client.cpp) and OnTaskReceived (src/worker/src/worker_node.cpp).
pub mod Heartbeat
pub mod Reports
pub mod Driving
pub mod Bodies
use distributed_task_system.Common.{
  String, Option, none, some, List, [], ◌∷◌, ◌++◌, Dict, find, put,
}
use Prim.Native.String.{◌++◌ as ◌<>◌}
use distributed_task_system.Scheduler.{TaskState, success, failed}
use distributed_task_system.Scheduler.Service.{UpdateTaskStatusRequest}
use distributed_task_system.Converters.Json.{Json}
use distributed_task_system.Converters.Tasks.{Task, PbTask}
use distributed_task_system.ThreadPool.{ThreadPool, enqueue}

-- How a handler ends: a result, a std::exception with its text, or anything else that is thrown.
pub data Outcome : Type 0 where
  returns : String → Outcome
  throws : String → Outcome
  throws_unknown : Outcome

abbrev pub TaskHandler : Type 0
TaskHandler = String → Outcome

-- TaskRegistry: registry_[name] = handler, and the handler of a name or nullptr.
unfoldable pub register_handler : String → TaskHandler → Dict TaskHandler → Dict TaskHandler
register_handler name handler registry = put name handler registry

unfoldable pub get_handler : String → Dict TaskHandler → Option TaskHandler
get_handler name registry = find name registry

-- SchedulerClient::UpdateTaskStatus: its request, the arguments in the order of the declaration.
unfoldable pub status_request :
    String → TaskState → String → String → String → String → UpdateTaskStatusRequest
status_request task_id state job_id error_msg result_json worker_id = record {
  task_id = task_id;
  final_state = state;
  error_msg = error_msg;
  result_json = result_json;
  job_id = job_id;
  worker_id = worker_id;
}

-- final_state, result_json_str and error_msg after the try block.
abbrev pub ended : Outcome → TaskState × String × String
ended (returns result) = (success, result, "")
ended (throws what) = (failed, "", what)
ended throws_unknown = (failed, "", "Unknown exception")

-- `dump` is json::dump, which may throw.
abbrev pub handle_params : TaskHandler → Outcome → Outcome
handle_params handler (returns params) = handler params
handle_params handler (throws what) = throws what
handle_params handler throws_unknown = throws_unknown

-- What a node holds: its pool, and the reports sent by the threads of the gRPC server.
pub record Node (N D : Type 0) : Type 0 where
  pub thread_pool : ThreadPool (Task N D × TaskHandler)
  pub sent : List UpdateTaskStatusRequest

-- The header of a RunTaskResponse.
pub record RunTaskHeader : Type 0 where
  pub request_id : String
  pub invalid_param : Option String

abbrev pub trace_id : Option String → String → String
trace_id none generated = generated
trace_id (some id) generated = id

module _ {N D : Type 0} where
  -- The lambda that is given to the pool, with the report that it sends.
  unfoldable pub execute : (Json N → Outcome) → Task N D × TaskHandler → UpdateTaskStatusRequest
  execute dump (task, handler) =
      let (final_state, result, error_msg) =
        ended (handle_params handler (dump task.func_params)) in
      status_request task.task_id final_state task.job_id error_msg result ""

  abbrev send : UpdateTaskStatusRequest → Node N D → Node N D
  send q node = record node { sent = node.sent ++ q ∷ [] }

  -- `none` is the exception of enqueue. The fifth argument of both reports is worker_id_.
  abbrev pub enqueued :
      String → Task N D → Option (ThreadPool (Task N D × TaskHandler)) → Node N D → Node N D
  enqueued worker_id task (some pool) node = record node { thread_pool = pool }
  enqueued worker_id task none node =
      send
        (status_request task.task_id failed task.job_id
          ("Enqueue failed: " <> "enqueue on stopped ThreadPool") worker_id "")
        node

  abbrev pub received : String → String → Task N D → Option TaskHandler → Node N D → Node N D
  received worker_id req_id task none node =
      send
        (status_request task.task_id failed task.job_id
          "Worker does not have this task function registered" worker_id "")
        node
  received worker_id req_id task (some handler) node =
      enqueued worker_id task (enqueue req_id (task, handler) node.thread_pool) node

  -- WorkerNode::OnTaskReceived in a thread whose request id is `req_id`.
  unfoldable pub on_task_received :
      Dict TaskHandler → String → String → Task N D → Node N D → Node N D
  on_task_received registry worker_id req_id task node =
      received worker_id req_id task (get_handler task.func_name registry) node

  -- WorkerServiceImpl::RunTask: `metadata` is x-request-id, and `generated` the id that is made without
  -- it. `from_proto` is TaskFromProto.
  unfoldable pub run_task :
      (PbTask D → Task N D)
      → Dict TaskHandler
      → String
      → Option String
      → String
      → Option (PbTask D)
      → Node N D
      → RunTaskHeader × Node N D
  run_task from_proto registry worker_id metadata generated none node =
      (record { request_id = ""; invalid_param = some "RunTaskRequest missing task field" }, node)
  run_task from_proto registry worker_id metadata generated (some pb_task) node = (
    record { request_id = pb_task.task_id; invalid_param = none },
    on_task_received registry worker_id (trace_id metadata generated) (from_proto pb_task) node,
  )
