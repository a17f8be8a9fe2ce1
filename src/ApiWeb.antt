-- ===== src/ApiWeb.antt =====
-- handle_dag_submit of src/api-web/src/api_web.cpp, with the answer of the call as GrpcAwaiter of
-- src/common/include/coroutines/dts_coroutine.h gives it. HTTP, json::parse and what get makes of
-- the numbers of JSON are parameters.
pub mod Access
pub mod Submitting
pub mod Waiting
use distributed_task_system.Common.{
  ℕ, ◌>>=◌, String, Option, none, some, List, [], ◌∷◌, ℤ, pos, put,
}
use distributed_task_system.Converters.Json.{Json, null, array, no_items}
use distributed_task_system.ApiWeb.Access.{to_uint32, at_key, value_or, get_string, elements}
use distributed_task_system.Converters.Tasks.{Task, Resource, Shard}
use distributed_task_system.DagBuilder.{
  Builder, Failure, empty_key, Result, fine, error, Request, new_builder, add_task, add_dependency,
  build_proto,
}

-- The classes of exceptions that handle_dag_submit tells apart.
pub data Thrown : Type 0 where
  json_exception : Thrown
  invalid_argument : Thrown
  grpc_error : Thrown
  runtime_error : Thrown

pub data Try (A : Type 0) : Type 0 where
  done : A → Try A
  raise : Thrown → Try A

abbrev pub and_then : {A B : Type 0} → Try A → (A → Try B) → Try B
and_then (done a) f = f a
and_then (raise t) f = raise t

-- The status of the response: the catch clauses.
abbrev pub status_of : Thrown → ℕ
status_of json_exception = 400
status_of invalid_argument = 400
status_of grpc_error = 400
status_of runtime_error = 503

-- The class that DagBuilder throws.
abbrev pub thrown_by : Failure → Thrown
thrown_by empty_key = invalid_argument
thrown_by _ = runtime_error

abbrev pub of_builder : {A : Type 0} → Result A → Try A
of_builder (fine a) = done a
of_builder (error f) = raise (thrown_by f)

abbrev pub of_json : {A : Type 0} → Option A → Try A
of_json none = raise json_exception
of_json (some a) = done a

-- get<int>, get<double> and get<uint64_t>, the double 0.0, and TaskToProto.
pub record Numbers (N D : Type 0) : Type 0 where
  pub get_int : Json N → Option ℤ
  pub get_double : Json N → Option D
  pub get_uint64 : Json N → Option ℕ
  pub zero_double : D

module _ {N D : Type 0} (numbers : Numbers N D) where
  abbrev get_uint32 : Json N → Option ℕ
  get_uint32 j = numbers.get_int j >>= λ z. some (to_uint32 z)

  -- from_json of Resource and of Shard.
  abbrev get_resource : Json N → Option (Resource D)
  get_resource j = at_key "cpu_core" j >>= λ c. numbers.get_double c >>= λ cpu_core.
      at_key "mem_mb" j >>= λ m.
      numbers.get_uint64 m >>= λ mem_mb. some (record { cpu_core = cpu_core; mem_mb = mem_mb })

  abbrev get_shard : Json N → Option Shard
  get_shard j = at_key "shard_id" j >>= λ i. get_uint32 i >>= λ shard_id.
      at_key "total_shards" j >>= λ t. get_uint32 t >>= λ total_shards.
      some (record { shard_id = shard_id; total_shards = total_shards })

  -- The task that AddTask makes.
  abbrev pub new_task : String → String → Json N → Task N D
  new_task natural_id func_name func_params = record {
    job_id = "";
    task_id = "";
    natural_id = natural_id;
    client_id = "";
    stream_id = "";
    priority = 0;
    state = pos 0;
    pending_dependencies = pos 0;
    func_name = func_name;
    func_params = func_params;
    required = record { cpu_core = numbers.zero_double; mem_mb = 0 };
    shard = record { shard_id = 0; total_shards = 1 };
    timeout_ms = 30000;
    max_retry = 3;
    retry_count = 0;
    submit_ts = pos 0;
    start_ts = pos 0;
    finish_ts = pos 0;
    result = null;
    error_msg = "";
  }

  unfoldable pub parse_json_to_task : Json N → Task N D → Option (Task N D)
  parse_json_to_task j task = value_or "priority" j 0 get_uint32 >>= λ priority.
      value_or "timeout_ms" j 30000 get_uint32 >>= λ timeout_ms.
      value_or "max_retry" j 3 get_uint32 >>= λ max_retry.
      value_or "required" j task.required get_resource >>= λ required.
      value_or "shard" j task.shard get_shard >>= λ shard. some (record task {
        priority = priority;
        timeout_ms = timeout_ms;
        max_retry = max_retry;
        required = required;
        shard = shard;
      })

  -- The arguments of AddTask in one element of "tasks".
  abbrev pub task_arguments : Json N → Option (String × String × Json N)
  task_arguments j = at_key "natural_id" j >>= λ i. get_string i >>= λ natural_id.
      at_key "func_name" j >>= λ f. get_string f >>= λ func_name.
      value_or "func_params" j null (λ p. some p) >>= λ func_params.
      some (natural_id, func_name, func_params)

  -- AddTask, and ParseJsonToTask on the reference that it returns.
  unfoldable pub add_json_task : Json N → Builder (Task N D) → Try (Builder (Task N D))
  add_json_task j b = and_then (of_json (task_arguments j)) (λ a.
      let (natural_id, func_name, func_params) = a in
      let t = new_task natural_id func_name func_params in
      and_then (of_builder (add_task natural_id t b)) (λ b'.
        and_then (of_json (parse_json_to_task j t))
          (λ t'. done (record b' { tasks_map = put natural_id t' b'.tasks_map }))))

  unfoldable pub add_json_tasks : List (Json N) → Builder (Task N D) → Try (Builder (Task N D))
  add_json_tasks [] b = done b
  add_json_tasks (j ∷ js) b = and_then (add_json_task j b) (add_json_tasks js)

  abbrev pub edge_arguments : Json N → Option (String × String)
  edge_arguments j = at_key "parent" j >>= λ p. get_string p >>= λ parent.
      at_key "child" j >>= λ c. get_string c >>= λ child. some (parent, child)

  unfoldable pub add_json_edges : List (Json N) → Builder (Task N D) → Try (Builder (Task N D))
  add_json_edges [] b = done b
  add_json_edges (j ∷ js) b =
      and_then (of_json (edge_arguments j))
        (λ e. and_then (of_builder (add_dependency e.0 e.1 b)) (add_json_edges js))

  -- The builder that the body of a request describes.
  unfoldable pub build_from_json : Json N → Try (Builder (Task N D))
  build_from_json j_body =
      and_then (of_json (at_key "idempotency_key" j_body >>= get_string)) (λ key.
        and_then (of_json (at_key "tasks" j_body)) (λ j_tasks.
          and_then (of_json (value_or "edges" j_body (array no_items) (λ e. some e))) (λ j_edges.
            and_then (of_builder (new_builder key)) (λ b.
              and_then (add_json_tasks (elements j_tasks) b)
                (λ b'. add_json_edges (elements j_edges) b')))))

-- What comes back of the call: nothing, a header with an error, or the id of the job.
pub data RpcEnd : Type 0 where
  transport_failed : RpcEnd
  rejected : String → RpcEnd
  accepted : String → RpcEnd

-- GrpcAwaiter::await_resume. What it throws for the transport is dts::common::GrpcError, which is a
-- std::runtime_error and no dts::GrpcError.
abbrev pub await_resume : RpcEnd → Try String
await_resume transport_failed = raise runtime_error
await_resume (rejected msg) = raise runtime_error
await_resume (accepted job_id) = done job_id

-- The response to the caller, with the request that was sent by gRPC, if any.
pub record Answer (Proto : Type 0) : Type 0 where
  pub status : ℕ
  pub job_id : Option String
  pub sent : Option (Request Proto)

module _ {N D Proto : Type 0} (numbers : Numbers N D) (task_to_proto : Task N D → Proto) where
  abbrev pub refusal : Thrown → Answer Proto
  refusal t = record { status = status_of t; job_id = none; sent = none }

  abbrev pub reply : Request Proto → Try String → Answer Proto
  reply req (done job_id) = record { status = 200; job_id = some job_id; sent = some req }
  reply req (raise t) = record { status = status_of t; job_id = none; sent = some req }

  abbrev pub submit_built :
      (Request Proto → RpcEnd) → Option (Result (Request Proto)) → Option (Answer Proto)
  submit_built submit none = none
  submit_built submit (some (error f)) = some (refusal (thrown_by f))
  submit_built submit (some (fine req)) = some (reply req (await_resume (submit req)))

  abbrev pub submit_builder :
      (Request Proto → RpcEnd) → Try (Builder (Task N D)) → Option (Answer Proto)
  submit_builder submit (raise t) = some (refusal t)
  submit_builder submit (done b) = submit_built submit (build_proto task_to_proto b)

  -- `none` is for too little fuel of the cycle search.
  unfoldable pub handle_dag_submit :
      (String → Option (Json N)) → (Request Proto → RpcEnd) → String → Option (Answer Proto)
  handle_dag_submit parse submit body =
      submit_builder submit (and_then (of_json (parse body)) (build_from_json numbers))
