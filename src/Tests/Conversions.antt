-- ===== src/Tests/Conversions.antt =====
-- The theorems of `Converters` at a task with a nested result; a number and its double are the same.
use distributed_task_system.Common.{
  ℕ, ◌>>=◌, String, ◌≡◌, refl, true, Option, none, some, [], ◌∷◌, arith, pos, negsuc, find, put,
}
use distributed_task_system.Converters.Json.{
  Json, null, boolean, number, string, array, object, no_items, item, JsonFields, no_fields, field,
  json_to_struct, struct_to_json,
}
use distributed_task_system.Converters.Fields.{IsKeyed}
use distributed_task_system.Converters.RoundTrip.{
  carried, IsExact, struct_to_json-json_to_struct, struct_round_trip,
}
use distributed_task_system.Converters.Tasks.{
  Task, PbTask, task_to_proto, task_from_proto, task_round_trip,
}
use distributed_task_system.Converters.Requests.{
  IsSendable, arrived, to_proto, convert_pb_from_dag_request, dag_request_round_trip,
}
use distributed_task_system.ApiWeb.{Numbers, new_task}
use distributed_task_system.DagBuilder.{
  Builder, build_proto, validate_cycle, search_all, has_cycle_dfs, scan, build_adj, all_white,
  Request,
}
use distributed_task_system.Tests.{unary_id, unary_id_injective}

abbrev same : ℕ → ℕ
same n = n

abbrev nested : JsonFields ℕ
nested =
    field "rows" (number 3) (field "meta" (object (field "ok" (boolean true) no_fields)) no_fields)

abbrev mixed : Json ℕ
mixed = array (item null (item (number 3) (item (array (item (string "x") no_items)) no_items)))

abbrev params : Json ℕ → String
params j = "{}"

abbrev parse : String → Option (Json ℕ)
parse s = some (object no_fields)

abbrev pub finished : Task ℕ ℕ
finished = record {
  job_id = "j1";
  task_id = "t1";
  natural_id = "a";
  client_id = "c1";
  stream_id = "1-0";
  priority = 2;
  state = pos 99;
  pending_dependencies = pos 1;
  func_name = "process_data";
  func_params = object no_fields;
  required = record { cpu_core = 1; mem_mb = 512 };
  shard = record { shard_id = 0; total_shards = 1 };
  timeout_ms = 30000;
  max_retry = 3;
  retry_count = 1;
  submit_ts = pos 10;
  start_ts = pos 20;
  finish_ts = negsuc 0;
  result = object nested;
  error_msg = "";
}

abbrev no_numbers : Numbers ℕ ℕ
no_numbers = record {
  get_int = λ j. none;
  get_double = λ j. none;
  get_uint64 = λ j. none;
  zero_double = 0;
}

abbrev new : Task ℕ ℕ
new = new_task no_numbers "a" "print" (object no_fields)

struct_to_json-json_to_struct_example :
    some (struct_to_json same (json_to_struct same unary_id mixed))
    ≡ carried same same unary_id mixed
unfolding IsKeyed
struct_to_json-json_to_struct_example =
    struct_to_json-json_to_struct same same unary_id mixed unary_id_injective refl
      (tt, (tt, ((tt, tt), tt)))

struct_round_trip_example :
    struct_to_json same (json_to_struct same unary_id (object nested)) ≡ object nested
unfolding IsKeyed IsExact
struct_round_trip_example =
    struct_round_trip same same unary_id nested unary_id_injective
      (refl, tt, (refl, (refl, tt, tt), tt)) (refl, ((tt, tt), tt))

task_round_trip_example :
    (task_to_proto same same unary_id (λ j. some (params j)) finished >>= λ proto.
    some (task_from_proto same same unary_id parse proto))
    ≡ some (record finished { stream_id = "" })
unfolding IsKeyed IsExact
task_round_trip_example =
    task_round_trip same same unary_id (λ j. some (params j)) parse finished "{}" nested
      unary_id_injective refl refl refl (omega arith) refl (refl, tt, (refl, (refl, tt, tt), tt))
      (refl, ((tt, tt), tt))

-- A builder with a task that api-web adds.
abbrev added : Builder (Task ℕ ℕ)
added = record { idempotency_key = "key"; tasks_map = ("a", new) ∷ []; task_edges = [] }

new-IsSendable : IsSendable same same unary_id params parse new
new-IsSendable = record { full = refl; parses = refl; small = omega arith; no_result = refl }

abbrev sent : Request (PbTask ℕ)
sent = record {
  idempotency_key = "key";
  tasks = to_proto same same unary_id params parse new ∷ [];
  edges = [];
}

dag_request_round_trip_example :
    convert_pb_from_dag_request same same unary_id parse (some sent) ≡ record {
      job_id = "";
      idempotency_key = "key";
      client_id = "";
      tasks = arrived same same unary_id new ∷ [];
      edges = [];
    }
unfolding build_proto validate_cycle search_all has_cycle_dfs scan build_adj all_white find put
dag_request_round_trip_example =
    dag_request_round_trip same same unary_id params parse added sent (new-IsSendable, tt) refl
