-- ===== src/Converters/Tasks.antt =====
-- Tasks and their messages: src/common/include/task.hpp, src/common/include/dag.hpp and
-- src/common/src/converters.cpp. Unsigned fields have the same width on both sides, and so have the
-- timestamps and pending_dependencies.
use distributed_task_system.Common.{
  ℕ, ◌>>=◌, ◌-◌, ◌%◌, ◌<◌, String, ◌≡◌, refl, false, Option, some, arith, str_eq, ltb,
  if◌then◌else◌, get_or, ℤ, pos, negsuc,
}
use distributed_task_system.Converters.Json.{
  Json, object, no_fields, JsonFields, PbFields, json_to_struct, struct_to_json,
}
use distributed_task_system.Converters.Fields.{HasKeys}
use distributed_task_system.Converters.RoundTrip.{AreExact, struct_round_trip}

pub record Resource (D : Type 0) : Type 0 where
  pub cpu_core : D
  pub mem_mb : ℕ

pub record Shard : Type 0 where
  pub shard_id : ℕ
  pub total_shards : ℕ

-- dts::Task. `state` is the number of a TaskState, an enum over int8_t.
pub record Task (N D : Type 0) : Type 0 where
  pub job_id : String
  pub task_id : String
  pub natural_id : String
  pub client_id : String
  pub stream_id : String
  pub priority : ℕ
  pub state : ℤ
  pub pending_dependencies : ℤ
  pub func_name : String
  pub func_params : Json N
  pub required : Resource D
  pub shard : Shard
  pub timeout_ms : ℕ
  pub max_retry : ℕ
  pub retry_count : ℕ
  pub submit_ts : ℤ
  pub start_ts : ℤ
  pub finish_ts : ℤ
  pub result : Json N
  pub error_msg : String

-- dts.task.Task. `state` is an open enum of 32 bits.
pub record PbTask (D : Type 0) : Type 0 where
  pub task_id : String
  pub natural_id : String
  pub job_id : String
  pub pending_dependencies : ℤ
  pub client_id : String
  pub priority : ℕ
  pub state : ℤ
  pub func_name : String
  pub func_params : String
  pub required : Resource D
  pub shard : Shard
  pub timeout_ms : ℕ
  pub max_retry : ℕ
  pub retry_count : ℕ
  pub submit_ts : ℤ
  pub start_ts : ℤ
  pub finish_ts : ℤ
  pub result : PbFields D
  pub error_msg : String

-- static_cast<TaskState>: the low 8 bits, as a signed number.
abbrev pub to_int8 : ℤ → ℤ
to_int8 (pos n) = if ltb (n % 256) 128 then pos (n % 256) else negsuc (255 - n % 256)
to_int8 (negsuc n) = if ltb (n % 256) 128 then negsuc (n % 256) else pos (255 - n % 256)

abbrev pub IsInt8 : ℤ → Type 0
IsInt8 (pos n) = n < 128
IsInt8 (negsuc n) = n < 128

pub to_int8_id : (z : ℤ) → IsInt8 z → to_int8 z ≡ z
to_int8_id (pos n) h = ground arith
to_int8_id (negsuc n) h = ground arith

module _ {N D : Type 0} (to_double : N → D) (of_double : D → N) (index_key : ℕ → String) where
  abbrev pub fill_proto : Task N D → String → PbTask D
  fill_proto task params = record {
    task_id = task.task_id;
    natural_id = task.natural_id;
    client_id = task.client_id;
    job_id = task.job_id;
    priority = task.priority;
    state = task.state;
    func_name = task.func_name;
    func_params = params;
    required = task.required;
    shard = task.shard;
    timeout_ms = task.timeout_ms;
    max_retry = task.max_retry;
    retry_count = task.retry_count;
    submit_ts = task.submit_ts;
    start_ts = task.start_ts;
    finish_ts = task.finish_ts;
    result = json_to_struct to_double index_key task.result;
    error_msg = task.error_msg;
    pending_dependencies = task.pending_dependencies;
  }

  -- `dump` is json::dump, which throws on a text that is not UTF-8.
  unfoldable pub task_to_proto : (Json N → Option String) → Task N D → Option (PbTask D)
  task_to_proto dump task = dump task.func_params >>= λ params. some (fill_proto task params)

  -- json::parse, with an empty object for an empty text or one that is no JSON.
  abbrev pub parse_params : (String → Option (Json N)) → String → Json N
  parse_params parse s =
      if str_eq s "" then object no_fields else get_or (parse s) (object no_fields)

  -- The fields that are not set have their initializers.
  unfoldable pub task_from_proto : (String → Option (Json N)) → PbTask D → Task N D
  task_from_proto parse proto = record {
    job_id = proto.job_id;
    task_id = proto.task_id;
    natural_id = proto.natural_id;
    client_id = proto.client_id;
    stream_id = "";
    priority = proto.priority;
    state = to_int8 proto.state;
    pending_dependencies = proto.pending_dependencies;
    func_name = proto.func_name;
    func_params = parse_params parse proto.func_params;
    required = proto.required;
    shard = proto.shard;
    timeout_ms = proto.timeout_ms;
    max_retry = proto.max_retry;
    retry_count = proto.retry_count;
    submit_ts = proto.submit_ts;
    start_ts = proto.start_ts;
    finish_ts = proto.finish_ts;
    result = struct_to_json of_double proto.result;
    error_msg = proto.error_msg;
  }

  -- A task goes to a message and comes back the same, but for stream_id, which is emptied. It must
  -- have a state of 8 bits, parameters that json can dump to a text that is not empty and parse again,
  -- and for its result an object in which the keys of every object differ, without a null or an
  -- array, and with no number that the cast to double changes; no two indices have the same text.
  pub task_round_trip :
      (dump : Json N → Option String) (parse : String → Option (Json N)) (t : Task N D)
      (params : String) (fields : JsonFields N)
      → ((i j : ℕ) → index_key i ≡ index_key j → i ≡ j)
      → dump t.func_params ≡ some params
      → str_eq params "" ≡ false
      → parse params ≡ some t.func_params
      → IsInt8 t.state
      → t.result ≡ object fields
      → HasKeys fields
      → AreExact to_double of_double index_key fields
      → (task_to_proto dump t >>= λ proto. some (task_from_proto parse proto))
        ≡ some (record t { stream_id = "" })
  unfolding task_to_proto task_from_proto
  task_round_trip dump parse t params fields distinct dumps full parses small of_fields keyed
        exact =
      rw
        (
          dumps,
          full,
          parses,
          to_int8_id t.state small,
          of_fields,
          struct_round_trip to_double of_double index_key fields distinct keyed exact,
        )
        refl
