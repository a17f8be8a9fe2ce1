-- ===== src/Converters/Requests.antt =====
-- CppSubmitDagRequest of src/common/include/dag.hpp and ConvertPbFromDagRequest of
-- src/common/src/converters.cpp, and that it undoes DagBuilder::BuildProto.
use distributed_task_system.Common.{
  ℕ, >>=-eq-some, String, ◌≡◌, refl, sym, Bool, true, false, Option, none, some, List, [], ◌∷◌, map,
  str_eq, if◌then◌else◌, All, values,
}
use distributed_task_system.Converters.Json.{
  Json, null, object, no_fields, json_to_struct, struct_to_json, fill_fields,
}
use distributed_task_system.Converters.Tasks.{
  Task, PbTask, IsInt8, to_int8_id, task_from_proto, fill_proto,
}
use distributed_task_system.DagBuilder.{
  TaskEdge, Builder, Result, fine, error, cycle, Request, build_proto, validate_cycle,
}

pub record CppSubmitDagRequest (N D : Type 0) : Type 0 where
  pub job_id : String
  pub idempotency_key : String
  pub client_id : String
  pub tasks : List (Task N D)
  pub edges : List TaskEdge

abbrev pub built : {T P : Type 0} → (T → P) → Builder T → Request P
built f b = record {
  idempotency_key = b.idempotency_key;
  tasks = map f (values b.tasks_map);
  edges = b.task_edges;
}

no_cycle :
    {A : Type 0} (found : Bool) (a b : A)
    → ◌≡◌ {A = Option (Result A)} (some (if found then error cycle else fine a)) (some (fine b))
    → a ≡ b
no_cycle true a b e = cc
no_cycle false a b e = cc

pub build_proto_fine :
    {T P : Type 0} (f : T → P) (b : Builder T) (req : Request P)
    → build_proto f b ≡ some (fine req)
    → built f b ≡ req
unfolding build_proto
build_proto_fine f b req h =
    let (found, ran, e) = >>=-eq-some (validate_cycle b) _ h in no_cycle found (built f b) req e

module _ {N D : Type 0} (to_double : N → D) (of_double : D → N) (index_key : ℕ → String) where
  -- `none` is the null pointer.
  unfoldable pub convert_pb_from_dag_request :
      (String → Option (Json N)) → Option (Request (PbTask D)) → CppSubmitDagRequest N D
  convert_pb_from_dag_request parse none = record {
    job_id = "";
    idempotency_key = "";
    client_id = "";
    tasks = [];
    edges = [];
  }
  convert_pb_from_dag_request parse (some req) = record {
    job_id = "";
    idempotency_key = req.idempotency_key;
    client_id = "";
    tasks = map (task_from_proto to_double of_double index_key parse) req.tasks;
    edges = req.edges;
  }

  -- A task as AddTask makes it and its caller fills it in, which has no result yet: its parameters have a
  -- text that is not empty and parses to them, and its state has 8 bits.
  pub record IsSendable (dump : Json N → String) (parse : String → Option (Json N)) (t : Task N D)
      : Type 0 where
    pub full : str_eq (dump t.func_params) "" ≡ false
    pub parses : parse (dump t.func_params) ≡ some t.func_params
    pub small : IsInt8 t.state
    pub no_result : t.result ≡ null

  -- The task that arrives: a message has no null for its result, which becomes an empty object.
  abbrev pub arrived : Task N D → Task N D
  arrived t = record t { stream_id = ""; result = object no_fields }

  null_arrives :
      struct_to_json of_double (json_to_struct to_double index_key null) ≡ object no_fields
  unfolding struct_to_json json_to_struct fill_fields
  null_arrives = refl

  module _ (dump : Json N → String) (parse : String → Option (Json N)) where
    abbrev pub to_proto : Task N D → PbTask D
    to_proto t = fill_proto to_double of_double index_key t (dump t.func_params)

    one_back :
        (t : Task N D)
        → IsSendable dump parse t
        → task_from_proto to_double of_double index_key parse (to_proto t) ≡ arrived t
    unfolding task_from_proto
    one_back t s = rw (s.no_result, s.full, s.parses, to_int8_id t.state s.small, null_arrives) refl

    every_back :
        (ts : List (Task N D))
        → All (IsSendable dump parse) ts
        → map (task_from_proto to_double of_double index_key parse) (map to_proto ts)
          ≡ map arrived ts
    every_back [] h = refl
    every_back (t ∷ ts) h = rw (one_back t h.0, every_back ts h.1) refl

    -- If every task of a builder has no result, a state of 8 bits, and parameters whose text is not
    -- empty and parses to them, then the request that BuildProto makes is converted to one with the
    -- key, the tasks and the edges of the builder, and no job_id or client_id; the tasks are the same
    -- but for stream_id, which is emptied, and the result, which is an empty object instead of null.
    pub dag_request_round_trip :
        (b : Builder (Task N D)) (req : Request (PbTask D))
        → All (IsSendable dump parse) (values b.tasks_map)
        → build_proto to_proto b ≡ some (fine req)
        → convert_pb_from_dag_request parse (some req) ≡ record {
          job_id = "";
          idempotency_key = b.idempotency_key;
          client_id = "";
          tasks = map arrived (values b.tasks_map);
          edges = b.task_edges;
        }
    unfolding convert_pb_from_dag_request
    dag_request_round_trip b req sendable built_fine =
        rw
          (
            sym (build_proto_fine to_proto b req built_fine),
            every_back (values b.tasks_map) sendable,
          )
          refl
