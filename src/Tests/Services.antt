-- ===== src/Tests/Services.antt =====
-- The theorems of `RedisManager`, `ApiWeb` and `Startup` at small inputs. The Redis server is the list of
-- the scripts that it has.
use distributed_task_system.Common.{
  ℕ, String, ◌≡◌, refl, true, Option, none, some, List, [], ◌∷◌, str_eq, ltb, if◌then◌else◌,
  is_empty, pos, find, put,
}
use Prim.Native.String.{◌++◌ as ◌<>◌}
use distributed_task_system.RedisManager.{
  answer, redis_error, Client, RedisManager, load_script, eval_sha,
}
use distributed_task_system.RedisManager.Scripts.{eval_sha_recovers}
use distributed_task_system.Startup.{IsRun, retry_loop, init_with_retry, init_with_retry-IsRun}
use distributed_task_system.Converters.Json.{
  Json, string, array, object, no_items, item, no_fields, field,
}
use distributed_task_system.Converters.Tasks.{Task}
use distributed_task_system.DagBuilder.{
  Request, new_builder, add_task, add_dependency, build_proto, validate_cycle, search_all,
  has_cycle_dfs, scan, build_adj, all_white,
}
use distributed_task_system.ApiWeb.{
  Numbers, RpcEnd, accepted, Answer, parse_json_to_task, add_json_task, add_json_tasks,
  add_json_edges, build_from_json, handle_dag_submit,
}
use distributed_task_system.ApiWeb.Submitting.{IsAnswer, handle_dag_submit-IsAnswer}

-- Every script answers 7.
abbrev client : Client (List String)
client = record {
  xadd = λ key id fields s. (answer "1-0", s);
  xgroup_create =
      λ key group id mkstream s. (redis_error "BUSYGROUP Consumer Group name already exists", s);
  xreadgroup = λ group consumer key block count s. (answer [], s);
  xack = λ key group id s. (answer (pos 1), s);
  xclaim = λ key group consumer idle ids s. (answer [], s);
  xpending = λ key group from to count s. (answer [], s);
  xpending_of = λ key group from to count consumer s. (answer [], s);
  script_load = λ content s. (answer ("sha-" <> content), content ∷ s);
  evalsha = λ sha ks args s.
      if is_empty s
      then (redis_error "NOSCRIPT No matching script.", s)
      else (answer (some (pos 7)), s);
  eval = λ content ks args s. (answer (pos 7), content ∷ s);
}

abbrev connected : RedisManager
connected = record { client = true; initialized = true; script_cache = [] }

abbrev loaded : RedisManager
loaded = record connected { script_cache = ("sha-return 7", "return 7") ∷ [] }

eval_sha_recovers_example :
    eval_sha client loaded "sha-return 7" [] [] [] ≡ (some (pos 7), "return 7" ∷ [])
unfolding load_script put
eval_sha_recovers_example =
    eval_sha_recovers client "return 7" "sha-return 7" "NOSCRIPT No matching script." connected
      loaded [] [] [] [] [] refl refl refl

init_with_retry-IsRun_example : IsRun (λ k. ltb 1 k) 3 0 (init_with_retry (λ k. ltb 1 k) 3)
init_with_retry-IsRun_example = init_with_retry-IsRun (λ k. ltb 1 k) 3

third_call : init_with_retry (λ k. ltb 1 k) 3 ≡ some (true, 3)
unfolding init_with_retry retry_loop
third_call = refl

abbrev numbers : Numbers ℕ ℕ
numbers = record {
  get_int = λ j. some (pos 5);
  get_double = λ j. some 1;
  get_uint64 = λ j. some 1;
  zero_double = 0;
}

abbrev task_json : String → Json ℕ
task_json name =
    object (field "natural_id" (string name) (field "func_name" (string "echo") no_fields))

abbrev edge_json : String → String → Json ℕ
edge_json p c = object (field "parent" (string p) (field "child" (string c) no_fields))

-- The text "cycle" stands for a body with an edge back.
abbrev parse : String → Option (Json ℕ)
parse s = some (
    object (
      field "idempotency_key" (string "key") (
        field "tasks" (array (item (task_json "a") (item (task_json "b") no_items))) (
          field "edges"
            (array (
              item (edge_json "a" "b")
                (if str_eq s "cycle" then item (edge_json "b" "a") no_items else no_items)))
            no_fields))))

abbrev name_of : Task ℕ ℕ → String
name_of t = t.natural_id

abbrev grpc : Request String → RpcEnd
grpc req = accepted "j1"

handle_dag_submit-IsAnswer_example :
    (a : Answer String) × (handle_dag_submit numbers name_of parse grpc "dag" ≡ some a)
    × IsAnswer numbers name_of grpc a
handle_dag_submit-IsAnswer_example = handle_dag_submit-IsAnswer numbers name_of parse grpc "dag"

-- A graph with a cycle is answered by 503.
cycle_refused :
    handle_dag_submit numbers name_of parse grpc "cycle"
    ≡ some (record { status = 503; job_id = none; sent = none })
unfolding handle_dag_submit build_from_json add_json_tasks add_json_task add_json_edges
    parse_json_to_task new_builder add_task add_dependency build_proto validate_cycle search_all
    has_cycle_dfs scan build_adj all_white find put
cycle_refused = refl

sends_dag :
    handle_dag_submit numbers name_of parse grpc "dag"
    ≡ some (record {
      status = 200;
      job_id = some "j1";
      sent = some (record {
        idempotency_key = "key";
        tasks = "a" ∷ "b" ∷ [];
        edges = record { parent_natural_id = "a"; child_natural_id = "b" } ∷ [];
      });
    })
unfolding handle_dag_submit build_from_json add_json_tasks add_json_task add_json_edges
    parse_json_to_task new_builder add_task add_dependency build_proto validate_cycle search_all
    has_cycle_dfs scan build_adj all_white find put
sends_dag = refl
