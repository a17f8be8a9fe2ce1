-- ===== src/Tests/Serving.antt =====
-- The theorems of `ApiServer.Server` at a server with a handler of SubmitDag and none of GetJobStatus.
use distributed_task_system.Common.{
  String, ◌≡◌, refl, ◌⊎◌, inl, inr, true, false, none, some, List, [], ◌∷◌, ◌++◌, arith, str_eq,
  if◌then◌else◌, get_elem?,
}
use distributed_task_system.ApiServer.{
  RpcResponse, after_handler, submitted, create, finish, safe_execute, fill_sys_error,
  submit_dag_handler, proceed,
}
use distributed_task_system.ApiServer.Server.{
  Handlers, ServerQueue, ServerEvent, submit_event, status_event, on_submit_dag, on_get_job_status,
  drive_queue, add_contexts, create_contexts, new_queues, run,
}
use distributed_task_system.ApiServer.Server.Sharing.{fresh, IsShared, run-IsShared}
use distributed_task_system.ApiServer.Server.Life.{IsServing, AllFine, IsCounted, queue_life}

abbrev submit : String → String ⊎ String
submit request = if str_eq request "full" then inr "queue full" else inl "j1"

abbrev empty : RpcResponse String
empty = record { request_id = ""; error = none; body = "" }

abbrev handlers : Handlers String String String String
handlers = record {
  submit_task = some (submit_dag_handler submit);
  get_job_status = none;
  empty_submit = empty;
  empty_status = empty;
  generated = "gen-1";
}

-- A response has an error or the id of a job.
abbrev IsAnswered : RpcResponse String → Type 0
IsAnswered r = (r.error ≡ none) ⊎ (r.body ≡ "")

served_as : (r : String ⊎ String) → IsAnswered (after_handler "gen-1" (submitted r empty))
served_as (inl job_id) = inl refl
served_as (inr what) = inr refl

served : (request : String) → IsAnswered (on_submit_dag handlers request)
unfolding on_submit_dag safe_execute submit_dag_handler
served request = served_as (submit request)

abbrev IsRefused : RpcResponse String → Type 0
IsRefused r = r.error ≡ some "API handler not registered on server"

refused : (request : String) → IsRefused (on_get_job_status handlers request)
unfolding on_get_job_status safe_execute fill_sys_error
refused request = refl

abbrev good : List (ServerEvent String String)
good =
    submit_event (record { tag = 0; ok = true; request = "dag" })
    ∷ status_event (record { tag = 1; ok = true; request = "j1" })
    ∷ submit_event (record { tag = 1; ok = true; request = "full" })
    ∷ submit_event (record { tag = 0; ok = true; request = "" })
    ∷ []

-- A response has been sent, a request had come before the shutdown, and two contexts wait.
abbrev closing : List (ServerEvent String String)
closing =
    submit_event (record { tag = 0; ok = true; request = "" })
    ∷ submit_event (record { tag = 0; ok = true; request = "dag" })
    ∷ submit_event (record { tag = 1; ok = false; request = "" })
    ∷ status_event (record { tag = 0; ok = false; request = "" })
    ∷ []

abbrev open_queue : ServerQueue String String
open_queue = record {
  submits = record {
    contexts = finish ∷ create ∷ create ∷ [];
    responses = on_submit_dag handlers "dag" ∷ on_submit_dag handlers "full" ∷ [];
  };
  queries = record {
    contexts = create ∷ finish ∷ create ∷ [];
    responses = on_get_job_status handlers "j1" ∷ [];
  };
}

abbrev closed_queue : ServerQueue String String
closed_queue = record {
  submits = record {
    contexts = finish ∷ create ∷ [];
    responses = open_queue.submits.responses ++ on_submit_dag handlers "dag" ∷ [];
  };
  queries = record open_queue.queries { contexts = finish ∷ create ∷ [] };
}

queue_life_example :
    IsServing handlers IsAnswered IsRefused served refused 2 open_queue
    × IsCounted handlers IsAnswered IsRefused served refused closing open_queue closed_queue
    × AllFine handlers IsAnswered IsRefused served refused closed_queue
unfolding drive_queue proceed
queue_life_example =
    queue_life handlers IsAnswered IsRefused served refused 2 good closing open_queue closed_queue
      (refl, (refl, (refl, (refl, tt)))) refl refl

run-IsShared_example :
    (qs : List (ServerQueue String String)) × (a : ServerQueue String String) × (b : ServerQueue
      String String)
    × (run handlers 3 (some 5) ≡ some qs)
    × (get_elem? qs 1 ≡ some a)
    × (get_elem? qs 2 ≡ some b)
    × IsShared a b
run-IsShared_example = run-IsShared handlers 2 (some 5) 1 2 refl (omega arith) (omega arith)

-- Of 5 contexts the three queues get 2, 2 and 1.
five_contexts : run handlers 3 (some 5) ≡ some (fresh 2 ∷ fresh 2 ∷ fresh 1 ∷ [])
unfolding run create_contexts add_contexts new_queues
five_contexts = refl
