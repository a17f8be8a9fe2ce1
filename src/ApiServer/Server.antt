-- ===== src/ApiServer/Server.antt =====
-- AsyncServer of src/api-server/src/api_server.cpp: Run makes the queues and the contexts of both
-- calls, a thread drives each queue, and Shutdown ends them.
pub mod Sharing
pub mod Life
use distributed_task_system.Common.{
  ℕ, zero, suc, ◌>>=◌, ◌*◌, ◌%◌, String, Bool, true, false, Option, none, some, List, [], ◌∷◌, ◌++◌,
  get_or, is_some, get_elem?,
}
use distributed_task_system.ApiServer.{
  RpcResponse, Handled, safe_execute, create, Event, Calls, dispatch,
}

-- The handlers that were set, and what they need: `none` is one that is not set. A context has a response
-- of its own, which is empty at first, and `generated` is "gen-" with the time.
pub record Handlers (SubmitReq SubmitBody StatusReq StatusBody : Type 0) : Type 0 where
  pub submit_task : Option (SubmitReq → RpcResponse SubmitBody → Handled SubmitBody)
  pub get_job_status : Option (StatusReq → RpcResponse StatusBody → Handled StatusBody)
  pub empty_submit : RpcResponse SubmitBody
  pub empty_status : RpcResponse StatusBody
  pub generated : String

-- A completion queue: the contexts of SubmitDag and of GetJobStatus that it serves.
pub record ServerQueue (SubmitBody StatusBody : Type 0) : Type 0 where
  pub submits : Calls SubmitBody
  pub queries : Calls StatusBody

-- What Next hands out: a tag is of a context of one of the two calls.
pub data ServerEvent (SubmitReq StatusReq : Type 0) : Type 0 where
  submit_event : Event SubmitReq → ServerEvent SubmitReq StatusReq
  status_event : Event StatusReq → ServerEvent SubmitReq StatusReq

module _ {SubmitBody StatusBody : Type 0} where
  -- A new context of each call on a queue.
  unfoldable pub add_contexts :
      ℕ → List (ServerQueue SubmitBody StatusBody) → List (ServerQueue SubmitBody StatusBody)
  add_contexts i [] = []
  add_contexts zero (q ∷ qs) =
      record {
        submits = record q.submits { contexts = q.submits.contexts ++ create ∷ [] };
        queries = record q.queries { contexts = q.queries.contexts ++ create ∷ [] };
      }
      ∷ qs
  add_contexts (suc i) (q ∷ qs) = q ∷ add_contexts i qs

  -- The loop of Run from i on, with the turns that are left.
  unfoldable pub create_contexts :
      ℕ
      → ℕ
      → ℕ
      → List (ServerQueue SubmitBody StatusBody)
      → List (ServerQueue SubmitBody StatusBody)
  create_contexts zero i cq_count qs = qs
  create_contexts (suc n) i cq_count qs =
      create_contexts n (suc i) cq_count (add_contexts (i % cq_count) qs)

  unfoldable pub new_queues : ℕ → List (ServerQueue SubmitBody StatusBody)
  new_queues zero = []
  new_queues (suc n) =
      record {
        submits = record { contexts = []; responses = [] };
        queries = record { contexts = []; responses = [] };
      }
      ∷ new_queues n

  -- `none` where no queue is served: Run gives up without a handler of SubmitDag, and divides by no queues.
  abbrev pub run_with : Bool → ℕ → ℕ → Option (List (ServerQueue SubmitBody StatusBody))
  run_with false cores n = none
  run_with true zero zero = some []
  run_with true zero (suc n) = none
  run_with true (suc c) n = some (create_contexts n 0 (suc c) (new_queues (suc c)))

module _ {SubmitReq SubmitBody StatusReq StatusBody : Type 0}
    (handlers : Handlers SubmitReq SubmitBody StatusReq StatusBody) where
  unfoldable pub on_submit_dag : SubmitReq → RpcResponse SubmitBody
  on_submit_dag request =
      safe_execute handlers.submit_task handlers.generated request handlers.empty_submit

  unfoldable pub on_get_job_status : StatusReq → RpcResponse StatusBody
  on_get_job_status request =
      safe_execute handlers.get_job_status handlers.generated request handlers.empty_status

  -- Proceed of the context of an event; `none` for an event of no context.
  abbrev pub on_event :
      ServerEvent SubmitReq StatusReq
      → ServerQueue SubmitBody StatusBody
      → Option (ServerQueue SubmitBody StatusBody)
  on_event (submit_event e) q =
      dispatch on_submit_dag e (get_elem? q.submits.contexts e.tag) q.submits >>= λ s.
      some (record q { submits = s })
  on_event (status_event e) q =
      dispatch on_get_job_status e (get_elem? q.queries.contexts e.tag) q.queries >>= λ s.
      some (record q { queries = s })

  -- DriveCompletionQueue over what Next hands out for both calls.
  unfoldable pub drive_queue :
      List (ServerEvent SubmitReq StatusReq)
      → ServerQueue SubmitBody StatusBody
      → Option (ServerQueue SubmitBody StatusBody)
  drive_queue [] q = some q
  drive_queue (e ∷ es) q = on_event e q >>= λ q'. drive_queue es q'

  -- Run with the number of cores, and with DTS_INITIAL_CONTEXT if it is set (below 0 is as 0).
  unfoldable pub run : ℕ → Option ℕ → Option (List (ServerQueue SubmitBody StatusBody))
  run cores env = run_with (is_some handlers.submit_task) cores (get_or env (cores * 20))
