-- ===== src/ApiServer.antt =====
-- The RPC layer of api-server: AsyncCallContext, SafeExecute and FillSysError of
-- src/api-server/include/api_server.hpp, DriveCompletionQueue of src/api-server/src/api_server.cpp,
-- and the handler of SubmitDag of src/api-server/src/main.cpp.
pub mod Serving
pub mod Server
use distributed_task_system.Common.{
  ℕ, zero, suc, ◌>>=◌, String, ◌⊎◌, inl, inr, Bool, true, false, Option, none, some, List, [], ◌∷◌,
  ◌++◌, str_eq, if◌then◌else◌, get_elem?,
}

-- A response: its header, and what else the handler fills in.
pub record RpcResponse (Body : Type 0) : Type 0 where
  pub request_id : String
  -- SysErr::SYS_INTERNAL with its message.
  pub error : Option String
  pub body : Body

-- How a handler ends, with the response as it left it.
pub data Handled (Body : Type 0) : Type 0 where
  handled : RpcResponse Body → Handled Body
  threw : RpcResponse Body → String → Handled Body
  threw_unknown : RpcResponse Body → Handled Body

module _ {Body : Type 0} where
  -- FillSysError; `generated` is "gen-" with the time.
  unfoldable pub fill_sys_error : String → String → RpcResponse Body → RpcResponse Body
  fill_sys_error generated msg resp = record resp {
    error = some msg;
    request_id = if str_eq resp.request_id "" then generated else resp.request_id;
  }

  abbrev pub after_handler : String → Handled Body → RpcResponse Body
  after_handler generated (handled resp) = resp
  after_handler generated (threw resp what) = fill_sys_error generated what resp
  after_handler generated (threw_unknown resp) =
      fill_sys_error generated "Unknown server error" resp

  -- SafeExecute; `none` is a handler that is not set.
  unfoldable pub safe_execute :
      {Req : Type 0}
      → Option (Req → RpcResponse Body → Handled Body)
      → String
      → Req
      → RpcResponse Body
      → RpcResponse Body
  safe_execute none generated request resp =
      fill_sys_error generated "API handler not registered on server" resp
  safe_execute (some handler) generated request resp =
      after_handler generated (handler request resp)

-- status_ of a context: it waits for a request, or for its response to be sent.
pub data CallStatus : Type 0 where
  create : CallStatus
  finish : CallStatus

-- An event of the completion queue: the context it is about, its flag, and the request in it.
pub record Event (Req : Type 0) : Type 0 where
  pub tag : ℕ
  pub ok : Bool
  pub request : Req

-- The contexts that are alive, and the responses that were given to gRPC.
pub record Calls (Body : Type 0) : Type 0 where
  pub contexts : List CallStatus
  pub responses : List (RpcResponse Body)

-- The context at a place is replaced.
abbrev pub replace : ℕ → List CallStatus → List CallStatus → List CallStatus
replace i new [] = []
replace zero new (c ∷ cs) = new ++ cs
replace (suc i) new (c ∷ cs) = c ∷ replace i new cs

module _ {Req Body : Type 0} (proceed_ : Req → RpcResponse Body) where
  -- Proceed: the contexts that are there for it afterwards, a new one last, and the responses.
  unfoldable pub proceed : Bool → Req → CallStatus → List CallStatus × List (RpcResponse Body)
  proceed false request status = ([], [])
  proceed true request create = (finish ∷ create ∷ [], proceed_ request ∷ [])
  proceed true request finish = ([], [])

  abbrev pub dispatch : Event Req → Option CallStatus → Calls Body → Option (Calls Body)
  dispatch e none s = none
  dispatch e (some status) s =
      let (new, sent) = proceed e.ok e.request status in
      some (record { contexts = replace e.tag new s.contexts; responses = s.responses ++ sent })

  -- DriveCompletionQueue over the events that it gets; `none` for an event of no context.
  unfoldable pub drive_completion_queue : List (Event Req) → Calls Body → Option (Calls Body)
  drive_completion_queue [] s = some s
  drive_completion_queue (e ∷ es) s =
      dispatch e (get_elem? s.contexts e.tag) s >>= λ s'. drive_completion_queue es s'

-- The contexts that Run makes on a queue.
abbrev pub new_contexts : ℕ → List CallStatus
new_contexts zero = []
new_contexts (suc n) = create ∷ new_contexts n

abbrev pub submitted : String ⊎ String → RpcResponse String → Handled String
submitted (inl job_id) resp = handled (record resp { body = job_id })
submitted (inr what) resp = handled (record resp { error = some what })

-- The handler of SubmitDag: `submit` is SubmitDagAsync, which returns a job id or throws.
unfoldable pub submit_dag_handler :
    {Req : Type 0} → (Req → String ⊎ String) → Req → RpcResponse String → Handled String
submit_dag_handler submit request resp = submitted (submit request) resp
