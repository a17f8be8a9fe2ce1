-- ===== src/ApiWeb/Waiting.antt =====
-- The call of handle_dag_submit of src/api-web/src/api_web.cpp: the coroutine AsyncSubmitBridge, the
-- awaiter of src/common/include/coroutines/dts_coroutine.h on which it is suspended, and the thread
-- of GrpcClient in src/client/src/grpc_client.cpp that resumes it. A call is a coroutine with its
-- awaiter, and its tag is its index: the calls of different HTTP threads are made one after another.
pub mod Answered
use distributed_task_system.Common.{
  ℕ, zero, suc, String, ◌≡◌, Bool, true, false, Option, none, some, List, [], ◌∷◌, ◌++◌,
  if◌then◌else◌, get_elem?,
}
use distributed_task_system.GrpcClient.{
  internal, unavailable, Status, ok_status, failed, SubmitDagResponse, empty_response,
}
use distributed_task_system.ApiWeb.{Try, RpcEnd, transport_failed, rejected, accepted, await_resume}

-- What await_resume finds in the status and in the header of the response.
abbrev pub header_end : Option String → String → RpcEnd
header_end none job_id = accepted job_id
header_end (some msg) job_id = rejected msg

abbrev pub rpc_end : Status → SubmitDagResponse → RpcEnd
rpc_end (failed code msg) resp = transport_failed
rpc_end ok_status resp = header_end resp.error resp.job_id

-- A coroutine is suspended in co_await, or it has come to its end.
pub data Coroutine : Type 0 where
  at_co_await : Coroutine
  at_end : Coroutine

-- A coroutine with its awaiter. `owed` is true from the Finish of the awaiter until the queue hands out
-- its tag, and `promise` has what set_value was called with.
pub record Call : Type 0 where
  pub coroutine : Coroutine
  pub status : Status
  pub response : SubmitDagResponse
  pub owed : Bool
  pub promise : List (Try String)

-- handle.resume(): await_resume, and the rest of AsyncSubmitBridge.
unfoldable pub resume : Call → Call
resume c = record c {
  coroutine = at_end;
  promise = c.promise ++ await_resume (rpc_end c.status c.response) ∷ [];
}

-- GrpcAwaiter::await_suspend, with whether the function it calls has made a reader.
unfoldable pub await_suspend : Bool → Call → Call
await_suspend false c = resume (record c { status = failed unavailable "Failed to init RPC" })
await_suspend true c = record c { owed = true }

-- The beginning of AsyncSubmitBridge, up to its co_await.
abbrev pub new_call : Call
new_call = record {
  coroutine = at_co_await;
  status = ok_status;
  response = empty_response;
  owed = false;
  promise = [];
}

abbrev pub after_close : Bool → Status → Status
after_close true state = state
after_close false (failed code msg) = failed code msg
after_close false ok_status = failed internal "CompletionQueue Shutdown"

-- What the queue hands out with a tag: its flag, and what Finish has written.
pub record Report : Type 0 where
  pub ok : Bool
  pub status : Status
  pub response : SubmitDagResponse

-- GrpcAwaiter::Proceed.
unfoldable pub proceed_awaiter : Report → Call → Call
proceed_awaiter e c =
    resume (record c { status = after_close e.ok e.status; response = e.response; owed = false })

-- The client with the calls that were made, in order.
pub record Client : Type 0 where
  pub calls : List Call
  pub shutdown : Bool

-- The constructor of GrpcClient.
abbrev pub new_client : Client
new_client = record { calls = []; shutdown = false }

-- A call of AsyncSubmitBridge, and with it of submit_dag_co.
unfoldable pub submit_dag_co : Bool → Client → Client
submit_dag_co has_reader g = record g { calls = g.calls ++ await_suspend has_reader new_call ∷ [] }

-- What AsyncNext returns.
pub data Next : Type 0 where
  got_event : ℕ → Report → Next
  queue_shutdown : Next
  timeout : Next

unfoldable pub on_tag : ℕ → Report → List Call → List Call
on_tag i e [] = []
on_tag zero e (c ∷ cs) = proceed_awaiter e c ∷ cs
on_tag (suc i) e (c ∷ cs) = c ∷ on_tag i e cs

abbrev pub on_next : Next → Client → Option Client
on_next (got_event i e) g = some (record g { calls = on_tag i e g.calls })
on_next queue_shutdown g = none
on_next timeout g = some g

-- A turn of CompleteRpc: `none` where its thread returns.
unfoldable pub complete_turn : Next → Client → Option Client
complete_turn next g = if g.shutdown then none else on_next next g

-- The destructor, up to its join.
unfoldable pub close_client : Client → Client
close_client g = record g { shutdown = true }

-- The queue hands out a tag only once for the Finish it was given to.
abbrev pub Owes : Client → Next → Type 0
Owes g (got_event i e) = (c : Call) × (get_elem? g.calls i ≡ some c) × (c.owed ≡ true)
Owes g queue_shutdown = Unit
Owes g timeout = Unit

-- What happens to a client, in any order.
pub data Moves : Client → Client → Type 0 where
  submits : (has_reader : Bool) (g : Client) → Moves g (submit_dag_co has_reader g)
  turns : (next : Next) (g h : Client) → Owes g next → complete_turn next g ≡ some h → Moves g h
  closes : (g : Client) → Moves g (close_client g)

pub data Reaches : Client → Type 0 where
  at_start : Reaches new_client
  then_moves : (g h : Client) → Reaches g → Moves g h → Reaches h

-- The turns in which the queue hands out tags, with what it hands out.
pub data HandsOut : Client → List (ℕ × Report) → Client → Type 0 where
  no_more : (g : Client) → HandsOut g [] g
  hands_out :
      (i : ℕ) (e : Report) (es : List (ℕ × Report)) (g h k : Client)
      → Owes g (got_event i e)
      → complete_turn (got_event i e) g ≡ some h
      → HandsOut h es k
      → HandsOut g ((i, e) ∷ es) k

-- future.get(): `none` while it blocks.
abbrev pub future_get : List (Try String) → Option (Try String)
future_get [] = none
future_get (r ∷ rs) = some r
