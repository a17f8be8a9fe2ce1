-- ===== src/GrpcClient.antt =====
-- GrpcClient of src/client/src/grpc_client.cpp and AsyncDagSubmitTag of
-- src/client/include/async_tags.hpp: submit_dag_sync and submit_dag_async with its completions.
pub mod Completions
use Prim.Native.String.{◌++◌ as ◌<>◌}
use distributed_task_system.Common.{
  ℕ, suc, String, ◌⊎◌, inl, inr, Bool, true, false, Option, none, some, List, [], ◌∷◌, ◌++◌,
  if◌then◌else◌,
}

-- A status: OK, or a code with a message. Only the codes that the client makes are told apart.
pub data Code : Type 0 where
  internal : Code
  unavailable : Code
  failed_precondition : Code
  other_code : Code

pub data Status : Type 0 where
  ok_status : Status
  failed : Code → String → Status

-- SubmitDagResponse: the message of the error in its header, if any, and the job.
pub record SubmitDagResponse : Type 0 where
  pub error : Option String
  pub job_id : String

abbrev pub empty_response : SubmitDagResponse
empty_response = record { error = none; job_id = "" }

-- The exception of submit_dag_sync: GrpcError of a status, or std::runtime_error.
pub data ClientError : Type 0 where
  grpc_error : Status → ClientError
  rejected : String → ClientError

abbrev checked : SubmitDagResponse → Option String → ClientError ⊎ SubmitDagResponse
checked resp none = inr resp
checked resp (some msg) = inl (rejected msg)

abbrev answered : Status × SubmitDagResponse → ClientError ⊎ SubmitDagResponse
answered (ok_status, resp) = checked resp resp.error
answered (failed code msg, resp) = inl (grpc_error (failed code msg))

-- submit_dag_sync: `none` is a null stub, and `some` what the call ends with.
unfoldable pub submit_dag_sync :
    Option (Status × SubmitDagResponse) → ClientError ⊎ SubmitDagResponse
submit_dag_sync none =
    inl (grpc_error (failed unavailable "channel not created / connection refused"))
submit_dag_sync (some r) = answered r

pub data Step : Type 0 where
  launch : Step
  finish : Step

-- A tag, with what its promise holds, the calls of the callback, and the calls of Finish on its reader.
pub record Tag : Type 0 where
  pub step : Step
  pub status : Status
  pub response : SubmitDagResponse
  pub promise : Option (Status ⊎ SubmitDagResponse)
  pub callbacks : List (SubmitDagResponse × Status)
  pub finish_calls : ℕ
  pub deleted : Bool

-- The two writes of SetResult: the promise and the callback.
abbrev pub publish : Status ⊎ SubmitDagResponse → SubmitDagResponse → Status → Tag → Tag
publish outcome resp status t = record t {
  status = status;
  promise = some outcome;
  callbacks = t.callbacks ++ (resp, status) ∷ [];
}

abbrev pub published : Status → Option String → Tag → Tag
published (failed code msg) error t =
    publish (inl (failed code msg)) empty_response (failed code msg) t
published ok_status none t = publish (inr t.response) t.response ok_status t
published ok_status (some msg) t =
    let status = failed failed_precondition ("BizError: " <> msg) in
    publish (inl status) t.response status t

abbrev pub once : Option (Status ⊎ SubmitDagResponse) → Tag → Tag
once none t = published t.status t.response.error t
once (some _) t = t

-- SetResult, which call_once lets in once.
unfoldable pub set_result : Tag → Tag
set_result t = once t.promise t

abbrev pub and_delete : Tag → Tag
and_delete t = record t { deleted = true }

abbrev pub at_step : Step → Bool → Tag → Tag
at_step launch false t =
    and_delete (set_result (record t { status = failed internal "Failed to start RPC call" }))
at_step launch true t = record t { step = finish; finish_calls = suc t.finish_calls }
at_step finish false t =
    and_delete
      (set_result (record t { status = failed internal "RPC finished with !ok (CQ shutdown?)" }))
at_step finish true t = and_delete (set_result t)

-- ProceedImpl on an event: its flag, and what Finish has written to status and response.
unfoldable pub proceed_impl : Bool → Status → SubmitDagResponse → Tag → Tag
proceed_impl ok state response t =
    at_step t.step ok (record t { status = state; response = response })

-- The tag of submit_dag_async when it returns: StartCall and Finish have been called.
abbrev pub new_tag : Tag
new_tag = record {
  step = launch;
  status = ok_status;
  response = empty_response;
  promise = none;
  callbacks = [];
  finish_calls = 1;
  deleted = false;
}

-- submit_dag_async, where the stub is there and where it is null: then nothing is started.
unfoldable pub submit_dag_async : Bool → Tag
submit_dag_async true = new_tag
submit_dag_async false = record new_tag {
  promise = some (inl (failed unavailable "stub_ is null"));
  callbacks = (empty_response, failed unavailable "stub_ null") ∷ [];
  finish_calls = 0;
  deleted = true;
}

-- The completions of a tag, each with its flag and with what Finish has written; a tag that has been
-- deleted gets no more.
unfoldable pub complete_rpc : List (Bool × Status × SubmitDagResponse) → Tag → Tag
complete_rpc [] t = t
complete_rpc ((ok, state, response) ∷ es) t =
    let next = complete_rpc es (proceed_impl ok state response t) in if t.deleted then t else next
