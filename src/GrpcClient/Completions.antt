-- ===== src/GrpcClient/Completions.antt =====
-- What becomes of a call of submit_dag_async.
use distributed_task_system.Common.{
  String, ◌≡◌, refl, ap, ◌⊎◌, inl, inr, Bool, true, false, Option, none, some, List, [], ◌∷◌, ◌++◌,
  arith, if◌then◌else◌, is_some, length, length-append,
}
use distributed_task_system.GrpcClient.{
  internal, Status, ok_status, failed, SubmitDagResponse, Step, launch, finish, Tag, published,
  once, set_result, at_step, proceed_impl, new_tag, submit_dag_async, complete_rpc,
}

-- The first good event of a call finds it unfinished: the promise is not set, and Finish is called again.
pub first_event_finishes_again :
    (state : Status) (response : SubmitDagResponse)
    → let t = proceed_impl true state response new_tag in
      (t.promise ≡ none) × (t.finish_calls ≡ 2) × (t.deleted ≡ false)
unfolding proceed_impl
first_event_finishes_again state response = (refl, refl, refl)

one_callback :
    (t : Tag) (c : SubmitDagResponse × Status)
    → t.callbacks ≡ []
    → length (t.callbacks ++ c ∷ []) ≡ 1
one_callback t c h = omega (arith, length-append t.callbacks (c ∷ []), ap length h)

published_once :
    (state : Status) (error : Option String) (t : Tag)
    → t.callbacks ≡ []
    → (is_some (published state error t).promise ≡ true)
      × (length (published state error t).callbacks ≡ 1)
published_once (failed code msg) error t h = (refl, one_callback t _ h)
published_once ok_status none t h = (refl, one_callback t _ h)
published_once ok_status (some msg) t h = (refl, one_callback t _ h)

set_result_once :
    (t : Tag)
    → t.promise ≡ none
    → t.callbacks ≡ []
    → (is_some (set_result t).promise ≡ true) × (length (set_result t).callbacks ≡ 1)
unfolding set_result
set_result_once t p c = from t.promise p
  where
    from :
        (r : Option (Status ⊎ SubmitDagResponse))
        → r ≡ none
        → (is_some (once r t).promise ≡ true) × (length (once r t).callbacks ≡ 1)
    from none e = published_once t.status t.response.error t c
    from (some r) e = cc

-- A tag that has not been deleted has told nobody; one that has been has told once.
abbrev pub IsSettled : Tag → Type 0
IsSettled t =
    ((t.deleted ≡ false) × (t.promise ≡ none) × (t.callbacks ≡ []))
    ⊎ ((t.deleted ≡ true) × (is_some t.promise ≡ true) × (length t.callbacks ≡ 1))

at_step-IsSettled :
    (step : Step) (ok : Bool) (t : Tag)
    → t.deleted ≡ false
    → t.promise ≡ none
    → t.callbacks ≡ []
    → IsSettled (at_step step ok t)
at_step-IsSettled launch true t d p c = inl (d, p, c)
at_step-IsSettled launch false t d p c =
    let r =
      set_result_once (record t { status = failed internal "Failed to start RPC call" }) p c in
    inr (refl, r.0, r.1)
at_step-IsSettled finish true t d p c = let r = set_result_once t p c in inr (refl, r.0, r.1)
at_step-IsSettled finish false t d p c =
    let r =
      set_result_once (record t { status = failed internal "RPC finished with !ok (CQ shutdown?)" })
        p c in
    inr (refl, r.0, r.1)

either-IsSettled :
    (b : Bool) (t u : Tag)
    → IsSettled t
    → (b ≡ false → IsSettled u)
    → IsSettled (if b then t else u)
either-IsSettled true t u h next = h
either-IsSettled false t u h next = next refl

untold : (t : Tag) → IsSettled t → t.deleted ≡ false → (t.promise ≡ none) × (t.callbacks ≡ [])
untold t (inl h) d = (h.1, h.2)
untold t (inr h) d = cc (h.0, d)

complete_rpc_lem :
    (es : List (Bool × Status × SubmitDagResponse)) (t : Tag)
    → IsSettled t
    → IsSettled (complete_rpc es t)
unfolding complete_rpc proceed_impl
complete_rpc_lem [] t h = h
complete_rpc_lem ((ok, state, response) ∷ es) t h = either-IsSettled t.deleted t _ h (λ d.
    let u = untold t h d in
    complete_rpc_lem es _
      (at_step-IsSettled t.step ok (record t { status = state; response = response }) d u.0 u.1))

submit_dag_async-untold : (has_stub : Bool) → IsSettled (submit_dag_async has_stub)
unfolding submit_dag_async
submit_dag_async-untold true = inl (refl, refl, refl)
submit_dag_async-untold false = inr (refl, refl, refl)

-- Whatever completions a call of submit_dag_async gets, and also where there is no stub: once its tag
-- has been deleted, or is never used, its promise is set and its callback has been called once, and
-- before that neither has happened.
pub submit_dag_async-IsSettled :
    (has_stub : Bool) (es : List (Bool × Status × SubmitDagResponse))
    → IsSettled (complete_rpc es (submit_dag_async has_stub))
submit_dag_async-IsSettled has_stub es =
    complete_rpc_lem es (submit_dag_async has_stub) (submit_dag_async-untold has_stub)
