-- ===== src/Tests/Awaiting.antt =====
-- The theorem of `ApiWeb.Waiting` at a client with three calls.
use distributed_task_system.Common.{◌<◌, ◌≡◌, refl, true, false, none, [], ◌∷◌, map, All}
use distributed_task_system.GrpcClient.{ok_status, empty_response}
use distributed_task_system.ApiWeb.{done, raise, runtime_error}
use distributed_task_system.ApiWeb.Waiting.{
  Call, resume, await_suspend, Report, proceed_awaiter, Client, new_client, submit_dag_co, on_tag,
  complete_turn, submits, Reaches, at_start, then_moves, HandsOut, no_more, hands_out,
}
use distributed_task_system.ApiWeb.Waiting.Answered.{
  IsCall, IsAnswered, owed_tags, GoesOn, calls_end,
}

abbrev one_call : Client
one_call = submit_dag_co true new_client

abbrev two_calls : Client
two_calls = submit_dag_co false one_call

abbrev three_calls : Client
three_calls = submit_dag_co true two_calls

abbrev accepts : Report
accepts = record {
  ok = true;
  status = ok_status;
  response = record { error = none; job_id = "j1" };
}

abbrev cut_off : Report
cut_off = record { ok = false; status = ok_status; response = empty_response }

abbrev after_accept : Client
after_accept = record three_calls { calls = on_tag 2 accepts three_calls.calls }

abbrev after_cut : Client
after_cut = record after_accept { calls = on_tag 0 cut_off after_accept.calls }

is_reached : Reaches three_calls
is_reached =
    then_moves _ _ (then_moves _ _ (then_moves _ _ at_start (submits true _)) (submits false _))
      (submits true _)

is_handed : HandsOut three_calls ((2, accepts) ∷ (0, cut_off) ∷ []) after_cut
unfolding submit_dag_co await_suspend complete_turn on_tag proceed_awaiter resume
is_handed =
    hands_out 2 accepts _ _ after_accept _ (_, refl, refl) refl
      (hands_out 0 cut_off [] _ after_cut _ (_, refl, refl) refl (no_more _))

-- The promises of the three calls at the end.
three_promises :
    map (λ (c : Call). c.promise) after_cut.calls
    ≡ (raise runtime_error ∷ []) ∷ (raise runtime_error ∷ []) ∷ (done "j1" ∷ []) ∷ []
unfolding submit_dag_co await_suspend on_tag proceed_awaiter resume
three_promises = refl

calls_end_example :
    All IsCall after_cut.calls
    × (2 ≡ owed_tags three_calls.calls → All IsAnswered after_cut.calls)
    × (2 < owed_tags three_calls.calls → GoesOn after_cut)
unfolding submit_dag_co
calls_end_example =
    calls_end three_calls after_cut ((2, accepts) ∷ (0, cut_off) ∷ []) is_reached refl is_handed
