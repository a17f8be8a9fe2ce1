-- ===== src/ApiServer/Serving.antt =====
-- The contexts of the RPC layer are renewed, and every response is that of its handler.
use distributed_task_system.Common.{
  ℕ, zero, suc, >>=-eq-some, eq_of_some-eq-some, ◌≡◌, refl, ap, subst, ◌∙◌, true, Option, none,
  some, List, [], ◌∷◌, arith, get_elem?, All, All-append,
}
use distributed_task_system.ApiServer.{
  RpcResponse, CallStatus, create, finish, Event, Calls, proceed, replace, dispatch,
  drive_completion_queue, new_contexts,
}
use distributed_task_system.ThreadPool.Counts.{total, total-append}

-- The contexts that wait for a request.
abbrev pub is_waiting : CallStatus → ℕ
is_waiting create = 1
is_waiting finish = 0

abbrev pub waiting : List CallStatus → ℕ
waiting cs = total is_waiting cs

pub waiting-new_contexts : (n : ℕ) → waiting (new_contexts n) ≡ n
waiting-new_contexts zero = refl
waiting-new_contexts (suc n) = omega (arith, waiting-new_contexts n)

waiting-replace :
    (i : ℕ) (new cs : List CallStatus) (c : CallStatus)
    → get_elem? cs i ≡ some c
    → waiting new ≡ is_waiting c
    → waiting (replace i new cs) ≡ waiting cs
waiting-replace i new [] c h e = refl
waiting-replace zero new (d ∷ cs) c h e =
    omega (arith, total-append is_waiting new cs, ap is_waiting (eq_of_some-eq-some d c h), e)
waiting-replace (suc i) new (d ∷ cs) c h e = omega (arith, waiting-replace i new cs c h e)

module _ {Req Body : Type 0} (proceed_ : Req → RpcResponse Body)
    (P : RpcResponse Body → Type 0) where
  -- As many contexts wait, and all responses have the property.
  pub record Serves (n : ℕ) (s : Calls Body) : Type 0 where
    pub free : waiting s.contexts ≡ n
    pub fair : All P s.responses

  module _ (each : (request : Req) → P (proceed_ request)) where
    proceed-waiting :
        (request : Req) (c : CallStatus)
        → waiting (proceed proceed_ true request c).0 ≡ is_waiting c
    unfolding proceed
    proceed-waiting request create = refl
    proceed-waiting request finish = refl

    proceed_fair : (request : Req) (c : CallStatus) → All P (proceed proceed_ true request c).1
    unfolding proceed
    proceed_fair request create = (each request, tt)
    proceed_fair request finish = tt

    pub dispatch-Serves :
        (n : ℕ) (e : Event Req) (c : Option CallStatus) (s t : Calls Body)
        → get_elem? s.contexts e.tag ≡ c
        → e.ok ≡ true
        → dispatch proceed_ e c s ≡ some t
        → Serves n s
        → Serves n t
    dispatch-Serves n e none s t at ok h inv = cc
    dispatch-Serves n e (some c) s t at ok h inv =
        subst (Serves n) (eq_of_some-eq-some _ t h) (record {
          free =
              waiting-replace e.tag _ s.contexts c at (rw ok (proceed-waiting e.request c))
              ∙ inv.free;
          fair = All-append P s.responses _ inv.fair (rw ok (proceed_fair e.request c));
        })

    drive-Serves :
        (n : ℕ) (es : List (Event Req)) (s t : Calls Body)
        → All (λ e. e.ok ≡ true) es
        → drive_completion_queue proceed_ es s ≡ some t
        → Serves n s
        → Serves n t
    unfolding drive_completion_queue
    drive-Serves n [] s t ok h inv = subst (Serves n) (eq_of_some-eq-some s t h) inv
    drive-Serves n (e ∷ es) s t ok h inv =
        let (u, one, more) = >>=-eq-some (dispatch proceed_ e (get_elem? s.contexts e.tag) s) _ h in
        drive-Serves n es u t ok.1 more (dispatch-Serves n e _ s u refl ok.0 one inv)

    -- While the queue reports no failure, a server that was started with n contexts has n that wait for
    -- a request after any events, and its responses have every property that the business callback
    -- gives to the response of each request.
    pub drive_keeps_waiting :
        (n : ℕ) (es : List (Event Req)) (t : Calls Body)
        → All (λ e. e.ok ≡ true) es
        → drive_completion_queue proceed_ es (record { contexts = new_contexts n; responses = [] })
          ≡ some t
        → (waiting t.contexts ≡ n) × All P t.responses
    drive_keeps_waiting n es t ok h =
        let inv =
          drive-Serves n es _ t ok h (record { free = waiting-new_contexts n; fair = tt }) in
        (inv.free, inv.fair)
