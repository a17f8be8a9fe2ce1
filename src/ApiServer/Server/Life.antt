-- ===== src/ApiServer/Server/Life.antt =====
-- A queue of AsyncServer from its first contexts to its last.
use distributed_task_system.Common.{
  ℕ, zero, suc, >>=-eq-some, eq_of_some-eq-some, ◌+◌, ◌*◌, ◌≡◌, refl, ap, subst, ◌∙◌, Bool, true,
  false, Option, none, some, List, [], ◌∷◌, ◌++◌, arith, length, get_elem?, length-append, All,
  All-append,
}
use mathlib.Core.List.{append-nil}
use distributed_task_system.ApiServer.{
  RpcResponse, CallStatus, create, finish, Event, Calls, proceed, replace, dispatch,
}
use distributed_task_system.ApiServer.Serving.{waiting, waiting-new_contexts, dispatch-Serves}
use distributed_task_system.ApiServer.Server.Sharing.{fresh}
use distributed_task_system.ApiServer.Server.{
  Handlers, ServerQueue, ServerEvent, submit_event, status_event, on_submit_dag, on_get_job_status,
  on_event, drive_queue,
}

length-replace :
    (i : ℕ) (new cs : List CallStatus) (c : CallStatus)
    → get_elem? cs i ≡ some c
    → suc (length (replace i new cs)) ≡ length cs + length new
length-replace i new [] c h = cc
length-replace zero new (d ∷ cs) c h = omega (arith, length-append new cs)
length-replace (suc i) new (d ∷ cs) c h = omega (arith, length-replace i new cs c h)

-- What an event makes of the contexts and the responses of a call: it takes one context away, but for
-- a request, which adds one and is answered; and where its flag is false nobody is answered.
record Counted {Body : Type 0} (P : RpcResponse Body → Type 0) (ok : Bool) (s t : Calls Body)
    : Type 0 where
  balance :
      suc (length t.contexts) + 2 * length s.responses ≡ length s.contexts + 2 * length t.responses
  fair : All P s.responses → All P t.responses
  silent : ok ≡ false → t.responses ≡ s.responses

module _ {Req Body : Type 0} (proceed_ : Req → RpcResponse Body) (P : RpcResponse Body → Type 0)
    (each : (request : Req) → P (proceed_ request)) where
  -- The contexts that take the place of one, and the responses.
  record Replaced (ok : Bool) (new : List CallStatus) (sent : List (RpcResponse Body))
      : Type 0 where
    twice : length new ≡ 2 * length sent
    fine : All P sent
    quiet : ok ≡ false → sent ≡ []

  proceed-Replaced :
      (ok : Bool) (request : Req) (c : CallStatus)
      → let (new, sent) = proceed proceed_ ok request c in Replaced ok new sent
  unfolding proceed
  proceed-Replaced false request c = record { twice = refl; fine = tt; quiet = λ e. refl }
  proceed-Replaced true request create = record {
    twice = refl;
    fine = (each request, tt);
    quiet = λ e. cc e;
  }
  proceed-Replaced true request finish = record { twice = refl; fine = tt; quiet = λ e. refl }

  dispatch-Counted :
      (e : Event Req) (c : Option CallStatus) (s t : Calls Body)
      → get_elem? s.contexts e.tag ≡ c
      → dispatch proceed_ e c s ≡ some t
      → Counted P e.ok s t
  dispatch-Counted e none s t at h = cc
  dispatch-Counted e (some c) s t at h =
      let (new, sent) = proceed proceed_ e.ok e.request c in
      let r = proceed-Replaced e.ok e.request c in
      subst (Counted P e.ok s) (eq_of_some-eq-some _ t h) (record {
        balance = omega (
          arith,
          length-replace e.tag new s.contexts c at,
          length-append s.responses sent,
          r.twice,
        );
        fair = λ all. All-append P s.responses sent all r.fine;
        silent = λ off. ap (λ l. s.responses ++ l) (r.quiet off) ∙ append-nil s.responses;
      })

-- The contexts of a queue, of both calls, and the responses that were given to gRPC.
abbrev pub contexts_of : {S Q : Type 0} → ServerQueue S Q → ℕ
contexts_of q = length q.submits.contexts + length q.queries.contexts

abbrev pub answers_of : {S Q : Type 0} → ServerQueue S Q → ℕ
answers_of q = length q.submits.responses + length q.queries.responses

abbrev pub flag_of : {Req Stat : Type 0} → ServerEvent Req Stat → Bool
flag_of (submit_event e) = e.ok
flag_of (status_event e) = e.ok

module _ {Req S Stat Q : Type 0} (handlers : Handlers Req S Stat Q) where
  module _ (P : RpcResponse S → Type 0) (R : RpcResponse Q → Type 0)
      (each_submit : (request : Req) → P (on_submit_dag handlers request))
      (each_query : (request : Stat) → R (on_get_job_status handlers request)) where
    -- As many contexts of each call wait, and all responses have the properties.
    pub record IsServing (n : ℕ) (q : ServerQueue S Q) : Type 0 where
      pub submits_fine : (waiting q.submits.contexts ≡ n) × All P q.submits.responses
      pub queries_fine : (waiting q.queries.contexts ≡ n) × All R q.queries.responses

    on_event-IsServing :
        (n : ℕ) (e : ServerEvent Req Stat) (q r : ServerQueue S Q)
        → flag_of e ≡ true
        → on_event handlers e q ≡ some r
        → IsServing n q
        → IsServing n r
    on_event-IsServing n (submit_event e) q r ok h inv =
        let (s, one, more) =
          >>=-eq-some
            (dispatch (on_submit_dag handlers) e (get_elem? q.submits.contexts e.tag) q.submits) _
            h in
        let k =
          dispatch-Serves (on_submit_dag handlers) P each_submit n e _ q.submits s refl ok one
            (record { free = inv.submits_fine.0; fair = inv.submits_fine.1 }) in
        subst (IsServing n) (eq_of_some-eq-some _ r more)
          (record { submits_fine = (k.free, k.fair); queries_fine = inv.queries_fine })
    on_event-IsServing n (status_event e) q r ok h inv =
        let (s, one, more) =
          >>=-eq-some
            (dispatch (on_get_job_status handlers) e (get_elem? q.queries.contexts e.tag) q.queries)
            _ h in
        let k =
          dispatch-Serves (on_get_job_status handlers) R each_query n e _ q.queries s refl ok one
            (record { free = inv.queries_fine.0; fair = inv.queries_fine.1 }) in
        subst (IsServing n) (eq_of_some-eq-some _ r more)
          (record { submits_fine = inv.submits_fine; queries_fine = (k.free, k.fair) })

    drive_queue-IsServing :
        (n : ℕ) (es : List (ServerEvent Req Stat)) (q r : ServerQueue S Q)
        → All (λ e. flag_of e ≡ true) es
        → drive_queue handlers es q ≡ some r
        → IsServing n q
        → IsServing n r
    unfolding drive_queue
    drive_queue-IsServing n [] q r ok h inv = subst (IsServing n) (eq_of_some-eq-some q r h) inv
    drive_queue-IsServing n (e ∷ es) q r ok h inv =
        let (u, one, more) = >>=-eq-some (on_event handlers e q) _ h in
        drive_queue-IsServing n es u r ok.1 more (on_event-IsServing n e q u ok.0 one inv)

    abbrev pub AllFine : ServerQueue S Q → Type 0
    AllFine q = All P q.submits.responses × All R q.queries.responses

    -- What any events make of a queue: each takes a context away, but for the requests, which add one
    -- and are answered as they should be; and events with the flag false answer nobody.
    pub record IsCounted (es : List (ServerEvent Req Stat)) (q t : ServerQueue S Q) : Type 0 where
      pub balance : contexts_of t + length es + 2 * answers_of q ≡ contexts_of q + 2 * answers_of t
      pub fair : AllFine q → AllFine t
      pub silent :
          All (λ e. flag_of e ≡ false) es
          → (t.submits.responses ≡ q.submits.responses)
            × (t.queries.responses ≡ q.queries.responses)

    on_event-IsCounted :
        (e : ServerEvent Req Stat) (q r : ServerQueue S Q)
        → on_event handlers e q ≡ some r
        → IsCounted (e ∷ []) q r
    on_event-IsCounted (submit_event e) q r h =
        let (s, one, more) =
          >>=-eq-some
            (dispatch (on_submit_dag handlers) e (get_elem? q.submits.contexts e.tag) q.submits) _
            h in
        let c = dispatch-Counted (on_submit_dag handlers) P each_submit e _ q.submits s refl one in
        subst (IsCounted (submit_event e ∷ []) q) (eq_of_some-eq-some _ r more) (record {
          balance = omega (arith, c.balance);
          fair = λ f. (c.fair f.0, f.1);
          silent = λ off. (c.silent off.0, refl);
        })
    on_event-IsCounted (status_event e) q r h =
        let (s, one, more) =
          >>=-eq-some
            (dispatch (on_get_job_status handlers) e (get_elem? q.queries.contexts e.tag) q.queries)
            _ h in
        let c =
          dispatch-Counted (on_get_job_status handlers) R each_query e _ q.queries s refl one in
        subst (IsCounted (status_event e ∷ []) q) (eq_of_some-eq-some _ r more) (record {
          balance = omega (arith, c.balance);
          fair = λ f. (f.0, c.fair f.1);
          silent = λ off. (refl, c.silent off.0);
        })

    drive_queue-IsCounted :
        (es : List (ServerEvent Req Stat)) (q t : ServerQueue S Q)
        → drive_queue handlers es q ≡ some t
        → IsCounted es q t
    unfolding drive_queue
    drive_queue-IsCounted [] q t h =
        subst (IsCounted [] q) (eq_of_some-eq-some q t h)
          (record { balance = omega arith; fair = λ f. f; silent = λ off. (refl, refl) })
    drive_queue-IsCounted (e ∷ es) q t h =
        let (r, one, more) = >>=-eq-some (on_event handlers e q) _ h in
        let a = on_event-IsCounted e q r one in
        let b = drive_queue-IsCounted es r t more in
        record {
          balance = omega (arith, a.balance, b.balance);
          fair = λ f. b.fair (a.fair f);
          silent = λ off.
              let x = a.silent (off.0, tt) in let y = b.silent off.1 in (y.0 ∙ x.0, y.1 ∙ x.1);
        }

    -- A queue that starts with n contexts of each call. While the events are good, n contexts of each
    -- call wait for a request, and the responses have every property that SafeExecute gives to the
    -- response of each request. After that, whatever else is handed out until the thread ends, a
    -- request that came before the shutdown included: an event takes one context away, but for a
    -- request, which is answered and adds one; all responses still have these properties; and if
    -- every flag is false nobody is answered.
    pub queue_life :
        (n : ℕ) (es closing : List (ServerEvent Req Stat)) (q t : ServerQueue S Q)
        → All (λ e. flag_of e ≡ true) es
        → drive_queue handlers es (fresh n) ≡ some q
        → drive_queue handlers closing q ≡ some t
        → IsServing n q × IsCounted closing q t × AllFine t
    queue_life n es closing q t ok h ends =
        let serving = drive_queue-IsServing n es (fresh n) q ok h (record {
          submits_fine = (waiting-new_contexts n, tt);
          queries_fine = (waiting-new_contexts n, tt);
        }) in
        let counted = drive_queue-IsCounted closing q t ends in
        (serving, counted, counted.fair (serving.submits_fine.1, serving.queries_fine.1))
