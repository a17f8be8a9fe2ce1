-- ===== src/ApiWeb/Waiting/Answered.antt =====
-- Every call that api-web makes is answered once.
use distributed_task_system.Common.{
  ℕ, zero, suc, eq_of_some-eq-some, ◌+◌, ◌<◌, ◌≡◌, refl, sym, ap, subst, ◌∙◌, ◌⊎◌, inl, inr, Bool,
  true, false, some, List, [], ◌∷◌, ◌++◌, arith, if◌then◌else◌, Bool-cases, length, get_elem?, All,
  All-append, count,
}
use distributed_task_system.ApiWeb.{await_resume}
use distributed_task_system.ApiWeb.Waiting.{
  rpc_end, at_co_await, at_end, Call, resume, await_suspend, new_call, after_close, Report,
  proceed_awaiter, Client, submit_dag_co, Next, got_event, queue_shutdown, timeout, on_tag, on_next,
  complete_turn, close_client, Owes, Moves, submits, turns, closes, Reaches, at_start, then_moves,
  HandsOut, no_more, hands_out, future_get,
}

-- A call whose tag the queue has yet to hand out is suspended and has told nobody.
pub record IsWaiting (c : Call) : Type 0 where
  pub is_owed : c.owed ≡ true
  pub is_suspended : c.coroutine ≡ at_co_await
  pub is_untold : c.promise ≡ []

-- A call that has ended has told its status and response, once.
pub record IsAnswered (c : Call) : Type 0 where
  pub is_settled : c.owed ≡ false
  pub is_ended : c.coroutine ≡ at_end
  pub is_told : c.promise ≡ await_resume (rpc_end c.status c.response) ∷ []

abbrev pub IsCall : Call → Type 0
IsCall c = IsWaiting c ⊎ IsAnswered c

resume-IsAnswered : (c : Call) → c.owed ≡ false → c.promise ≡ [] → IsAnswered (resume c)
unfolding resume
resume-IsAnswered c o p = record {
  is_settled = o;
  is_ended = refl;
  is_told = ap (λ r. r ++ await_resume (rpc_end c.status c.response) ∷ []) p;
}

await_suspend-IsCall : (has_reader : Bool) → IsCall (await_suspend has_reader new_call)
unfolding await_suspend
await_suspend-IsCall false = inr (resume-IsAnswered _ refl refl)
await_suspend-IsCall true = inl (record { is_owed = refl; is_suspended = refl; is_untold = refl })

owed-IsWaiting : (c : Call) → IsCall c → c.owed ≡ true → IsWaiting c
owed-IsWaiting c (inl w) o = w
owed-IsWaiting c (inr a) o = cc (a.is_settled, o)

proceed_awaiter-IsAnswered :
    (e : Report) (c : Call) → IsWaiting c → IsAnswered (proceed_awaiter e c)
unfolding proceed_awaiter
proceed_awaiter-IsAnswered e c w = resume-IsAnswered _ refl w.is_untold

-- The number of tags that the queue has yet to hand out.
abbrev pub owed_tags : List Call → ℕ
owed_tags [] = 0
owed_tags (c ∷ cs) = if c.owed then suc (owed_tags cs) else owed_tags cs

on_tag-IsCall :
    (i : ℕ) (e : Report) (c : Call) (cs : List Call)
    → get_elem? cs i ≡ some c
    → c.owed ≡ true
    → All IsCall cs
    → All IsCall (on_tag i e cs) × (suc (owed_tags (on_tag i e cs)) ≡ owed_tags cs)
unfolding on_tag
on_tag-IsCall i e c [] at o h = cc
on_tag-IsCall zero e c (d ∷ cs) at o h =
    let is = eq_of_some-eq-some d c at in
    let a =
      proceed_awaiter-IsAnswered e d (owed-IsWaiting d h.0 (ap (λ (x : Call). x.owed) is ∙ o)) in
    ((inr a, h.1), rw a.is_settled (rw (ap (λ (x : Call). x.owed) is ∙ o) refl))
on_tag-IsCall (suc i) e c (d ∷ cs) at o h =
    let r = on_tag-IsCall i e c cs at o h.1 in
    (
      (h.0, r.0),
      elim (Bool-cases d.owed) [
        | inl on ↦ ground (arith, on, r.1)
        | inr off ↦ ground (arith, off, r.1)
      ],
    )

on_tag_answer :
    (i : ℕ) (e : Report) (c : Call) (cs : List Call)
    → get_elem? cs i ≡ some c
    → get_elem? (on_tag i e cs) i ≡ some (proceed_awaiter e c)
unfolding on_tag
on_tag_answer i e c [] at = cc
on_tag_answer zero e c (d ∷ cs) at =
    ap (λ x. some (proceed_awaiter e x)) (eq_of_some-eq-some d c at)
on_tag_answer (suc i) e c (d ∷ cs) at = on_tag_answer i e c cs at

turn_open : (next : Next) (g : Client) → g.shutdown ≡ false → complete_turn next g ≡ on_next next g
unfolding complete_turn
turn_open next g live = rw live refl

turn_on :
    (next : Next) (g h : Client)
    → complete_turn next g ≡ some h
    → (g.shutdown ≡ false) × (on_next next g ≡ some h)
unfolding complete_turn
turn_on next g h eq = elim (Bool-cases g.shutdown) [
  | inl on ↦ ground (arith, on)
  | inr off ↦ (off, ground (arith, off))
]

event_turn :
    (i : ℕ) (e : Report) (g h : Client)
    → complete_turn (got_event i e) g ≡ some h
    → (g.shutdown ≡ false) × (record g { calls = on_tag i e g.calls } ≡ h)
event_turn i e g h eq = let r = turn_on (got_event i e) g h eq in (r.0, eq_of_some-eq-some _ h r.1)

turn-IsCall :
    (next : Next) (g h : Client)
    → Owes g next
    → on_next next g ≡ some h
    → All IsCall g.calls
    → All IsCall h.calls
turn-IsCall (got_event i e) g h (c, at, o) eq k =
    subst (λ (x : Client). All IsCall x.calls) (eq_of_some-eq-some _ h eq)
      (on_tag-IsCall i e c g.calls at o k).0
turn-IsCall queue_shutdown g h u eq k = cc
turn-IsCall timeout g h u eq k =
    subst (λ (x : Client). All IsCall x.calls) (eq_of_some-eq-some g h eq) k

Moves-IsCall : (g h : Client) → Moves g h → All IsCall g.calls → All IsCall h.calls
unfolding submit_dag_co close_client
Moves-IsCall g h (submits has_reader _) k =
    All-append IsCall g.calls _ k (await_suspend-IsCall has_reader, tt)
Moves-IsCall g h (turns next _ _ o eq) k = turn-IsCall next g h o (turn_on next g h eq).1 k
Moves-IsCall g h (closes _) k = k

Reaches-IsCall : (g : Client) → Reaches g → All IsCall g.calls
Reaches-IsCall g at_start = tt
Reaches-IsCall g (then_moves f _ r m) = Moves-IsCall f g m (Reaches-IsCall f r)

handed :
    (g : Client) (es : List (ℕ × Report)) (h : Client)
    → HandsOut g es h
    → All IsCall g.calls
    → All IsCall h.calls
      × (length es + owed_tags h.calls ≡ owed_tags g.calls)
      × (h.shutdown ≡ g.shutdown)
handed g es h (no_more _) k = (k, omega arith, refl)
handed g es h (hands_out i e rest _ m _ (c, at, o) eq r) k =
    let on = on_tag-IsCall i e c g.calls at o k in
    let is = (event_turn i e g m eq).1 in
    let next = handed m rest h r (subst (λ (x : Client). All IsCall x.calls) is on.0) in
    (
      next.0,
      omega (arith, next.1, on.1, ap (λ (x : Client). owed_tags x.calls) is),
      next.2 ∙ sym (ap (λ (x : Client). x.shutdown) is),
    )

none_owed : (cs : List Call) → All IsCall cs → owed_tags cs ≡ 0 → All IsAnswered cs
none_owed [] h z = tt
none_owed (c ∷ cs) (inl w, h) z = absurd (ground (arith, w.is_owed, z))
none_owed (c ∷ cs) (inr a, h) z = (a, none_owed cs h (ground (arith, a.is_settled, z)))

some_owed :
    (cs : List Call)
    → 0 < owed_tags cs
    → (i : ℕ) × (c : Call) × (get_elem? cs i ≡ some c) × (c.owed ≡ true)
some_owed [] l = absurd (omega (arith, l))
some_owed (c ∷ cs) l = elim (Bool-cases c.owed) [
  | inl on ↦ (0, c, refl, on)
  | inr off ↦ let (i, d, at, o) = some_owed cs (ground (arith, off, l)) in (suc i, d, at, o)
]

-- What the queue can do next: hand out a tag, whose call is then answered with what came with it.
abbrev pub GoesOn : Client → Type 0
GoesOn h =
    (i : ℕ) × ((e : Report)
      → (k : Client) × (d : Call) × HandsOut h ((i, e) ∷ []) k
        × (get_elem? k.calls i ≡ some d)
        × (future_get d.promise
            ≡ some (await_resume (rpc_end (after_close e.ok e.status) e.response))))

call_at : (i : ℕ) (c : Call) (cs : List Call) → get_elem? cs i ≡ some c → All IsCall cs → IsCall c
call_at i c [] at h = cc
call_at zero c (d ∷ cs) at h = subst IsCall (eq_of_some-eq-some d c at) h.0
call_at (suc i) c (d ∷ cs) at h = call_at i c cs at h.1

one_more : (h : Client) → All IsCall h.calls → h.shutdown ≡ false → 0 < owed_tags h.calls → GoesOn h
unfolding proceed_awaiter resume
one_more h k live l =
    let (i, c, at, o) = some_owed h.calls l in
    (
      i,
      λ e. (
        record h { calls = on_tag i e h.calls },
        proceed_awaiter e c,
        hands_out i e [] h _ _ (c, at, o) (turn_open (got_event i e) h live) (no_more _),
        on_tag_answer i e c h.calls at,
        ap future_get
            (proceed_awaiter-IsAnswered e c
              (owed-IsWaiting c (call_at i c h.calls at k) o)).is_told,
      ),
    )

-- Whatever calls a client has made and however their tags have come so far: as long as it is not
-- closed, after any tags that the queue hands out each call either is suspended, with the queue owing
-- its tag and its promise not set, or has ended with its promise set once, to what await_resume makes
-- of its status and response. When as many tags have come as were owed, all have ended; before that,
-- the queue still owes a tag, and the promise of its call becomes what await_resume makes of what comes.
pub calls_end :
    (g h : Client) (es : List (ℕ × Report))
    → Reaches g
    → g.shutdown ≡ false
    → HandsOut g es h
    → All IsCall h.calls
      × (length es ≡ owed_tags g.calls → All IsAnswered h.calls)
      × (length es < owed_tags g.calls → GoesOn h)
calls_end g h es r live run =
    let (k, count, same) = handed g es h run (Reaches-IsCall g r) in
    (
      k,
      λ every. none_owed h.calls k (omega (arith, every, count)),
      λ less. one_more h k (same ∙ live) (omega (arith, less, count)),
    )
