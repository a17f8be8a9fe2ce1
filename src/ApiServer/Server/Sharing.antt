-- ===== src/ApiServer/Server/Sharing.antt =====
-- How Run shares the contexts among the queues of AsyncServer.
use distributed_task_system.Common.{
  ℕ, zero, suc, eq_of_some-eq-some, ◌+◌, ◌*◌, ◌%◌, ◌≤◌, ◌<◌, ◌≡◌, refl, ap, subst, ◌∙◌, true,
  Option, some, List, [], ◌∷◌, ◌++◌, arith, get_or, is_some, get_elem?,
}
use distributed_task_system.Turns.{hit, Spread, Spread-none, Spread-before}
use native.Mathlib.Nat.{zero-mod}
use distributed_task_system.ApiServer.{create, new_contexts}
use distributed_task_system.ApiServer.Server.{
  Handlers, ServerQueue, add_contexts, create_contexts, new_queues, run,
}

-- A queue with n contexts of each call, which wait for a request.
abbrev pub fresh : {S Q : Type 0} → ℕ → ServerQueue S Q
fresh n = record {
  submits = record { contexts = new_contexts n; responses = [] };
  queries = record { contexts = new_contexts n; responses = [] };
}

one_more : (n : ℕ) → new_contexts n ++ create ∷ [] ≡ new_contexts (suc n)
one_more zero = refl
one_more (suc n) = ap (λ cs. create ∷ cs) (one_more n)

fresh_more :
    {S Q : Type 0} (n : ℕ) (q : ServerQueue S Q)
    → q ≡ fresh n
    → (qs : List (ServerQueue S Q)) → add_contexts 0 (q ∷ qs) ≡ fresh (suc n) ∷ qs
unfolding add_contexts
fresh_more n q e qs = rw (e, one_more n) refl

module _ {S Q : Type 0} where
  same_fresh : (m n : ℕ) → m ≡ n → some (fresh {S = S} {Q = Q} m) ≡ some (fresh n)
  same_fresh m n e = ap (λ k. some (fresh k)) e

  add_contexts_at :
      (i r n : ℕ) (qs : List (ServerQueue S Q))
      → get_elem? qs i ≡ some (fresh n)
      → get_elem? (add_contexts r qs) i ≡ some (fresh (hit i r + n))
  unfolding add_contexts
  add_contexts_at i r n [] h = cc
  add_contexts_at zero zero n (q ∷ qs) h =
      ap (λ l. get_elem? l 0) (fresh_more n q (eq_of_some-eq-some q (fresh n) h) qs)
      ∙ same_fresh (suc n) _ (omega arith)
  add_contexts_at zero (suc r) n (q ∷ qs) h = h ∙ same_fresh n _ (ground arith)
  add_contexts_at (suc i) zero n (q ∷ qs) h = h ∙ same_fresh n _ (ground arith)
  add_contexts_at (suc i) (suc r) n (q ∷ qs) h =
      add_contexts_at i r n qs h ∙ same_fresh _ _ (ground arith)

  new_queues_at :
      (c i : ℕ)
      → i < c
      → get_elem? (new_queues {SubmitBody = S} {StatusBody = Q} c) i ≡ some (fresh 0)
  unfolding new_queues
  new_queues_at zero i l = absurd (omega (arith, l))
  new_queues_at (suc c) zero l = refl
  new_queues_at (suc c) (suc i) l = new_queues_at c i (omega (arith, l))

  -- What places i and j have after the turns from idx on, where they had x and y.
  record Gets (c i j idx x y : ℕ) (qs : List (ServerQueue S Q)) : Type 0 where
    na : ℕ
    nb : ℕ
    for_i : get_elem? qs i ≡ some (fresh (na + x))
    for_j : get_elem? qs j ≡ some (fresh (nb + y))
    spread : Spread i j (idx % suc c) na nb

  create_contexts-Gets :
      (c i j n idx x y : ℕ) (qs : List (ServerQueue S Q))
      → i ≤ j
      → j ≤ c
      → get_elem? qs i ≡ some (fresh x)
      → get_elem? qs j ≡ some (fresh y)
      → Gets c i j idx x y (create_contexts n idx (suc c) qs)
  unfolding create_contexts
  create_contexts-Gets c i j zero idx x y qs le jc h k = record {
    na = 0;
    nb = 0;
    for_i = h ∙ same_fresh _ _ (omega arith);
    for_j = k ∙ same_fresh _ _ (omega arith);
    spread = Spread-none i j _ le;
  }
  create_contexts-Gets c i j (suc n) idx x y qs le jc h k =
      let r = idx % suc c in
      let g =
        create_contexts-Gets c i j n (suc idx) (hit i r + x) (hit j r + y) (add_contexts r qs) le jc
          (add_contexts_at i r x qs h) (add_contexts_at j r y qs k) in
      record {
        na = hit i r + g.na;
        nb = hit j r + g.nb;
        for_i = g.for_i ∙ same_fresh _ _ (omega arith);
        for_j = g.for_j ∙ same_fresh _ _ (omega arith);
        spread = Spread-before c i j (omega (arith, le, jc)) jc le idx g.na g.nb g.spread;
      }

-- Two queues that Run has made: they wait for requests only, and the later one has as many contexts of
-- each call as the earlier one, or one less.
pub record IsShared {S Q : Type 0} (a b : ServerQueue S Q) : Type 0 where
  pub na : ℕ
  pub nb : ℕ
  pub is_a : a ≡ fresh na
  pub is_b : b ≡ fresh nb
  pub at_least : nb ≤ na
  pub at_most : na ≤ suc nb

-- With a handler of SubmitDag and at least one core, Run succeeds, and of two of its queues each has as
-- many contexts of each call as the other, or they differ by one.
pub run-IsShared :
    {SubmitReq S StatusReq Q : Type 0} (handlers : Handlers SubmitReq S StatusReq Q) (c : ℕ)
    (env : Option ℕ) (i j : ℕ)
    → is_some handlers.submit_task ≡ true
    → i ≤ j
    → j ≤ c
    → (qs : List (ServerQueue S Q)) × (a : ServerQueue S Q) × (b : ServerQueue S Q) × (run handlers
          (suc c)
          env
        ≡ some qs)
      × (get_elem? qs i ≡ some a)
      × (get_elem? qs j ≡ some b)
      × IsShared a b
unfolding run
run-IsShared {S = S} {Q = Q} handlers c env i j set le jc =
    let n = get_or env (suc c * 20) in
    let g =
      create_contexts-Gets {S = S} {Q = Q} c i j n 0 0 0 (new_queues (suc c)) le jc
        (new_queues_at (suc c) i (omega (arith, le, jc)))
        (new_queues_at (suc c) j (omega (arith, jc))) in
    let turn = subst (λ r. Spread i j r g.na g.nb) (zero-mod (suc c)) g.spread in
    (
      create_contexts n 0 (suc c) (new_queues (suc c)),
      fresh (g.na + 0),
      fresh (g.nb + 0),
      rw set refl,
      g.for_i,
      g.for_j,
      record {
        na = g.na + 0;
        nb = g.nb + 0;
        is_a = refl;
        is_b = refl;
        at_least = ground (arith, turn.0);
        at_most = ground (arith, turn.1);
      },
    )
