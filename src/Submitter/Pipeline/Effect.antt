-- ===== src/Submitter/Pipeline/Effect.antt =====
-- What the commands of one job leave in the store.
use distributed_task_system.Common.{
  ◌>>=◌, >>=-eq-some, eq_of_some-eq-some, String, ◌≡◌, refl, subst, ◌∙◌, ◌≢◌, inl, inr, ◌||◌,
  Option, some, List, [], ◌∷◌, ◌++◌, arith, str_eq, eq_iff, eq_refl, if◌then◌else◌, Bool-cases, mem,
}
use distributed_task_system.Redis.{Redis, RedisLaws, SameAt, SameAt-refl, SameAt-trans}
use distributed_task_system.Redis.Keys.{children, children_injective}
use distributed_task_system.Workflow.{Edge, has_edge}
use distributed_task_system.Submitter.{PbTaskEdge, DagCommitContext, uuid_of}
use distributed_task_system.Submitter.Pipeline.{
  Command, sadd, expire, append_edges, run_command, exec,
}

-- The edges by task id.
unfoldable pub resolve_edges : DagCommitContext → List PbTaskEdge → Option (List Edge)
resolve_edges ctx [] = some []
resolve_edges ctx (e ∷ es) = do
  p ← uuid_of ctx e.parent_natural_id
  c ← uuid_of ctx e.child_natural_id
  rest ← resolve_edges ctx es
  some ((p, c) ∷ rest)

module _ (r : Redis) (laws : RedisLaws r) where
  open r use {Store, smembers, hget, exists, entries}

  pub exec-append :
      (xs ys : List Command) (s : Store) → exec r (xs ++ ys) s ≡ exec r ys (exec r xs s)
  unfolding exec
  exec-append [] ys s = refl
  exec-append (x ∷ xs) ys s = exec-append xs ys (run_command r x s)

  -- Phase 1 changes the sets of children only.
  pub record EdgesDone (es : List Edge) (s t : Store) : Type 0 where
    pub sets :
        (p c : String)
        → mem c (smembers t (children p)) ≡ (has_edge es p c || mem c (smembers s (children p)))
    pub others : (j : String) → ((p : String) → children p ≢ j) → SameAt r s t j

  EdgesDone-cons :
      (p c : String) (es : List Edge) (s t : Store)
      → EdgesDone es (r.sadd s (children p) c) t
      → EdgesDone ((p, c) ∷ es) s t
  unfolding has_edge
  EdgesDone-cons p c es s t d = record {
    sets = λ q x. d.sets q x ∙ member q x;
    others = λ j h. SameAt-trans r (laws.sadd_frame s (children p) c j (h p)) (d.others j h);
  }
    where
      member :
          (q x : String)
          → (has_edge es q x || mem x (smembers (r.sadd s (children p) c) (children q)))
            ≡ (has_edge ((p, c) ∷ es) q x || mem x (smembers s (children q)))
      member q x = elim (Bool-cases (str_eq p q)) [
        | inl e ↦
            subst
              (λ z.
                (has_edge es z x || mem x (smembers (r.sadd s (children p) c) (children z)))
                ≡ (has_edge ((p, c) ∷ es) z x || mem x (smembers s (children z))))
              ((eq_iff p q).0 e)
              (ground (arith, laws.mem-sadd s (children p) c x, eq_iff c x, eq_iff x c, eq_refl p))
        | inr e ↦
            rw
              (
                e,
                (laws.sadd_frame s (children p) c (children q)
                    (λ k. cc (e, (eq_iff p q).1 (children_injective p q k)))).same_members,
              )
              refl
      ]

  EdgesDone-expire :
      (k : String) (es : List Edge) (s t : Store) → EdgesDone es (r.expire s k) t → EdgesDone es s t
  EdgesDone-expire k es s t d = record {
    sets = λ p c. rw (← (laws.expire_frame s k (children p)).same_members) (d.sets p c);
    others = λ j h. SameAt-trans r (laws.expire_frame s k j) (d.others j h);
  }

  -- The parents that have had their EXPIRE after one more edge.
  abbrev processed_with : String → List String → List String
  processed_with p processed = if mem p processed then processed else p ∷ processed

  pub resolve_edges-cons :
      (ctx : DagCommitContext) (e : PbTaskEdge) (es : List PbTaskEdge) (p c : String)
      (us : List Edge)
      → uuid_of ctx e.parent_natural_id ≡ some p
      → uuid_of ctx e.child_natural_id ≡ some c
      → resolve_edges ctx es ≡ some us
      → resolve_edges ctx (e ∷ es) ≡ some ((p, c) ∷ us)
  unfolding resolve_edges
  resolve_edges-cons ctx e es p c us ep ec eu = rw (ep, ec, eu) refl

  append_edges-cons :
      (ctx : DagCommitContext) (processed : List String) (e : PbTaskEdge) (es : List PbTaskEdge)
      (p c : String) (rest cs : List Command)
      → uuid_of ctx e.parent_natural_id ≡ some p
      → uuid_of ctx e.child_natural_id ≡ some c
      → append_edges ctx (processed_with p processed) es ≡ some rest
      → append_edges ctx processed (e ∷ es) ≡ some cs
      → sadd (children p) c ∷ (if mem p processed then rest else expire (children p) ∷ rest) ≡ cs
  unfolding append_edges
  append_edges-cons ctx processed e es p c rest cs ep ec er h =
      eq_of_some-eq-some _ cs (rw (ep, ec, er) at h)

  one_edge :
      (p c : String) (processed : List String) (us : List Edge) (rest : List Command) (s : Store)
      → ((t : Store) → EdgesDone us t (exec r rest t))
      → EdgesDone ((p, c) ∷ us) s (
          exec r
            (sadd (children p) c ∷ (if mem p processed then rest else expire (children p) ∷ rest))
            s)
  unfolding exec
  one_edge p c processed us rest s effect = elim (Bool-cases (mem p processed)) [
    | inl seen ↦ rw seen (EdgesDone-cons p c us s _ (effect (r.sadd s (children p) c)))
    | inr new ↦ rw new (
        EdgesDone-cons p c us s _ (
          EdgesDone-expire (children p) us _ _
            (effect (r.expire (r.sadd s (children p) c) (children p)))))
  ]

  pub append_edges_effect :
      (ctx : DagCommitContext) (processed : List String) (es : List PbTaskEdge) (cs : List Command)
      → append_edges ctx processed es ≡ some cs
      → (us : List Edge) × (resolve_edges ctx es ≡ some us)
        × ((s : Store) → EdgesDone us s (exec r cs s))
  unfolding append_edges resolve_edges exec has_edge
  append_edges_effect ctx processed [] cs h = (
    [],
    refl,
    λ s.
        subst (λ l. EdgesDone [] s (exec r l s)) (eq_of_some-eq-some [] cs h)
          (record { sets = λ p c. refl; others = λ j k. SameAt-refl r s j }),
  )
  append_edges_effect ctx processed (e ∷ es) cs h =
      let (p, ep, h1) = >>=-eq-some (uuid_of ctx e.parent_natural_id) _ h in
      let (c, ec, h2) = >>=-eq-some (uuid_of ctx e.child_natural_id) _ h1 in
      let (rest, er, h3) = >>=-eq-some (append_edges ctx (processed_with p processed) es) _ h2 in
      let (us, eu, effect) = append_edges_effect ctx (processed_with p processed) es rest er in
      (
        (p, c) ∷ us,
        resolve_edges-cons ctx e es p c us ep ec eu,
        λ s.
            subst (λ l. EdgesDone ((p, c) ∷ us) s (exec r l s))
              (append_edges-cons ctx processed e es p c rest cs ep ec er h)
              (one_edge p c processed us rest s effect),
      )
