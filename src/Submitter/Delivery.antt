-- ===== src/Submitter/Delivery.antt =====
-- From SubmitDagAsync to the last completion: what becomes of one request.
use distributed_task_system.Common.{
  ℕ, zero, suc, ◌>>=◌, >>=-eq-some, eq_of_some-eq-some, String, ◌≡◌, refl, sym, ap, subst, ◌∙◌, inl,
  inr, true, false, Option, none, some, List, [], ◌∷◌, ◌++◌, map, arith, str_eq, ltb, if◌then◌else◌,
  Bool-cases, Option-cases, length, take, mem, pos, Dict,
}
use mathlib.Core.List.{append-nil}
use distributed_task_system.Redis.{Redis, RedisLaws, Fields}
use distributed_task_system.Redis.Keys.{k_tasks, k_errors, children, task_meta, dependency_hash}
use distributed_task_system.CompleteTask.{ready_entry}
use distributed_task_system.Workflow.{Edge, DistinctEdges, IsFresh}
use distributed_task_system.Workflow.Progress.{complete_run}
use distributed_task_system.Workflow.Runs.{Releases, complete_run-Releases}
use distributed_task_system.Submitter.{
  PbTask, PbTaskEdge, SubmitDagRequest, DagCommitContext, BatchItem, uuid_of, count_dependencies,
  dependency_count,
}
use distributed_task_system.Submitter.Database.{Database, flush_db_batch}
use distributed_task_system.Submitter.Database.Commit.{flush_one}
use distributed_task_system.Submitter.Pipeline.{
  sadd, expire, set, hset, xadd, x_add_fields, internal_task, Command, append_edges, append_tasks,
  append_dag_to_pipeline, exec,
}
use distributed_task_system.Submitter.Pipeline.Effect.{resolve_edges}
use distributed_task_system.Submitter.Pipeline.Tasks.{messages}
use distributed_task_system.Submitter.Pipeline.Tracked.{task_ids, Submitted, append_dag-Submitted}
use distributed_task_system.Submitter.Queue.{
  new_item, done, append_all, send, after_tx, process_batch,
}
use distributed_task_system.Submitter.Queue.Ids.{new_item-IsInjective, new_item-IsNamed}

take_all : {A : Type 0} → (n : ℕ) (xs : List A) → ltb n (length xs) ≡ false → take n xs ≡ xs
take_all zero [] h = refl
take_all (suc n) [] h = refl
take_all zero (x ∷ xs) h = ground (arith, h)
take_all (suc n) (x ∷ xs) h = ap (λ l. x ∷ l) (take_all n xs (ground (arith, h)))

-- The context with other entry tasks.
abbrev noting : DagCommitContext → List String → DagCommitContext
noting ctx l = record ctx { entry_task_ids = l }

resolve_edges-noting :
    (ctx : DagCommitContext) (l : List String) (es : List PbTaskEdge)
    → resolve_edges (noting ctx l) es ≡ resolve_edges ctx es
unfolding resolve_edges
resolve_edges-noting ctx l [] = refl
resolve_edges-noting ctx l (e ∷ es) = rw (resolve_edges-noting ctx l es) refl

append_edges-noting :
    (ctx : DagCommitContext) (l : List String) (es : List PbTaskEdge) (seen : List String)
    → append_edges (noting ctx l) seen es ≡ append_edges ctx seen es
unfolding append_edges
append_edges-noting ctx l [] seen = refl
append_edges-noting ctx l (e ∷ es) seen = λ i.
    (uuid_of ctx e.parent_natural_id >>= λ p. uuid_of ctx e.child_natural_id >>= λ c.
    append_edges-noting ctx l es (if mem p seen then seen else p ∷ seen) i >>= λ rest.
    some (sadd (children p) c ∷ (if mem p seen then rest else expire (children p) ∷ rest)))

module _ (serialize : PbTask → String) where
  append_tasks-noting :
      (ctx : DagCommitContext) (l : List String) (counts : Dict ℕ) (ts : List PbTask)
      → append_tasks serialize counts (noting ctx l) ts ≡ append_tasks serialize counts ctx ts
  unfolding append_tasks
  append_tasks-noting ctx l counts [] = refl
  append_tasks-noting ctx l counts (t ∷ ts) =
      ap
        (λ later. uuid_of ctx t.natural_id >>= λ uuid. later >>= λ rest. some (
          set (task_meta uuid) (serialize (internal_task ctx uuid t))
          ∷ (if ltb 0 (dependency_count counts t.natural_id)
              then hset (dependency_hash ctx.job_id) uuid
                  (pos (dependency_count counts t.natural_id))
              else xadd k_tasks (x_add_fields uuid ctx.job_id))
          ∷ rest))
        (append_tasks-noting ctx l counts ts)

  append_dag-noting :
      (req : SubmitDagRequest) (ctx : DagCommitContext) (l : List String)
      → append_dag_to_pipeline serialize req (noting ctx l)
        ≡ append_dag_to_pipeline serialize req ctx
  unfolding append_dag_to_pipeline
  append_dag-noting req ctx l =
      rw
        (
          append_edges-noting ctx l req.edges [],
          append_tasks-noting ctx l (count_dependencies req.edges []) req.tasks,
        )
        refl

  append_one_item :
      (req : SubmitDagRequest) (ctx : DagCommitContext) (cs : List Command)
      → append_all serialize (record { req = req; ctx = ctx } ∷ []) ≡ some cs
      → append_dag_to_pipeline serialize req ctx ≡ some cs
  unfolding append_all
  append_one_item req ctx cs h =
      let (first, e, h1) = >>=-eq-some (append_dag_to_pipeline serialize req ctx) _ h in
      e ∙ ap some (sym (append-nil first)) ∙ h1

  module _ (r : Redis) (reaches : List Command → ℕ) where
    send-done :
        (cmds : Option (List Command)) (s t : r.Store)
        → send serialize r true reaches cmds s ≡ (done, t)
        → (cs : List Command) × (cmds ≡ some cs) × (exec r cs s ≡ t)
    unfolding send
    send-done none s t h = let e = ap (λ x. x.0) h in ground (arith, e)
    send-done (some cs) s t h = elim (Bool-cases (ltb (reaches cs) (length cs))) [
      | inl cut ↦ (let e = ap (λ x. x.0) (rw cut at h) in ground (arith, e))
      | inr whole ↦
          (cs, refl, subst (λ l. exec r l s ≡ t) (take_all (reaches cs) cs whole) (ap (λ x. x.1) h))
    ]

    after_tx-send :
        (x : List BatchItem × Database) (db db' : Database) (s t : r.Store)
        → after_tx serialize r true reaches (some x) db s ≡ (done, db', t)
        → send serialize r true reaches (append_all serialize x.0) s ≡ (done, t)
    unfolding after_tx
    after_tx-send x db db' s t e = λ i. ((e i).0, (e i).2)

    -- A batch of one item that ends well was committed and sent whole.
    process_batch-done :
        (now : ℕ) (i : BatchItem) (db db' : Database) (s t : r.Store)
        → process_batch serialize r true reaches now (i ∷ []) db s ≡ (done, db', t)
        → (l : List String) × (cs : List Command) × (append_dag_to_pipeline serialize i.req i.ctx
            ≡ some cs)
          × (exec r cs s ≡ t)
          × ((us : List Edge) × (resolve_edges i.ctx i.req.edges ≡ some us) × DistinctEdges us)
    unfolding process_batch
    process_batch-done now i db db' s t h = elim (Option-cases (flush_db_batch now (i ∷ []) db)) [
      | inl e ↦ (let f = ap (λ x. x.0) (rw e at h) in unfold after_tx in ground (arith, f))
      | inr (x, e) ↦
          (let (l, is_items, edges) = flush_one now i x.0 db x.1 e in
            let (us, eu, u) = edges in
            let (cs, ec, run) =
              send-done (append_all serialize x.0) s t (after_tx-send x db db' s t (rw e at h)) in
            let ec' =
              append_one_item i.req (noting i.ctx l) cs
                (subst (λ k. append_all serialize k ≡ some cs) is_items ec) in
            (
              l,
              cs,
              sym (append_dag-noting i.req i.ctx l) ∙ ec',
              run,
              (us, sym (resolve_edges-noting i.ctx l i.req.edges) ∙ eu, u),
            ))
    ]

-- The ids of the tasks of a request that is queued when `k` ids have been generated.
abbrev pub new_ids : (ℕ → String) → ℕ → SubmitDagRequest → List String
new_ids generate k req = task_ids (new_item generate k req).ctx req.tasks

-- The messages that the request itself sends.
abbrev pub first_messages : (ℕ → String) → ℕ → SubmitDagRequest → List Fields
first_messages generate k req =
    messages (count_dependencies req.edges []) (new_item generate k req).ctx req.tasks

module _ (serialize : PbTask → String) (r : Redis) (laws : RedisLaws r) (reaches : List Command → ℕ)
    (generate : ℕ → String) (distinct : (i j : ℕ) → generate i ≡ generate j → i ≡ j) where
  open r use {Store, smembers, entries}

  -- A request is queued with the ids that come next, no two generated ids being equal and that of
  -- the job not empty, and it makes a batch that ends well, over the store of a Redis that keeps
  -- its laws and in which none of the new tasks has children. Then its edges by task id are all
  -- different, and after any run of completions of different tasks of it the task stream holds,
  -- behind what was there before, the message of each task without parents, in the order of the
  -- request, and one message for each task that had a parent and whose parents have all completed,
  -- and no other. No error has been reported.
  pub submit_and_run :
      (k now : ℕ) (req : SubmitDagRequest) (ps : List String) (db db' : Database) (s t : Store)
      → str_eq (generate k) "" ≡ false
      → process_batch serialize r true reaches now (new_item generate k req ∷ []) db s
        ≡ (done, db', t)
      → ((p c : String)
          → mem p (new_ids generate k req) ≡ true
          → mem c (smembers s (children p)) ≡ false)
      → IsFresh (new_ids generate k req) ps []
      → let final = complete_run r (generate k) ps t in
        (us : List Edge) × (resolve_edges (new_item generate k req).ctx req.edges ≡ some us)
        × DistinctEdges us
        × ((rs : List String) × (entries final k_tasks
              ≡ (entries s k_tasks ++ first_messages generate k req)
                ++ map (ready_entry (generate k)) rs)
            × (entries final k_errors ≡ entries s k_errors)
            × Releases us ps [] rs)
  submit_and_run k now req ps db db' s t named h new fresh =
      let i = new_item generate k req in
      let (l, cs, ec, is_t, edges) = process_batch-done serialize r reaches now i db db' s t h in
      let (us, eu, different) = edges in
      let (vs, ev, sub) =
        append_dag-Submitted serialize r laws req i.ctx
          (new_item-IsInjective generate distinct k req) (new_item-IsNamed generate k req) cs s
          named ec new in
      let same = eq_of_some-eq-some vs us (sym ev ∙ eu) in
      let u = subst DistinctEdges (sym same) different in
      let at_t =
        subst
          (λ w.
            Submitted serialize r laws req i.ctx (new_item-IsInjective generate distinct k req)
              (new_item-IsNamed generate k req) vs s w)
          is_t sub in
      let (rs, et, ee, rel) =
        complete_run-Releases r (generate k) (new_ids generate k req) laws vs u ps [] t at_t.tracked
          fresh in
      (
        vs,
        ev,
        u,
        (
          rs,
          et ∙ ap (λ m. m ++ map (ready_entry (generate k)) rs) at_t.tasks,
          ee ∙ at_t.errors,
          rel,
        ),
      )
