-- ===== src/Submitter/Progress.antt =====
-- A job whose graph has no cycle goes on until every task has completed.
use distributed_task_system.Common.{
  ℕ, suc, ◌<◌, String, ◌≡◌, refl, sym, ap, subst, ◌∙◌, inl, inr, true, false, some, List, [], ◌∷◌,
  ◌++◌, map, arith, str_eq, ltb, Bool-cases, mem, find,
}
use distributed_task_system.Redis.{Redis, RedisLaws, Fields}
use distributed_task_system.Redis.Keys.{k_tasks, children}
use distributed_task_system.CompleteTask.{ready_entry}
use distributed_task_system.Workflow.{Edge, has_edge, blocked, after, IsFresh}
use distributed_task_system.Workflow.Progress.{complete_run}
use distributed_task_system.Workflow.Runs.{Releases}
use distributed_task_system.Workflow.Unstuck.{some_free, mem-after}
use distributed_task_system.Submitter.{
  PbTask, SubmitDagRequest, DagCommitContext, uuid_of, count_dependencies,
  count_dependencies-in_degree, dependency_count, in_degree,
}
use distributed_task_system.Submitter.Database.{Database}
use distributed_task_system.Submitter.Pipeline.{Command}
use distributed_task_system.Submitter.Pipeline.Effect.{resolve_edges}
use distributed_task_system.Submitter.Pipeline.OneTask.{IsInjective}
use distributed_task_system.Submitter.Pipeline.Tracked.{IsNamed, blocked-in_degree}
use distributed_task_system.Submitter.Queue.{new_item, done, process_batch}
use distributed_task_system.Submitter.Queue.Ids.{
  new_item-IsInjective, new_item-IsNamed, new_item-names,
}
use distributed_task_system.Submitter.Delivery.{new_ids, first_messages, submit_and_run}
use distributed_task_system.Submitter.Offers.{
  Holds-right, Holds-left, Holds-map, IsOffered, GoesUp, task-named, named-listed, edge-names,
  messages-Holds,
}

module _ (generate : ℕ → String) (distinct : (i j : ℕ) → generate i ≡ generate j → i ≡ j) (k : ℕ)
    (req : SubmitDagRequest) where
  abbrev ctx : DagCommitContext
  ctx = (new_item generate k req).ctx

  inj : IsInjective ctx
  inj = new_item-IsInjective generate distinct k req

  named : IsNamed req ctx
  named = new_item-IsNamed generate k req

  -- The level of a task, by its id.
  abbrev IsAt : (String → ℕ) → String → ℕ → Type 0
  IsAt level x l = (n : String) × (uuid_of ctx n ≡ some x) × (level n ≡ l)

  parents_above :
      (level : String → ℕ) (us : List Edge)
      → resolve_edges ctx req.edges ≡ some us
      → GoesUp level req.edges
      → (p c : String) (l : ℕ) → has_edge us p c ≡ true
      → IsAt level c l
      → (mem p (new_ids generate k req) ≡ true) × (j : ℕ) × (j < l) × IsAt level p j
  parents_above level us ru up p c l e (n, en, at) =
      let (m, n', em, en', lower) = edge-names ctx req.edges us level p c ru up e in
      (
        named-listed ctx req.tasks m p (named m p em) em,
        level m,
        subst (λ z. level m < z) (ap level (inj n' n c en' en) ∙ at) lower,
        (m, em, refl),
      )

  count_of :
      (n : String) → dependency_count (count_dependencies req.edges []) n ≡ in_degree req.edges n
  unfolding find
  count_of n = count_dependencies-in_degree req.edges [] n ∙ omega arith

  -- A task that waits for none after the completions `ps` is offered.
  offered :
      (us : List Edge) (ps rs : List String) (before : List Fields) (y : String)
      → resolve_edges ctx req.edges ≡ some us
      → Releases us ps [] rs
      → mem y (new_ids generate k req) ≡ true
      → blocked us (after ps []) y ≡ 0
      → IsOffered
          ((before ++ first_messages generate k req) ++ map (ready_entry (generate k)) rs)
          (generate k)
          y
  offered us ps rs before y ru rel known free = elim (Bool-cases (ltb 0 (blocked us [] y))) [
    | inl held ↦
        inr
          (Holds-right _ _ _ (Holds-map (generate k) rs y (ground (arith, rel.once y, held, free))))
    | inr none_before ↦
        (let (n, listed, e) =
            task-named ctx req.tasks y (λ m h. new_item-names generate k req m ∙ h) known in
          let no_parents = blocked-in_degree ctx req.edges us n y inj e ru in
          inl (
            Holds-left _ _ _ (
              Holds-right before _ _ (
                messages-Holds ctx (count_dependencies req.edges []) req.tasks n y listed e
                  (ground (arith, count_of n, no_parents, none_before))))))
  ]

  module _ (serialize : PbTask → String) (r : Redis) (laws : RedisLaws r)
      (reaches : List Command → ℕ) where
    open r use {Store, smembers, entries}

    -- A request is queued with the ids that come next, no two generated ids being equal and that of
    -- the job not empty, and it makes a batch that ends well, over the store of a Redis that keeps its
    -- laws and in which none of the new tasks has children. Its graph has no cycle: every edge goes up
    -- from level to level. Then after any run of completions of different tasks of it that leaves some
    -- task out, there is a task that has not completed and whose message is in the task stream.
    pub job_goes_on :
        (now : ℕ) (ps : List String) (db db' : Database) (s t : Store) (level : String → ℕ)
        (x : String)
        → str_eq (generate k) "" ≡ false
        → process_batch serialize r true reaches now (new_item generate k req ∷ []) db s
          ≡ (done, db', t)
        → ((p c : String)
            → mem p (new_ids generate k req) ≡ true
            → mem c (smembers s (children p)) ≡ false)
        → IsFresh (new_ids generate k req) ps []
        → GoesUp level req.edges
        → mem x (new_ids generate k req) ≡ true
        → mem x ps ≡ false
        → (y : String) × (mem y (new_ids generate k req) ≡ true)
          × (mem y ps ≡ false)
          × IsOffered (entries (complete_run r (generate k) ps t) k_tasks) (generate k) y
    job_goes_on now ps db db' s t level x id h new fresh up known left =
        let (us, ru, _, run) =
          submit_and_run serialize r laws reaches generate distinct k now req ps db db' s t id h new
            fresh in
        let (rs, msgs, _, rel) = run in
        let (n, listed, e) =
          task-named ctx req.tasks x (λ m l. new_item-names generate k req m ∙ l) known in
        let (y, listed_y, open_y, free) =
          some_free us (new_ids generate k req) (IsAt level) (parents_above level us ru up)
            (after ps []) (suc (level n)) (level n) x (omega arith) (n, e, refl) known
            (mem-after ps [] x ∙ rw left (unfold mem in refl)) in
        (
          y,
          listed_y,
          ground (arith, mem-after ps [] y, open_y),
          subst (λ l. IsOffered l (generate k) y) (sym msgs)
              (offered us ps rs (entries s k_tasks) y ru rel listed_y free),
        )
