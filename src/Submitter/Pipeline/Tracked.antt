-- ===== src/Submitter/Pipeline/Tracked.antt =====
-- The store after AppendDagToPipeline is the start of the workflow of `Workflow`.
use distributed_task_system.Common.{
  ℕ, suc, >>=-eq-some, eq_of_some-eq-some, ◌<◌, String, ◌≡◌, refl, sym, ap, subst, ◌∙◌, inl, inr,
  true, false, ◌&&◌, some, List, [], ◌∷◌, ◌++◌, arith, str_eq, eq_iff, if◌then◌else◌, Bool-cases,
  get_or, is_empty, mem, Dict, find,
}
use distributed_task_system.Redis.{Redis, RedisLaws, SameAt, SameAt-refl}
use distributed_task_system.Redis.Keys.{
  task_meta, k_tasks, k_errors, children, dependency_hash, k_tasks-ne-children,
  k_errors-ne-children,
}
use distributed_task_system.Workflow.{Edge, blocked}
use distributed_task_system.Workflow.Progress.{Tracks}
use distributed_task_system.Submitter.{
  PbTask, PbTaskEdge, SubmitDagRequest, DagCommitContext, uuid_of, count_dependencies,
  dependency_count, in_degree, count_dependencies-in_degree,
}
use distributed_task_system.Submitter.Pipeline.{
  Command, expire, append_edges, append_tasks, append_dag_to_pipeline, exec,
}
use distributed_task_system.Submitter.Pipeline.Effect.{
  resolve_edges, exec-append, EdgesDone, append_edges_effect,
}
use distributed_task_system.Submitter.Pipeline.OneTask.{names, IsInjective, TasksDone}
use distributed_task_system.Submitter.Pipeline.Tasks.{messages, append_tasks_effect}

-- Every name that has an id is the name of a task of the request, as SubmitDagAsync makes it.
abbrev pub IsNamed : SubmitDagRequest → DagCommitContext → Type 0
IsNamed req ctx = (n c : String) → uuid_of ctx n ≡ some c → names n req.tasks ≡ true

pub blocked-in_degree :
    (ctx : DagCommitContext) (es : List PbTaskEdge) (us : List Edge) (n c : String)
    → IsInjective ctx
    → uuid_of ctx n ≡ some c
    → resolve_edges ctx es ≡ some us
    → blocked us [] c ≡ in_degree es n
unfolding resolve_edges blocked in_degree mem
blocked-in_degree ctx [] us n c inj e h =
    subst (λ l. blocked l [] c ≡ 0) (eq_of_some-eq-some [] us h) refl
blocked-in_degree ctx (x ∷ es) us n c inj e h =
    let (p, ep, h1) = >>=-eq-some (uuid_of ctx x.parent_natural_id) _ h in
    let (d, ed, h2) = >>=-eq-some (uuid_of ctx x.child_natural_id) _ h1 in
    let (rest, er, h3) = >>=-eq-some (resolve_edges ctx es) _ h2 in
    subst (λ l. blocked l [] c ≡ in_degree (x ∷ es) n) (eq_of_some-eq-some _ us h3)
      (one x.child_natural_id d ed (blocked rest [] c) (in_degree es n)
        (blocked-in_degree ctx es rest n c inj e er))
  where
    one :
        (m d : String)
        → uuid_of ctx m ≡ some d
        → (a b : ℕ) → a ≡ b
        → (if str_eq d c && true then suc a else a) ≡ (if str_eq m n then suc b else b)
    one m d ed a b ab = ground (arith, inj m n c, eq_iff d c, eq_iff m n, ed, e)

-- A task that is held back has a name.
pub named_child :
    (ctx : DagCommitContext) (es : List PbTaskEdge) (us : List Edge) (c : String)
    → resolve_edges ctx es ≡ some us
    → 0 < blocked us [] c
    → (n : String) × (uuid_of ctx n ≡ some c)
unfolding resolve_edges blocked mem
named_child ctx [] us c h held =
    subst (λ l. 0 < blocked l [] c → (n : String) × (uuid_of ctx n ≡ some c))
      (eq_of_some-eq-some [] us h) (λ z. absurd (omega arith)) held
named_child ctx (x ∷ es) us c h held =
    let (p, ep, h1) = >>=-eq-some (uuid_of ctx x.parent_natural_id) _ h in
    let (d, ed, h2) = >>=-eq-some (uuid_of ctx x.child_natural_id) _ h1 in
    let (rest, er, h3) = >>=-eq-some (resolve_edges ctx es) _ h2 in
    subst (λ l. 0 < blocked l [] c → (n : String) × (uuid_of ctx n ≡ some c))
      (eq_of_some-eq-some _ us h3)
      (one x.child_natural_id p d ed rest (named_child ctx es rest c er)) held
  where
    one :
        (m p d : String)
        → uuid_of ctx m ≡ some d
        → (rest : List Edge) → (0 < blocked rest [] c → (n : String) × (uuid_of ctx n ≡ some c))
        → 0 < blocked ((p, d) ∷ rest) [] c
        → (n : String) × (uuid_of ctx n ≡ some c)
    one m p d ed rest later k = elim (Bool-cases (str_eq d c)) [
      | inl y ↦ (m, ed ∙ ap some ((eq_iff d c).0 y))
      | inr z ↦ later (rw z at k)
    ]

-- The ids of the tasks of the request.
abbrev pub task_ids : DagCommitContext → List PbTask → List String
task_ids ctx [] = []
task_ids ctx (t ∷ ts) = get_or (uuid_of ctx t.natural_id) "" ∷ task_ids ctx ts

module _ (serialize : PbTask → String) (r : Redis) (laws : RedisLaws r) (req : SubmitDagRequest)
    (ctx : DagCommitContext) (inj : IsInjective ctx) (named : IsNamed req ctx) where
  open r use {Store, smembers, hget, exists, entries}

  abbrev counts : Dict ℕ
  counts = count_dependencies req.edges []

  -- The store after the commands of the job, given what they begin with.
  pub record Submitted (us : List Edge) (s t : Store) : Type 0 where
    pub tracked : Tracks r ctx.job_id (task_ids ctx req.tasks) us [] t
    pub tasks : entries t k_tasks ≡ entries s k_tasks ++ messages counts ctx req.tasks
    pub errors : entries t k_errors ≡ entries s k_errors

  -- No set of children is there for the ids of this job.
  abbrev pub IsNew : Store → Type 0
  IsNew s =
      (p c : String)
      → mem p (task_ids ctx req.tasks) ≡ true
      → mem c (smembers s (children p)) ≡ false

  count_of : (n : String) → dependency_count counts n ≡ in_degree req.edges n
  unfolding find
  count_of n = count_dependencies-in_degree req.edges [] n ∙ omega arith

  phases :
      (us : List Edge) (s t u w : Store)
      → resolve_edges ctx req.edges ≡ some us
      → IsNew s
      → EdgesDone r laws us s t
      → TasksDone counts ctx r req.tasks (messages counts ctx req.tasks) t u
      → ((j : String) → SameAt r u w j)
      → Submitted us s w
  phases us s t u w ru fresh a b c = record {
    tracked = record {
      open_children = λ p x known new.
          ap (mem x) (c (children p)).same_members
          ∙ ap (mem x) (b.sets p)
          ∙ a.sets p x
          ∙ ground (arith, fresh p x known);
      counter = λ x held.
          let (n, e) = named_child ctx req.edges us x ru held in
          (c (dependency_hash ctx.job_id)).same_hash x
          ∙ b.counter n x e
          ∙ ground (
            arith,
            named n x e,
            count_of n,
            blocked-in_degree ctx req.edges us n x inj e ru,
            held,
          );
      meta = λ x held.
          let (n, e) = named_child ctx req.edges us x ru held in
          (c (task_meta x)).same_exists ∙ b.meta n x e ∙ rw (named n x e) refl;
    };
    tasks =
        (c k_tasks).same_entries
        ∙ b.tasks
        ∙ ap (λ l. l ++ messages counts ctx req.tasks)
            (a.others k_tasks (λ p e. k_tasks-ne-children p (sym e))).same_entries;
    errors =
        (c k_errors).same_entries
        ∙ b.errors
        ∙ (a.others k_errors (λ p e. k_errors-ne-children p (sym e))).same_entries;
  }

  all_commands :
      (edges tasks : List Command) (us : List Edge) (s : Store)
      → resolve_edges ctx req.edges ≡ some us
      → IsNew s
      → ((t : Store) → EdgesDone r laws us t (exec r edges t))
      → ((t : Store)
          → TasksDone counts ctx r req.tasks (messages counts ctx req.tasks) t (exec r tasks t))
      → Submitted us s (
          exec r
            (edges
              ++ (tasks
                  ++ (if is_empty req.edges then [] else expire (dependency_hash ctx.job_id) ∷ [])))
            s)
  unfolding exec
  all_commands edges tasks us s ru fresh ea ta =
      let t = exec r edges s in
      let u = exec r tasks t in
      rw (exec-append r laws edges _ s, exec-append r laws tasks _ t)
        (phases us s t u _ ru fresh (ea s) (ta t) (elim (Bool-cases (is_empty req.edges)) [
          | inl e ↦ rw e (λ j. SameAt-refl r u j)
          | inr e ↦ rw e (λ j. laws.expire_frame u (dependency_hash ctx.job_id) j)
        ]))

  -- A job with an id, in which no two names share an id and every name with an id is that of a
  -- task, whose commands can be built, and whose tasks are new to the store of a Redis that keeps
  -- its laws: after the pipeline has run, the store is the start of the workflow over the edges of
  -- the request by task id: the sets of children are the edges, the counter of each task with
  -- parents is the number of edges into it, and its metadata is there; the tasks without parents
  -- are in the task stream behind what was there, in the order of the request, and the error
  -- stream is as it was.
  pub append_dag-Submitted :
      (cs : List Command) (s : Store)
      → str_eq ctx.job_id "" ≡ false
      → append_dag_to_pipeline serialize req ctx ≡ some cs
      → IsNew s
      → (us : List Edge) × (resolve_edges ctx req.edges ≡ some us) × Submitted us s (exec r cs s)
  unfolding append_dag_to_pipeline
  append_dag-Submitted cs s id h fresh =
      let h0 = rw id at h in
      let (edges, ee, h1) = >>=-eq-some (append_edges ctx [] req.edges) _ h0 in
      let (tasks, et, h2) = >>=-eq-some (append_tasks serialize counts ctx req.tasks) _ h1 in
      let (us, ru, effect) = append_edges_effect r laws ctx [] req.edges edges ee in
      (
        us,
        ru,
        subst (λ l. Submitted us s (exec r l s)) (eq_of_some-eq-some _ cs h2)
            (all_commands edges tasks us s ru fresh effect
              (append_tasks_effect counts ctx serialize r laws inj req.tasks tasks et)),
      )
