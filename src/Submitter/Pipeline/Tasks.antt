-- ===== src/Submitter/Pipeline/Tasks.antt =====
-- What the task phase of AppendDagToPipeline leaves in the store.
use distributed_task_system.Common.{
  ℕ, >>=-eq-some, eq_of_some-eq-some, String, ◌≡◌, refl, sym, ap, subst, ◌∙◌, some, List, [], ◌∷◌,
  ◌++◌, arith, get_or, Dict,
}
use mathlib.Core.List.{append-nil, append_assoc}
use distributed_task_system.Redis.{Redis, RedisLaws, Fields}
use distributed_task_system.Redis.Keys.{task_meta, k_tasks}
use distributed_task_system.Submitter.{PbTask, DagCommitContext, uuid_of}
use distributed_task_system.Submitter.Pipeline.{
  Command, set, internal_task, append_tasks, run_command, exec,
}
use distributed_task_system.Submitter.Pipeline.OneTask.{
  names, IsInjective, pending, TasksDone, dispatch, message, one_task,
}

module _ (counts : Dict ℕ) (ctx : DagCommitContext) where
  -- The messages of the tasks that wait for nothing, in the order of the request.
  unfoldable pub messages : List PbTask → List Fields
  messages [] = []
  messages (t ∷ ts) =
      message counts ctx (get_or (uuid_of ctx t.natural_id) "") (pending counts ctx t.natural_id)
      ++ messages ts

  messages-cons :
      (t : PbTask) (ts : List PbTask) (uuid : String)
      → uuid_of ctx t.natural_id ≡ some uuid
      → messages (t ∷ ts) ≡ message counts ctx uuid (pending counts ctx t.natural_id) ++ messages ts
  unfolding messages
  messages-cons t ts uuid eu = rw eu refl

  module _ (serialize : PbTask → String) (r : Redis) (laws : RedisLaws r)
      (inj : IsInjective ctx) where
    open r use {Store, entries}

    TasksDone-cons :
        (t : PbTask) (ts : List PbTask) (es fs : List Fields) (s u w : Store)
        → TasksDone counts ctx r (t ∷ []) es s u
        → TasksDone counts ctx r ts fs u w
        → TasksDone counts ctx r (t ∷ ts) (es ++ fs) s w
    unfolding names
    TasksDone-cons t ts es fs s u w a b = record {
      sets = λ p. b.sets p ∙ a.sets p;
      counter = λ n c e. ground (arith, a.counter n c e, b.counter n c e);
      meta = λ n c e. ground (arith, a.meta n c e, b.meta n c e);
      tasks = b.tasks ∙ ap (λ l. l ++ fs) a.tasks ∙ append_assoc (entries s k_tasks) es fs;
      errors = b.errors ∙ a.errors;
    }

    append_tasks-cons :
        (t : PbTask) (ts : List PbTask) (uuid : String) (rest cs : List Command)
        → uuid_of ctx t.natural_id ≡ some uuid
        → append_tasks serialize counts ctx ts ≡ some rest
        → append_tasks serialize counts ctx (t ∷ ts) ≡ some cs
        → set (task_meta uuid) (serialize (internal_task ctx uuid t))
            ∷ dispatch counts ctx uuid (pending counts ctx t.natural_id)
            ∷ rest
          ≡ cs
    unfolding append_tasks
    append_tasks-cons t ts uuid rest cs eu er h = eq_of_some-eq-some _ cs (rw (eu, er) at h)

    append_one :
        (t : PbTask) (ts : List PbTask) (uuid v : String) (rest : List Command) (s : Store)
        → uuid_of ctx t.natural_id ≡ some uuid
        → ((u : Store) → TasksDone counts ctx r ts (messages ts) u (exec r rest u))
        → TasksDone counts ctx r (t ∷ ts) (messages (t ∷ ts)) s (
            exec r
              (set (task_meta uuid) v
                ∷ dispatch counts ctx uuid (pending counts ctx t.natural_id)
                ∷ rest)
              s)
    unfolding exec
    append_one t ts uuid v rest s eu effect =
        let u = r.write s (task_meta uuid) v in
        let w = run_command r (dispatch counts ctx uuid (pending counts ctx t.natural_id)) u in
        subst (λ m. TasksDone counts ctx r (t ∷ ts) m s (exec r rest w))
          (sym (messages-cons t ts uuid eu))
          (TasksDone-cons t ts (message counts ctx uuid (pending counts ctx t.natural_id))
            (messages ts) s w (exec r rest w) (one_task counts ctx r laws inj t uuid eu v s)
            (effect w))

    pub append_tasks_effect :
        (ts : List PbTask) (cs : List Command)
        → append_tasks serialize counts ctx ts ≡ some cs
        → (s : Store) → TasksDone counts ctx r ts (messages ts) s (exec r cs s)
    unfolding append_tasks exec
    append_tasks_effect [] cs h s =
        subst (λ l. TasksDone counts ctx r [] (messages []) s (exec r l s))
          (eq_of_some-eq-some [] cs h)
          (unfold names messages in
            record {
              sets = λ p. refl;
              counter = λ n c e. refl;
              meta = λ n c e. refl;
              tasks = sym (append-nil _);
              errors = refl;
            })
    append_tasks_effect (t ∷ ts) cs h s =
        let (uuid, eu, h1) = >>=-eq-some (uuid_of ctx t.natural_id) _ h in
        let (rest, er, h2) = >>=-eq-some (append_tasks serialize counts ctx ts) _ h1 in
        subst (λ l. TasksDone counts ctx r (t ∷ ts) (messages (t ∷ ts)) s (exec r l s))
          (append_tasks-cons t ts uuid rest cs eu er h)
          (append_one t ts uuid (serialize (internal_task ctx uuid t)) rest s eu
            (append_tasks_effect ts rest er))
