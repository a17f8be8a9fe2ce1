-- ===== src/CompleteTask/Effect.antt =====
-- What one run of the script does, whatever the order in which SMEMBERS lists the children.
use distributed_task_system.Common.{
  ℕ, String, ◌≡◌, refl, sym, ap, ◌∙◌, ◌≢◌, inl, inr, true, false, List, [], ◌∷◌, map, arith, eq_iff,
  Bool-cases, List-cases, length, select, mem, Distinct, select_congr,
}
use mathlib.Core.List.{append-nil, append_assoc}
use distributed_task_system.Redis.{Redis, RedisLaws}
use distributed_task_system.Redis.Keys.{task_meta}
use distributed_task_system.CompleteTask.{release_all, complete_task, ScriptCall, ready_entry}
use distributed_task_system.CompleteTask.Child.{
  IsSeparate, Did, is_ready, errors_for, gather, gather_congr, release-Did,
}

module _ (r : Redis) (k : ScriptCall) (laws : RedisLaws r) (sep : IsSeparate k) where
  open r use {Store, smembers, hget, entries}

  -- One child, and then the others.
  Did-cons :
      (c : String) (cs : List String) (s t u : Store) (n m o : ℕ)
      → mem c cs ≡ false
      → Did r k (c ∷ []) s t n m
      → Did r k cs t u m o
      → Did r k (c ∷ cs) s u n o
  unfolding mem select
  Did-cons c cs s t u n m o new a b = record {
    counters = λ f. ground (arith, a.counters f, b.counters f, kept f, eq_iff f c, a.metas f);
    metas = λ x. b.metas x ∙ a.metas x;
    tasks = elim (Bool-cases (is_ready r k s c)) [
      | inl ready ↦
          rw (ready, b.tasks, a.tasks, ready, same)
            (append_assoc (entries s k.tasks_key) (ready_entry k.job_id c ∷ [])
              (map (ready_entry k.job_id) (select (is_ready r k s) cs)))
      | inr unready ↦ rw (unready, b.tasks, a.tasks, unready, same, append-nil) refl
    ];
    errors =
        rw (b.errors, a.errors, same_errors, append-nil)
          (append_assoc (entries s k.errors_key) (errors_for r k s c)
            (gather (errors_for r k s) cs));
    triggered = elim (Bool-cases (is_ready r k s c)) [
      | inl ready ↦ rw ready (omega (arith, ap length same, rw ready at a.triggered))
      | inr unready ↦ rw unready (omega (arith, ap length same, rw unready at a.triggered))
    ];
  }
    where
      kept : (f : String) → mem f cs ≡ true → hget t k.deps_key f ≡ hget s k.deps_key f
      kept f m = ground (arith, a.counters f, eq_iff f c, new, m)

      same : select (is_ready r k t) cs ≡ select (is_ready r k s) cs
      same = select_congr _ _ cs (λ x m. rw (kept x m, a.metas x) refl)

      same_errors : gather (errors_for r k t) cs ≡ gather (errors_for r k s) cs
      same_errors = gather_congr _ _ cs (λ x m. rw (kept x m, a.metas x) refl)

  release_all-Did :
      (cs : List String) (s : Store) (n : ℕ)
      → Distinct cs
      → Did r k cs s (release_all r k cs s n).0 n (release_all r k cs s n).1
  unfolding release_all mem select
  release_all-Did [] s n h = record {
    counters = λ f. refl;
    metas = λ x. refl;
    tasks = sym (append-nil _);
    errors = sym (append-nil _);
    triggered = omega arith;
  }
  release_all-Did (c ∷ cs) s n h =
      Did-cons c cs s _ _ n _ _ h.0 (release-Did r k laws sep c s n) (release_all-Did cs _ _ h.1)

  del-Did :
      (cs : List String) (s t : Store) (n m : ℕ)
      → Did r k cs s t n m
      → Did r k cs s (r.del t k.children_key) n m
  del-Did cs s t n m d =
      let frame = λ (j : String) (h : k.children_key ≢ j). laws.del_frame t k.children_key j h in
      record {
        counters = λ f. (frame k.deps_key sep.children_deps).same_hash f ∙ d.counters f;
        metas = λ x. (frame (task_meta x) (sep.children_meta x)).same_exists ∙ d.metas x;
        tasks = (frame k.tasks_key sep.children_tasks).same_entries ∙ d.tasks;
        errors = (frame k.errors_key sep.children_errors).same_entries ∙ d.errors;
        triggered = d.triggered;
      }

  -- One run of the script, over a Redis that keeps its laws and with four keys that are
  -- different from each other and from all metadata keys: the counter of each child goes down by
  -- one; a child whose counter reaches zero and whose metadata is there gets one message in the
  -- task stream and loses its counter; every other child keeps its counter, and gives a report
  -- to the error stream if the counter went below zero, or reached zero without metadata; no
  -- other counter and no metadata changes, and the reply is the number of messages.
  pub complete_task-Did :
      (s : Store)
      → Did r k (smembers s k.children_key) s (complete_task r k s).0 0 (complete_task r k s).1
  unfolding complete_task
  complete_task-Did s =
      let done =
        release_all-Did (smembers s k.children_key) s 0 (laws.smembers_distinct s k.children_key) in
      elim (List-cases (smembers s k.children_key)) [
        | inl e ↦ rw e (rw e at done)
        | inr (c, cs, e) ↦ rw e (del-Did _ s _ 0 _ (rw e at done))
      ]

  -- Over a Redis that keeps its laws and with keys that do not collide, a second run for the
  -- same task, directly after the first, finds no children: it changes nothing and replies 0.
  pub complete_task_twice :
      (s : Store) → complete_task r k (complete_task r k s).0 ≡ ((complete_task r k s).0, 0)
  unfolding complete_task
  complete_task_twice s = elim (List-cases (smembers s k.children_key)) [
    | inl e ↦ rw e (rw e refl)
    | inr (c, cs, e) ↦ rw e (rw (laws.smembers-del _ k.children_key) refl)
  ]
