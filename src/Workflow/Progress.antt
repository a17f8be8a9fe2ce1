-- ===== src/Workflow/Progress.antt =====
-- A job runs through its DAG: any order of completions, by the script of `CompleteTask`.
use distributed_task_system.Common.{
  ◌<◌, String, ◌≡◌, sym, ap, ◌∙◌, ◌≢◌, inl, inr, true, false, some, List, [], ◌∷◌, ◌++◌, map, arith,
  eq_iff, ◌==◌, if◌then◌else◌, Bool-cases, select, mem, select_congr, pos, ◌+ℤ◌,
}
use mathlib.Core.List.{append-nil}
use distributed_task_system.Redis.{Redis, RedisLaws}
use distributed_task_system.Redis.Keys.{
  task_meta, k_tasks, k_errors, children, dependency_hash, children_injective,
  children-ne-dependency_hash, children-ne-task_meta, dependency_hash-ne-task_meta,
  k_tasks-ne-children, k_tasks-ne-dependency_hash, k_tasks-ne-task_meta, k_errors-ne-children,
  k_errors-ne-dependency_hash, k_errors-ne-task_meta, k_tasks-ne-k_errors,
}
use distributed_task_system.CompleteTask.{ScriptCall, ready_entry, complete_task}
use distributed_task_system.CompleteTask.Child.{
  IsSeparate, Did, is_ready, counter_after, errors_for, gather_none,
}
use distributed_task_system.CompleteTask.Effect.{complete_task-Did}
use distributed_task_system.CompleteTask.Frame.{complete_task_frame}
use distributed_task_system.Workflow.{
  Edge, has_edge, DistinctEdges, blocked, blocked_complete, blocked_pos,
}

-- The arguments of EVALSHA in SchedulerServiceImpl::UpdateTaskStatus.
abbrev pub script_call : String → String → ScriptCall
script_call task_id job_id = record {
  children_key = children task_id;
  deps_key = dependency_hash job_id;
  tasks_key = k_tasks;
  errors_key = k_errors;
  job_id = job_id;
}

pub script_call-IsSeparate : (task_id job_id : String) → IsSeparate (script_call task_id job_id)
script_call-IsSeparate t j = record {
  tasks_deps = k_tasks-ne-dependency_hash j;
  errors_deps = k_errors-ne-dependency_hash j;
  tasks_errors = k_tasks-ne-k_errors;
  children_deps = children-ne-dependency_hash t j;
  children_tasks = λ e. k_tasks-ne-children t (sym e);
  children_errors = λ e. k_errors-ne-children t (sym e);
  deps_meta = dependency_hash-ne-task_meta j;
  tasks_meta = k_tasks-ne-task_meta;
  errors_meta = k_errors-ne-task_meta;
  children_meta = children-ne-task_meta t;
}

-- The tasks of a job complete one after the other.
unfoldable pub complete_run : (r : Redis) → String → List String → r.Store → r.Store
complete_run r job [] s = s
complete_run r job (p ∷ ps) s = complete_run r job ps (complete_task r (script_call p job) s).0

-- The children of `p` that no other parent holds back any more.
abbrev pub let_go : (r : Redis) → List Edge → List String → String → r.Store → List String
let_go r es done p s = select (λ c. blocked es (p ∷ done) c == 0) (r.smembers s (children p))

module _ (r : Redis) (job : String) (tasks : List String) where
  open r use {Store, smembers, hget, exists, entries}

  -- The store agrees with the DAG `es` after the tasks `done` have completed.
  pub record Tracks (es : List Edge) (done : List String) (s : Store) : Type 0 where
    pub open_children :
        (p c : String)
        → mem p tasks ≡ true
        → mem p done ≡ false
        → mem c (smembers s (children p)) ≡ has_edge es p c
    pub counter :
        (c : String)
        → 0 < blocked es done c
        → hget s (dependency_hash job) c ≡ some (pos (blocked es done c))
    pub meta : (c : String) → 0 < blocked es done c → exists s (task_meta c) ≡ true

  module _ (laws : RedisLaws r) where
    -- The script leaves the sets of children of the other tasks alone.
    other_children :
        (p q : String) (s : Store)
        → p ≢ q
        → smembers (complete_task r (script_call p job) s).0 (children q) ≡ smembers s (children q)
    other_children p q s h =
        (complete_task_frame r (script_call p job) laws (children q)
          (record {
            not_children = λ e. h (children_injective p q e);
            not_deps = λ e. children-ne-dependency_hash q job (sym e);
            not_tasks = k_tasks-ne-children q;
            not_errors = k_errors-ne-children q;
          })
          s).same_members

    module _ (es : List Edge) (u : DistinctEdges es) where
      is_ready_test :
          (done : List String) (p : String) (s : Store)
          → Tracks es done s
          → mem p tasks ≡ true
          → mem p done ≡ false
          → (c : String) → mem c (smembers s (children p)) ≡ true
          → is_ready r (script_call p job) s c ≡ (blocked es (p ∷ done) c == 0)
      unfolding ◌+ℤ◌
      is_ready_test done p s t known new c m =
          let edge : has_edge es p c ≡ true = sym (t.open_children p c known new) ∙ m in
          let held = blocked_pos es done p c edge new in
          rw (t.counter c held, t.meta c held)
            (ground (arith, blocked_complete es done p c u new, edge))

      no_errors :
          (done : List String) (p : String) (s : Store)
          → Tracks es done s
          → mem p tasks ≡ true
          → mem p done ≡ false
          → (c : String) → mem c (smembers s (children p)) ≡ true
          → errors_for r (script_call p job) s c ≡ []
      unfolding ◌+ℤ◌
      no_errors done p s t known new c m =
          let edge : has_edge es p c ≡ true = sym (t.open_children p c known new) ∙ m in
          let held = blocked_pos es done p c edge new in
          rw (t.counter c held, t.meta c held)
            (ground (arith, blocked_complete es done p c u new, edge))

      pub complete_task-Tracks :
          (done : List String) (p : String) (s : Store)
          → Tracks es done s
          → mem p tasks ≡ true
          → mem p done ≡ false
          → Tracks es (p ∷ done) (complete_task r (script_call p job) s).0
      unfolding mem ◌+ℤ◌
      complete_task-Tracks done p s t known new = record {
        open_children = λ q c task h.
            rw (other_children p q s (apart q h)) (t.open_children q c task (earlier q h));
        counter = λ c held. did.counters c ∙ next_counter c held;
        meta =
            λ c held. did.metas c ∙ t.meta c (ground (arith, blocked_complete es done p c u new));
      }
        where
          did :
              Did r
                (script_call p job)
                (smembers s (children p))
                s
                (complete_task r (script_call p job) s).0
                0
                (complete_task r (script_call p job) s).1
          did = complete_task-Did r (script_call p job) laws (script_call-IsSeparate p job) s

          apart : (q : String) → mem q (p ∷ done) ≡ false → p ≢ q
          apart q h = ground (arith, eq_iff q p, eq_iff p q)

          earlier : (q : String) → mem q (p ∷ done) ≡ false → mem q done ≡ false
          earlier q h = ground arith

          next_counter :
              (c : String)
              → 0 < blocked es (p ∷ done) c
              → (if mem c (smembers s (children p))
                  then counter_after r (script_call p job) s c
                  else hget s (dependency_hash job) c)
                ≡ some (pos (blocked es (p ∷ done) c))
          next_counter c held = elim (Bool-cases (has_edge es p c)) [
            | inl edge ↦
                let m = t.open_children p c known new ∙ edge in
                rw (m, is_ready_test done p s t known new c m)
                  (ground (arith, blocked_complete es done p c u new, t.counter c))
            | inr no_edge ↦
                rw (t.open_children p c known new ∙ no_edge)
                  (ground (arith, blocked_complete es done p c u new, t.counter c))
          ]

      -- The messages for the task stream: the children that are let go, and nothing for the errors.
      pub complete_task_entries :
          (done : List String) (p : String) (s : Store)
          → Tracks es done s
          → mem p tasks ≡ true
          → mem p done ≡ false
          → let t = (complete_task r (script_call p job) s).0 in
            (entries t k_tasks ≡ entries s k_tasks ++ map (ready_entry job) (let_go r es done p s))
            × (entries t k_errors ≡ entries s k_errors)
      complete_task_entries done p s t known new =
          let did = complete_task-Did r (script_call p job) laws (script_call-IsSeparate p job) s in
          (
            did.tasks
                ∙ ap (λ l. entries s k_tasks ++ map (ready_entry job) l)
                    (select_congr _ _ (smembers s (children p))
                      (is_ready_test done p s t known new)),
            did.errors
                ∙ ap (λ l. entries s k_errors ++ l)
                    (gather_none _ (smembers s (children p)) (no_errors done p s t known new))
                ∙ append-nil (entries s k_errors),
          )
