-- ===== src/Workflow/Runs.antt =====
-- Which tasks a whole run of completions puts into the task stream.
use distributed_task_system.Common.{
  ◌+◌, String, ◌≡◌, refl, sym, ap, ◌∙◌, true, false, ◌&&◌, List, [], ◌∷◌, ◌++◌, map, arith, ltb,
  ◌==◌, if◌then◌else◌, mem, count, count-append, count-select,
}
use mathlib.Core.Path.{ap₂}
use mathlib.Core.List.{append-nil, append_assoc, map-append}
use distributed_task_system.Redis.{Redis, RedisLaws}
use distributed_task_system.Redis.Keys.{k_tasks, k_errors, children}
use distributed_task_system.CompleteTask.{ready_entry, complete_task}
use distributed_task_system.Workflow.{
  Edge, has_edge, DistinctEdges, blocked, blocked_complete, blocked-after-le, after, IsFresh,
}
use distributed_task_system.Workflow.Progress.{
  script_call, complete_run, Tracks, let_go, complete_task-Tracks, complete_task_entries,
}

-- The tasks `rs` are those that the completions `ps` let go, each of them once.
pub record Releases (es : List Edge) (ps done rs : List String) : Type 0 where
  pub once :
      (c : String)
      → count c rs
        ≡ (if ltb 0 (blocked es done c) && blocked es (after ps done) c == 0 then 1 else 0)

module _ (r : Redis) (job : String) (tasks : List String) (laws : RedisLaws r) (es : List Edge)
    (u : DistinctEdges es) where
  open r use {Store, smembers, entries}

  count-let_go :
      (done : List String) (p : String) (s : Store) (c : String)
      → Tracks r job tasks es done s
      → mem p tasks ≡ true
      → mem p done ≡ false
      → count c (let_go r es done p s)
        ≡ (if has_edge es p c && blocked es (p ∷ done) c == 0 then 1 else 0)
  count-let_go done p s c t known new =
      count-select _ (smembers s (children p)) c (laws.smembers_distinct s (children p))
      ∙ ap (λ b. if b && blocked es (p ∷ done) c == 0 then 1 else 0) (t.open_children p c known new)

  -- A task is let go now or later, and never twice.
  sum_of_parts :
      (done : List String) (p : String) (ps : List String) (c : String)
      → mem p done ≡ false
      → (if has_edge es p c && blocked es (p ∷ done) c == 0 then 1 else 0)
          + (if ltb 0 (blocked es (p ∷ done) c) && blocked es (after ps (p ∷ done)) c == 0
              then 1
              else 0)
        ≡ (if ltb 0 (blocked es done c) && blocked es (after ps (p ∷ done)) c == 0 then 1 else 0)
  sum_of_parts done p ps c new =
      ground (arith, blocked_complete es done p c u new, blocked-after-le es ps (p ∷ done) c)

  -- From a store that is at some stage of the workflow over edges that are all different, in a
  -- Redis that keeps its laws, any run of completions of different tasks that have not completed
  -- before puts each task into the task stream at most once: exactly when it had a parent that had
  -- not completed before the run, and none after it. The messages come behind those that were
  -- there, and the error stream stays as it was.
  pub complete_run-Releases :
      (ps done : List String) (s : Store)
      → Tracks r job tasks es done s
      → IsFresh tasks ps done
      → let t = complete_run r job ps s in
        (rs : List String) × (entries t k_tasks ≡ entries s k_tasks ++ map (ready_entry job) rs)
        × (entries t k_errors ≡ entries s k_errors)
        × Releases es ps done rs
  unfolding complete_run
  complete_run-Releases [] done s t f =
      ([], sym (append-nil _), refl, record { once = λ c. unfold count in ground arith })
  complete_run-Releases (p ∷ ps) done s t f =
      let now = complete_task_entries r job tasks laws es u done p s t f.0 f.1 in
      let (rs, msgs, errors, rel) =
        complete_run-Releases ps (p ∷ done) (complete_task r (script_call p job) s).0
          (complete_task-Tracks r job tasks laws es u done p s t f.0 f.1) f.2 in
      (
        let_go r es done p s ++ rs,
        msgs
            ∙ ap (λ l. l ++ map (ready_entry job) rs) now.0
            ∙ append_assoc (entries s k_tasks) (map (ready_entry job) (let_go r es done p s))
                (map (ready_entry job) rs)
            ∙ ap (λ l. entries s k_tasks ++ l)
                (sym (map-append (ready_entry job) (let_go r es done p s) rs)),
        errors ∙ now.1,
        record {
          once = λ c.
              count-append c (let_go r es done p s) rs
              ∙ ap₂ ◌+◌ (count-let_go done p s c t f.0 f.1) (rel.once c)
              ∙ sum_of_parts done p ps c f.1;
        },
      )
