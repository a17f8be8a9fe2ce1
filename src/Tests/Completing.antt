-- ===== src/Tests/Completing.antt =====
-- The theorems of `CompleteTask` and `Workflow` at two tasks with one edge.
use distributed_task_system.Redis.Families.{of_children, built, build, name_injective}
use Prim.Native.String.{◌++◌ as ◌<>◌}
use distributed_task_system.Common.{
  ◌<◌, String, ◌≡◌, refl, subst, true, some, List, [], ◌∷◌, ◌++◌, map, arith, eq_iff, mem, pos,
}
use distributed_task_system.Redis.Keys.{k_tasks, k_errors, children, dependency_hash, task_meta}
use distributed_task_system.Redis.Memory.{memory, empty_memory, memory_laws}
use distributed_task_system.CompleteTask.{ready_entry, complete_task}
use distributed_task_system.CompleteTask.Child.{Did}
use distributed_task_system.CompleteTask.Effect.{complete_task-Did, complete_task_twice}
use distributed_task_system.Workflow.{Edge, has_edge, blocked}
use distributed_task_system.Workflow.Progress.{
  script_call, script_call-IsSeparate, complete_run, Tracks,
}
use distributed_task_system.Workflow.Runs.{Releases, complete_run-Releases}

-- Two tasks, one edge, and the store at the start.
abbrev pair_edges : List Edge
pair_edges = ("p", "c") ∷ []

abbrev pair_store : memory.Store
pair_store =
    memory.hset (memory.write (memory.sadd empty_memory (children "p") "c") (task_meta "c") "m")
      (dependency_hash "j") "c" (pos 1)

pair-Tracks : Tracks memory "j" ("p" ∷ []) pair_edges [] pair_store
unfolding mem has_edge blocked children dependency_hash task_meta
pair-Tracks = record {
  open_children = λ p c known new.
      subst (λ z. mem c (memory.smembers pair_store (children z)) ≡ has_edge pair_edges z c)
        (is_p p known) (ground (arith, eq_iff c "c", eq_iff "c" c));
  counter = λ c held.
      subst
        (λ z. memory.hget pair_store (dependency_hash "j") z ≡ some (pos (blocked pair_edges [] z)))
        (is_c c held) refl;
  meta = λ c held. subst (λ z. memory.exists pair_store (task_meta z) ≡ true) (is_c c held) refl;
}
  where
    is_p : (p : String) → mem p ("p" ∷ []) ≡ true → "p" ≡ p
    is_p p h = ground (arith, eq_iff p "p", eq_iff "p" p, h)

    is_c : (c : String) → 0 < blocked pair_edges [] c → "c" ≡ c
    is_c c h = ground (arith, eq_iff "c" c, h)

complete_run-Releases_example :
    let t = complete_run memory "j" ("p" ∷ []) pair_store in
    (rs : List String) × (memory.entries t k_tasks
      ≡ memory.entries pair_store k_tasks ++ map (ready_entry "j") rs)
    × (memory.entries t k_errors ≡ memory.entries pair_store k_errors)
    × Releases pair_edges ("p" ∷ []) [] rs
unfolding mem has_edge
complete_run-Releases_example =
    complete_run-Releases memory "j" ("p" ∷ []) memory_laws pair_edges (refl, tt) ("p" ∷ []) []
      pair_store pair-Tracks (refl, refl, tt)

complete_task-Did_example :
    let k = script_call "p" "j" in
    Did memory k
      (memory.smembers pair_store (children "p"))
      pair_store
      (complete_task memory k pair_store).0
      0
      (complete_task memory k pair_store).1
complete_task-Did_example =
    complete_task-Did memory (script_call "p" "j") memory_laws (script_call-IsSeparate "p" "j")
      pair_store

complete_task_twice_example :
    let k = script_call "p" "j" in
    complete_task memory k (complete_task memory k pair_store).0
    ≡ ((complete_task memory k pair_store).0, 0)
complete_task_twice_example =
    complete_task_twice memory (script_call "p" "j") memory_laws (script_call-IsSeparate "p" "j")
      pair_store

name_injective_example : built of_children "ab" ≡ built of_children ("a" <> "b")
unfolding build children
name_injective_example =
    name_injective (built of_children "ab") (built of_children ("a" <> "b")) refl
