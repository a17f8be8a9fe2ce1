-- ===== src/CompleteTask/Frame.antt =====
-- The script writes to the keys that it was given, and to no other.
use distributed_task_system.Common.{
  ℕ, zero, suc, String, ◌≢◌, inl, inr, List, [], ◌∷◌, Bool-cases, List-cases, ℤ, pos, negsuc,
}
use distributed_task_system.Redis.{Redis, RedisLaws, SameAt, SameAt-refl, SameAt-trans}
use distributed_task_system.Redis.Keys.{task_meta}
use distributed_task_system.CompleteTask.{
  ScriptCall, on_remain, release, release_all, complete_task,
}

pub record IsOther (k : ScriptCall) (j : String) : Type 0 where
  pub not_children : k.children_key ≢ j
  pub not_deps : k.deps_key ≢ j
  pub not_tasks : k.tasks_key ≢ j
  pub not_errors : k.errors_key ≢ j

module _ (r : Redis) (k : ScriptCall) (laws : RedisLaws r) (j : String) (o : IsOther k j) where
  open r use {Store, exists}

  on_remain_frame :
      (c : String) (v : ℤ) (s : Store) (n : ℕ) → SameAt r s (on_remain r k c v s n).0 j
  unfolding on_remain
  on_remain_frame c (pos zero) s n = elim (Bool-cases (exists s (task_meta c))) [
    | inl there ↦ rw there (
        SameAt-trans r (laws.xadd_frame s k.tasks_key _ j o.not_tasks)
          (laws.hdel_frame _ k.deps_key c j o.not_deps))
    | inr gone ↦ rw gone (laws.xadd_frame s k.errors_key _ j o.not_errors)
  ]
  on_remain_frame c (pos (suc m)) s n = SameAt-refl r s j
  on_remain_frame c (negsuc m) s n = laws.xadd_frame s k.errors_key _ j o.not_errors

  release_all_frame :
      (cs : List String) (s : Store) (n : ℕ) → SameAt r s (release_all r k cs s n).0 j
  unfolding release_all release
  release_all_frame [] s n = SameAt-refl r s j
  release_all_frame (c ∷ cs) s n =
      SameAt-trans r
        (SameAt-trans r (laws.hincrby_frame s k.deps_key c (negsuc 0) j o.not_deps)
          (on_remain_frame c _ _ n))
        (release_all_frame cs _ _)

  -- Any other key answers as before.
  pub complete_task_frame : (s : Store) → SameAt r s (complete_task r k s).0 j
  unfolding complete_task
  complete_task_frame s = elim (List-cases (r.smembers s k.children_key)) [
    | inl e ↦ rw e (SameAt-refl r s j)
    | inr (c, cs, e) ↦ rw e (
        SameAt-trans r (release_all_frame (c ∷ cs) s 0)
          (laws.del_frame _ k.children_key j o.not_children))
  ]
