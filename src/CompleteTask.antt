-- ===== src/CompleteTask.antt =====
-- src/common/include/redis/scripts/complete_task.hpp: the Lua script that runs in Redis when a task succeeds.
pub mod Child
pub mod Effect
pub mod Frame
use distributed_task_system.Common.{
  ℕ, zero, suc, ◌+◌, String, List, [], ◌∷◌, if◌then◌else◌, is_empty, ℤ, pos, negsuc,
}
use distributed_task_system.Redis.{Fields, Redis, text, number}
use distributed_task_system.Redis.Keys.{task_meta}

-- KEYS[1] to KEYS[4] and ARGV[1].
pub record ScriptCall : Type 0 where
  pub children_key : String
  pub deps_key : String
  pub tasks_key : String
  pub errors_key : String
  pub job_id : String

-- The message that puts a child into the task stream.
abbrev pub ready_entry : String → String → Fields
ready_entry job_id child_id = ("task_id", text child_id) ∷ ("job_id", text job_id) ∷ []

abbrev pub missing_meta_entry : String → String → Fields
missing_meta_entry job_id child_id =
    ("type", text "MISSING_META")
    ∷ ("job_id", text job_id)
    ∷ ("task_id", text child_id)
    ∷ ("reason", text "Meta data not found when dependency met")
    ∷ []

abbrev pub negative_deps_entry : String → String → ℤ → Fields
negative_deps_entry job_id child_id remain =
    ("type", text "NEGATIVE_DEPS")
    ∷ ("job_id", text job_id)
    ∷ ("task_id", text child_id)
    ∷ ("current_val", number remain)
    ∷ []

module _ (r : Redis) (k : ScriptCall) where
  open r use {Store, smembers, exists, hincrby, hdel, xadd, del}

  -- Step 2.2, for the counter's new value.
  on_remain : String → ℤ → Store → ℕ → Store × ℕ
  on_remain child_id (pos zero) s n =
      if exists s (task_meta child_id)
      then (hdel (xadd s k.tasks_key (ready_entry k.job_id child_id)) k.deps_key child_id, n + 1)
      else (xadd s k.errors_key (missing_meta_entry k.job_id child_id), n)
  on_remain child_id (pos (suc m)) s n = (s, n)
  on_remain child_id (negsuc m) s n =
      (xadd s k.errors_key (negative_deps_entry k.job_id child_id (negsuc m)), n)

  -- The body of the loop over the children.
  pub release : String → Store → ℕ → Store × ℕ
  unfolding on_remain
  release child_id s n =
      let (remain, t) = hincrby s k.deps_key child_id (negsuc 0) in on_remain child_id remain t n

  pub release_all : List String → Store → ℕ → Store × ℕ
  release_all [] s n = (s, n)
  release_all (c ∷ cs) s n = let (t, m) = release c s n in release_all cs t m

  -- The whole script: the store it leaves, and the number that it returns.
  unfoldable pub complete_task : Store → Store × ℕ
  unfolding release_all release
  complete_task s =
      let children = smembers s k.children_key in
      if is_empty children
      then (s, 0)
      else (let (t, triggered_count) = release_all children s 0 in
          (del t k.children_key, triggered_count))
