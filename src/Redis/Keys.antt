-- ===== src/Redis/Keys.antt =====
-- src/common/include/redis/RedisKeys.hpp: the names of the keys, and that no two of them collide.
use Prim.Native.String.{◌++◌ as ◌<>◌}
use text.Mathlib.TextLemmas.{append_cancel_left, append_assoc}
use Prim.Native.String.{slice}
use text.Mathlib.TextPositions.{slice-append_left}
use distributed_task_system.Common.{String, ◌≡◌, ap, ◌∙◌, ◌≢◌, false, str_eq, eq_refl}

-- namespace stream
abbrev pub k_tasks : String
k_tasks = "dts:stream:tasks"

abbrev pub k_errors : String
k_errors = "dts:stream:errors"

abbrev pub k_group_main : String
k_group_main = "dts:group:main"

-- namespace dag
unfoldable pub children : String → String
children task_id = "dts:dag:children:" <> task_id

unfoldable pub dependency_hash : String → String
dependency_hash job_id = "dts:dag:deps:" <> job_id

unfoldable pub task_meta : String → String
task_meta task_id = "dts:task:meta:" <> task_id

-- namespace state
unfoldable pub task_runtime : String → String
task_runtime task_id = "dts:task:runtime:" <> task_id

unfoldable pub job_tasks : String → String
job_tasks job_id = "dts:job:tasks:" <> job_id

unfoldable pub worker_key : String → String
worker_key worker_name = "dts:worker:" <> worker_name

-- namespace lock
unfoldable pub resource_lock : String → String
resource_lock resource_name = "dts:lock:resource:" <> resource_name

abbrev pub scheduler_leader : String
scheduler_leader = "dts:lock:scheduler:leader"

pub children_injective : (a b : String) → children a ≡ children b → a ≡ b
unfolding children
children_injective a b h = append_cancel_left "dts:dag:children:" a b h

pub task_meta_injective : (a b : String) → task_meta a ≡ task_meta b → a ≡ b
unfolding task_meta
task_meta_injective a b h = append_cancel_left "dts:task:meta:" a b h

pub dependency_hash_injective : (a b : String) → dependency_hash a ≡ dependency_hash b → a ≡ b
unfolding dependency_hash
dependency_hash_injective a b h = append_cancel_left "dts:dag:deps:" a b h

-- The first ten bytes tell the families of keys apart.
abbrev pub tag : String → String
tag k = slice k 0 10

tag-children : (a : String) → tag (children a) ≡ "dts:dag:ch"
unfolding children
tag-children a =
    ap tag (append_assoc "dts:dag:ch" "ildren:" a) ∙ slice-append_left "dts:dag:ch" ("ildren:" <> a)

tag-dependency_hash : (a : String) → tag (dependency_hash a) ≡ "dts:dag:de"
unfolding dependency_hash
tag-dependency_hash a =
    ap tag (append_assoc "dts:dag:de" "ps:" a) ∙ slice-append_left "dts:dag:de" ("ps:" <> a)

tag-task_meta : (a : String) → tag (task_meta a) ≡ "dts:task:m"
unfolding task_meta
tag-task_meta a =
    ap tag (append_assoc "dts:task:m" "eta:" a) ∙ slice-append_left "dts:task:m" ("eta:" <> a)

tag_ne : (j k : String) → str_eq (tag j) (tag k) ≡ false → j ≢ k
tag_ne j k h e = cc (h, eq_refl (tag k), ap (λ t. str_eq (tag t) (tag k)) e)

pub children-ne-dependency_hash : (a b : String) → children a ≢ dependency_hash b
children-ne-dependency_hash a b = tag_ne _ _ (rw (tag-children a, tag-dependency_hash b))

pub children-ne-task_meta : (a b : String) → children a ≢ task_meta b
children-ne-task_meta a b = tag_ne _ _ (rw (tag-children a, tag-task_meta b))

pub dependency_hash-ne-task_meta : (a b : String) → dependency_hash a ≢ task_meta b
dependency_hash-ne-task_meta a b = tag_ne _ _ (rw (tag-dependency_hash a, tag-task_meta b))

pub k_tasks-ne-children : (a : String) → k_tasks ≢ children a
k_tasks-ne-children a = tag_ne _ _ (rw (tag-children a))

pub k_tasks-ne-dependency_hash : (a : String) → k_tasks ≢ dependency_hash a
k_tasks-ne-dependency_hash a = tag_ne _ _ (rw (tag-dependency_hash a))

pub k_tasks-ne-task_meta : (a : String) → k_tasks ≢ task_meta a
k_tasks-ne-task_meta a = tag_ne _ _ (rw (tag-task_meta a))

pub k_errors-ne-children : (a : String) → k_errors ≢ children a
k_errors-ne-children a = tag_ne _ _ (rw (tag-children a))

pub k_errors-ne-dependency_hash : (a : String) → k_errors ≢ dependency_hash a
k_errors-ne-dependency_hash a = tag_ne _ _ (rw (tag-dependency_hash a))

pub k_errors-ne-task_meta : (a : String) → k_errors ≢ task_meta a
k_errors-ne-task_meta a = tag_ne _ _ (rw (tag-task_meta a))

pub k_tasks-ne-k_errors : k_tasks ≢ k_errors
k_tasks-ne-k_errors e = cc (eq_refl k_tasks, ap (str_eq k_tasks) e)
