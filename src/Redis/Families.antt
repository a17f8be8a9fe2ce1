-- ===== src/Redis/Families.antt =====
-- The keys of src/common/include/redis/RedisKeys.hpp taken together: no two of them are one.
use Prim.Native.String.{◌++◌ as ◌<>◌, slice, len}
use text.Mathlib.TextLemmas.{append_cancel_left, append_assoc}
use text.Mathlib.TextPositions.{slice-append_left}
use distributed_task_system.Common.{
  String, ◌≡◌, refl, sym, ap, subst, ◌∙◌, ◌⊎◌, inl, inr, Option, none, some, str_eq, if◌then◌else◌,
}
use distributed_task_system.Redis.Keys.{
  k_tasks, k_errors, k_group_main, children, dependency_hash, task_meta, task_runtime, job_tasks,
  worker_key, resource_lock, scheduler_leader, tag,
}

-- The families of keys, each with its builder, and the names that are fixed.
pub data Family : Type 0 where
  of_children : Family
  of_deps : Family
  of_meta : Family
  of_runtime : Family
  of_job_tasks : Family
  of_worker : Family
  of_resource : Family

pub data Fixed : Type 0 where
  the_tasks : Fixed
  the_errors : Fixed
  the_group : Fixed
  the_leader : Fixed

pub data Key : Type 0 where
  built : Family → String → Key
  fixed : Fixed → Key

unfoldable pub build : Family → String → String
build of_children id = children id
build of_deps id = dependency_hash id
build of_meta id = task_meta id
build of_runtime id = task_runtime id
build of_job_tasks id = job_tasks id
build of_worker id = worker_key id
build of_resource id = resource_lock id

unfoldable pub fixed_name : Fixed → String
fixed_name the_tasks = k_tasks
fixed_name the_errors = k_errors
fixed_name the_group = k_group_main
fixed_name the_leader = scheduler_leader

-- What a key is called in Redis.
abbrev pub name : Key → String
name (built b id) = build b id
name (fixed f) = fixed_name f

abbrev prefix : Family → String
prefix of_children = "dts:dag:children:"
prefix of_deps = "dts:dag:deps:"
prefix of_meta = "dts:task:meta:"
prefix of_runtime = "dts:task:runtime:"
prefix of_job_tasks = "dts:job:tasks:"
prefix of_worker = "dts:worker:"
prefix of_resource = "dts:lock:resource:"

build-prefix : (b : Family) (id : String) → build b id ≡ prefix b <> id
unfolding build children dependency_hash task_meta task_runtime job_tasks worker_key resource_lock
build-prefix of_children id = refl
build-prefix of_deps id = refl
build-prefix of_meta id = refl
build-prefix of_runtime id = refl
build-prefix of_job_tasks id = refl
build-prefix of_worker id = refl
build-prefix of_resource id = refl

-- The first ten bytes of what a builder makes.
abbrev tag_of : Family → String
tag_of of_children = "dts:dag:ch"
tag_of of_deps = "dts:dag:de"
tag_of of_meta = "dts:task:m"
tag_of of_runtime = "dts:task:r"
tag_of of_job_tasks = "dts:job:ta"
tag_of of_worker = "dts:worker"
tag_of of_resource = "dts:lock:r"

tag-cut : (s t id : String) → len s ≡ 10 → tag ((s <> t) <> id) ≡ s
tag-cut s t id e =
    ap tag (append_assoc s t id)
    ∙ subst (λ n. slice (s <> (t <> id)) 0 n ≡ s) e (slice-append_left s (t <> id))

tag-prefix : (b : Family) (id : String) → tag (prefix b <> id) ≡ tag_of b
tag-prefix of_children id = tag-cut "dts:dag:ch" "ildren:" id refl
tag-prefix of_deps id = tag-cut "dts:dag:de" "ps:" id refl
tag-prefix of_meta id = tag-cut "dts:task:m" "eta:" id refl
tag-prefix of_runtime id = tag-cut "dts:task:r" "untime:" id refl
tag-prefix of_job_tasks id = tag-cut "dts:job:ta" "sks:" id refl
tag-prefix of_worker id = tag-cut "dts:worker" ":" id refl
tag-prefix of_resource id = tag-cut "dts:lock:r" "esource:" id refl

-- Where a key with this tag comes from.
abbrev kind_at : String → String → Option (Family ⊎ Fixed)
kind_at s t =
    if str_eq t "dts:dag:ch"
    then some (inl of_children)
    else if str_eq t "dts:dag:de"
    then some (inl of_deps)
    else if str_eq t "dts:task:m"
    then some (inl of_meta)
    else if str_eq t "dts:task:r"
    then some (inl of_runtime)
    else if str_eq t "dts:job:ta"
    then some (inl of_job_tasks)
    else if str_eq t "dts:worker"
    then some (inl of_worker)
    else if str_eq t "dts:lock:r"
    then some (inl of_resource)
    else if str_eq t "dts:lock:s"
    then some (inr the_leader)
    else if str_eq t "dts:group:"
    then some (inr the_group)
    else if str_eq s "dts:stream:tasks"
    then some (inr the_tasks)
    else some (inr the_errors)

abbrev kind_of : String → Option (Family ⊎ Fixed)
kind_of s = kind_at s (tag s)

kind_at-tag_of : (b : Family) (s : String) → kind_at s (tag_of b) ≡ some (inl b)
kind_at-tag_of of_children s = refl
kind_at-tag_of of_deps s = refl
kind_at-tag_of of_meta s = refl
kind_at-tag_of of_runtime s = refl
kind_at-tag_of of_job_tasks s = refl
kind_at-tag_of of_worker s = refl
kind_at-tag_of of_resource s = refl

kind_of-build : (b : Family) (id : String) → kind_of (build b id) ≡ some (inl b)
kind_of-build b id =
    ap (kind_at (build b id)) (ap tag (build-prefix b id) ∙ tag-prefix b id)
    ∙ kind_at-tag_of b (build b id)

kind_of-fixed_name : (f : Fixed) → kind_of (fixed_name f) ≡ some (inr f)
unfolding fixed_name
kind_of-fixed_name the_tasks = refl
kind_of-fixed_name the_errors = refl
kind_of-fixed_name the_group = refl
kind_of-fixed_name the_leader = refl

-- A kind, for the families only.
abbrev family_of : Option (Family ⊎ Fixed) → Family → Family
family_of (some (inl b)) d = b
family_of (some (inr f)) d = d
family_of none d = d

abbrev fixed_of : Option (Family ⊎ Fixed) → Fixed → Fixed
fixed_of (some (inr f)) d = f
fixed_of (some (inl b)) d = d
fixed_of none d = d

-- Two keys with the same name are made by the same builder from the same id, or are the same fixed name.
pub name_injective : (j k : Key) → name j ≡ name k → j ≡ k
name_injective (built b x) (built c y) e =
    let same =
      ap (λ k. family_of k b) (sym (kind_of-build b x) ∙ ap kind_of e ∙ kind_of-build c y) in
    let ids =
      append_cancel_left (prefix c) x y
        (ap (λ d. prefix d <> x) (sym same) ∙ sym (build-prefix b x) ∙ e ∙ build-prefix c y) in
    ap (λ d. built d x) same ∙ ap (built c) ids
name_injective (built b x) (fixed f) e =
    cc (sym (kind_of-build b x) ∙ ap kind_of e ∙ kind_of-fixed_name f)
name_injective (fixed f) (built b x) e =
    cc (sym (kind_of-build b x) ∙ ap kind_of (sym e) ∙ kind_of-fixed_name f)
name_injective (fixed f) (fixed g) e =
    ap (λ k. fixed (fixed_of k f))
      (sym (kind_of-fixed_name f) ∙ ap kind_of e ∙ kind_of-fixed_name g)
