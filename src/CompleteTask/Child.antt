-- ===== src/CompleteTask/Child.antt =====
-- What the script does for one child of the task: the counter, the metadata, and one message at most.
use distributed_task_system.Common.{
  ℕ, zero, suc, ◌+◌, String, ◌≡◌, refl, sym, ap, ◌∙◌, ◌≢◌, inl, inr, Bool, true, false, ◌&&◌,
  Option, none, some, List, [], ◌∷◌, ◌++◌, map, arith, str_eq, eq_iff, eq_refl, if◌then◌else◌,
  Bool-cases, get_or, length, select, mem, ℤ, pos, negsuc, ◌+ℤ◌,
}
use mathlib.Core.List.{append-nil}
use distributed_task_system.Redis.{Fields, Redis, RedisLaws}
use distributed_task_system.Redis.Keys.{task_meta}
use distributed_task_system.CompleteTask.{
  release, on_remain, ScriptCall, ready_entry, missing_meta_entry, negative_deps_entry,
}

-- The keys of a call are different, and none of them is the key of a task's metadata.
pub record IsSeparate (k : ScriptCall) : Type 0 where
  pub tasks_deps : k.tasks_key ≢ k.deps_key
  pub errors_deps : k.errors_key ≢ k.deps_key
  pub tasks_errors : k.tasks_key ≢ k.errors_key
  pub children_deps : k.children_key ≢ k.deps_key
  pub children_tasks : k.children_key ≢ k.tasks_key
  pub children_errors : k.children_key ≢ k.errors_key
  pub deps_meta : (c : String) → k.deps_key ≢ task_meta c
  pub tasks_meta : (c : String) → k.tasks_key ≢ task_meta c
  pub errors_meta : (c : String) → k.errors_key ≢ task_meta c
  pub children_meta : (c : String) → k.children_key ≢ task_meta c

abbrev pub gather : (String → List Fields) → List String → List Fields
gather f [] = []
gather f (c ∷ cs) = f c ++ gather f cs

pub gather_none :
    (f : String → List Fields) (xs : List String)
    → ((x : String) → mem x xs ≡ true → f x ≡ [])
    → gather f xs ≡ []
unfolding mem
gather_none f [] h = refl
gather_none f (x ∷ xs) h =
    rw (h x (ground (arith, eq_refl x))) (gather_none f xs (λ y m. h y (ground (arith, m))))

pub gather_congr :
    (f g : String → List Fields) (xs : List String)
    → ((x : String) → mem x xs ≡ true → f x ≡ g x)
    → gather f xs ≡ gather g xs
unfolding mem
gather_congr f g [] h = refl
gather_congr f g (x ∷ xs) h =
    cc (h x (ground (arith, eq_refl x)), gather_congr f g xs (λ y m. h y (ground (arith, m))))

module _ (r : Redis) (k : ScriptCall) where
  open r use {Store, smembers, hget, exists, entries}

  -- The counter of a child after the decrement.
  abbrev pub remaining : Store → String → ℤ
  remaining s c = get_or (hget s k.deps_key c) (pos 0) +ℤ negsuc 0

  abbrev is_zero : ℤ → Bool
  is_zero (pos zero) = true
  is_zero _ = false

  -- The last dependency of the child is the one that completes, and its metadata is there.
  abbrev pub is_ready : Store → String → Bool
  is_ready s c = is_zero (remaining s c) && exists s (task_meta c)

  abbrev pub counter_after : Store → String → Option ℤ
  counter_after s c = if is_ready s c then none else some (remaining s c)

  abbrev error_of : Bool → String → ℤ → List Fields
  error_of true c (pos zero) = []
  error_of false c (pos zero) = missing_meta_entry k.job_id c ∷ []
  error_of there c (pos (suc m)) = []
  error_of there c (negsuc m) = negative_deps_entry k.job_id c (negsuc m) ∷ []

  -- The reports that a child gives rise to.
  abbrev pub errors_for : Store → String → List Fields
  errors_for s c = error_of (exists s (task_meta c)) c (remaining s c)

  -- What a part of the script has done, having met the children `cs`.
  pub record Did (cs : List String) (s t : Store) (n m : ℕ) : Type 0 where
    pub counters :
        (f : String)
        → hget t k.deps_key f ≡ (if mem f cs then counter_after s f else hget s k.deps_key f)
    pub metas : (c : String) → exists t (task_meta c) ≡ exists s (task_meta c)
    pub tasks :
        entries t k.tasks_key
        ≡ entries s k.tasks_key ++ map (ready_entry k.job_id) (select (is_ready s) cs)
    pub errors : entries t k.errors_key ≡ entries s k.errors_key ++ gather (errors_for s) cs
    pub triggered : m ≡ n + length (select (is_ready s) cs)

  module _ (laws : RedisLaws r) (sep : IsSeparate k) where
    -- After the HINCRBY of step 2.1.
    record Decremented (c : String) (s t : Store) : Type 0 where
      counters :
          (f : String)
          → hget t k.deps_key f ≡ (if str_eq c f then some (remaining s c) else hget s k.deps_key f)
      metas : (x : String) → exists t (task_meta x) ≡ exists s (task_meta x)
      tasks : entries t k.tasks_key ≡ entries s k.tasks_key
      errors : entries t k.errors_key ≡ entries s k.errors_key

    hincrby-Decremented :
        (c : String) (s : Store) → Decremented c s (r.hincrby s k.deps_key c (negsuc 0)).1
    hincrby-Decremented c s = record {
      counters = laws.hget-hincrby s k.deps_key c (negsuc 0);
      metas = λ x.
          (laws.hincrby_frame s k.deps_key c (negsuc 0) (task_meta x)
            (sep.deps_meta x)).same_exists;
      tasks =
          (laws.hincrby_frame s k.deps_key c (negsuc 0) k.tasks_key
            (λ e. sep.tasks_deps (sym e))).same_entries;
      errors =
          (laws.hincrby_frame s k.deps_key c (negsuc 0) k.errors_key
            (λ e. sep.errors_deps (sym e))).same_entries;
    }

    -- One message for the error stream.
    reported :
        (c : String) (s t : Store) (n : ℕ) (e : Fields)
        → Decremented c s t
        → is_ready s c ≡ false
        → errors_for s c ≡ e ∷ []
        → Did (c ∷ []) s (r.xadd t k.errors_key e) n n
    unfolding mem select
    reported c s t n e d unready one =
        let frame = λ (j : String) (h : k.errors_key ≢ j). laws.xadd_frame t k.errors_key e j h in
        record {
          counters = λ f. ground (
            arith,
            (frame k.deps_key sep.errors_deps).same_hash f,
            d.counters f,
            eq_iff f c,
            eq_iff c f,
          );
          metas = λ x. (frame (task_meta x) (sep.errors_meta x)).same_exists ∙ d.metas x;
          tasks =
              rw (unready, append-nil)
                ((frame k.tasks_key (λ e. sep.tasks_errors (sym e))).same_entries ∙ d.tasks);
          errors = rw one (laws.entries-xadd t k.errors_key e ∙ ap (λ l. l ++ e ∷ []) d.errors);
          triggered = rw unready (omega arith);
        }

    -- A child whose counter stays above zero.
    waiting :
        (c : String) (s t : Store) (n : ℕ)
        → Decremented c s t
        → is_ready s c ≡ false
        → errors_for s c ≡ []
        → Did (c ∷ []) s t n n
    unfolding mem select
    waiting c s t n d unready none_there = record {
      counters = λ f. ground (arith, d.counters f, eq_iff f c, eq_iff c f);
      metas = d.metas;
      tasks = rw (unready, append-nil) d.tasks;
      errors = rw (none_there, append-nil) d.errors;
      triggered = rw unready (omega arith);
    }

    -- A child that is released: one message, and its counter is removed.
    released :
        (c : String) (s t : Store) (n : ℕ)
        → Decremented c s t
        → is_ready s c ≡ true
        → errors_for s c ≡ []
        → Did
            (c ∷ [])
            s
            (r.hdel (r.xadd t k.tasks_key (ready_entry k.job_id c)) k.deps_key c)
            n
            (n + 1)
    unfolding mem select
    released c s t n d ready none_there =
        let e = ready_entry k.job_id c in
        let u = r.xadd t k.tasks_key e in
        let frame = λ (j : String) (h : k.tasks_key ≢ j). laws.xadd_frame t k.tasks_key e j h in
        let drop_frame = λ (j : String) (h : k.deps_key ≢ j). laws.hdel_frame u k.deps_key c j h in
        record {
          counters = λ f. ground (
            arith,
            (frame k.deps_key sep.tasks_deps).same_hash f,
            d.counters f,
            laws.hget-hdel u k.deps_key c f,
            eq_iff f c,
            eq_iff c f,
          );
          metas = λ x.
              (drop_frame (task_meta x) (sep.deps_meta x)).same_exists
              ∙ (frame (task_meta x) (sep.tasks_meta x)).same_exists
              ∙ d.metas x;
          tasks = rw ready (
              (drop_frame k.tasks_key (λ h. sep.tasks_deps (sym h))).same_entries
              ∙ laws.entries-xadd t k.tasks_key e
              ∙ ap (λ l. l ++ e ∷ []) d.tasks);
          errors =
              rw (none_there, append-nil)
                ((drop_frame k.errors_key (λ h. sep.errors_deps (sym h))).same_entries
                  ∙ (frame k.errors_key sep.tasks_errors).same_entries
                  ∙ d.errors);
          triggered = rw ready (omega arith);
        }

    on_remain-Did :
        (c : String) (s t : Store) (n : ℕ) (v : ℤ)
        → remaining s c ≡ v
        → Decremented c s t
        → Did (c ∷ []) s (on_remain r k c v t n).0 n (on_remain r k c v t n).1
    unfolding on_remain
    on_remain-Did c s t n (pos zero) e d = elim (Bool-cases (exists s (task_meta c))) [
      | inl there ↦
          rw (d.metas c ∙ there) (released c s t n d (ground (arith, e)) (ground (arith, e)))
      | inr gone ↦ rw (d.metas c ∙ gone) (
          reported c s t n (missing_meta_entry k.job_id c) d (ground (arith, e))
            (ground (arith, e)))
    ]
    on_remain-Did c s t n (pos (suc m)) e d =
        waiting c s t n d (ground (arith, e)) (ground (arith, e))
    on_remain-Did c s t n (negsuc m) e d =
        reported c s t n (negative_deps_entry k.job_id c (negsuc m)) d (ground (arith, e))
          (ground (arith, e))

    pub release-Did :
        (c : String) (s : Store) (n : ℕ)
        → Did (c ∷ []) s (release r k c s n).0 n (release r k c s n).1
    unfolding release
    release-Did c s n =
        on_remain-Did c s _ n _ (sym (laws.hincrby_reply s k.deps_key c (negsuc 0)))
          (hincrby-Decremented c s)
