-- ===== src/Submitter/Pipeline/OneTask.antt =====
-- What one task of a request leaves in the store: the payload, and its counter or its message.
use distributed_task_system.Common.{
  ℕ, eq_of_some-eq-some, String, ◌≡◌, refl, sym, ap, subst, ◌∙◌, ◌≢◌, inl, inr, Bool, true, false,
  ◌&&◌, ◌||◌, some, List, [], ◌∷◌, ◌++◌, arith, str_eq, eq_iff, ltb, if◌then◌else◌, Bool-cases, pos,
  Dict,
}
use mathlib.Core.List.{append-nil}
use distributed_task_system.Redis.{Redis, RedisLaws, SameAt, Fields}
use distributed_task_system.Redis.Keys.{
  task_meta, k_tasks, k_errors, children, dependency_hash, task_meta_injective,
  children-ne-dependency_hash, children-ne-task_meta, dependency_hash-ne-task_meta,
  k_tasks-ne-children, k_tasks-ne-dependency_hash, k_tasks-ne-task_meta,
  k_errors-ne-dependency_hash, k_errors-ne-task_meta, k_tasks-ne-k_errors,
}
use distributed_task_system.Submitter.{PbTask, DagCommitContext, uuid_of, dependency_count}
use distributed_task_system.Submitter.Pipeline.{Command, hset, xadd, x_add_fields, run_command}

-- Is there a task of this natural id in the request?
unfoldable pub names : String → List PbTask → Bool
names n [] = false
names n (t ∷ ts) = str_eq t.natural_id n || names n ts

-- Two natural ids never share a task id.
abbrev pub IsInjective : DagCommitContext → Type 0
IsInjective ctx = (m n c : String) → uuid_of ctx m ≡ some c → uuid_of ctx n ≡ some c → m ≡ n

or-false : (b : Bool) → (b || false) ≡ b
or-false true = refl
or-false false = refl

module _ (counts : Dict ℕ) (ctx : DagCommitContext) where
  abbrev pub pending : String → ℕ
  pending n = dependency_count counts n

  abbrev deps : String
  deps = dependency_hash ctx.job_id

  -- The second command of a task, and its message.
  abbrev pub dispatch : String → ℕ → Command
  dispatch uuid n =
      if ltb 0 n then hset deps uuid (pos n) else xadd k_tasks (x_add_fields uuid ctx.job_id)

  abbrev pub message : String → ℕ → List Fields
  message uuid n = if ltb 0 n then [] else x_add_fields uuid ctx.job_id ∷ []

  module _ (r : Redis) where
    open r use {Store, smembers, hget, exists, entries}

    -- The tasks `ts` have been sent, with the messages `es` for the task stream.
    pub record TasksDone (ts : List PbTask) (es : List Fields) (s t : Store) : Type 0 where
      pub sets : (p : String) → smembers t (children p) ≡ smembers s (children p)
      pub counter :
          (n c : String)
          → uuid_of ctx n ≡ some c
          → hget t deps c
            ≡ (if names n ts && ltb 0 (pending n) then some (pos (pending n)) else hget s deps c)
      pub meta :
          (n c : String)
          → uuid_of ctx n ≡ some c
          → exists t (task_meta c) ≡ (names n ts || exists s (task_meta c))
      pub tasks : entries t k_tasks ≡ entries s k_tasks ++ es
      pub errors : entries t k_errors ≡ entries s k_errors

    module _ (laws : RedisLaws r) (inj : IsInjective ctx) where
      module _ (t : PbTask) (uuid : String) (is_uuid : uuid_of ctx t.natural_id ≡ some uuid)
          (v : String) where
        -- The name of the task decides its id, and back.
        same_name : (n c : String) → uuid_of ctx n ≡ some c → str_eq t.natural_id n ≡ str_eq uuid c
        same_name n c e = elim (Bool-cases (str_eq t.natural_id n)) [
          | inl y ↦
              y
              ∙ sym (
                  (eq_iff uuid c).1 (
                    eq_of_some-eq-some _ _
                      (sym is_uuid ∙ ap (uuid_of ctx) ((eq_iff t.natural_id n).0 y) ∙ e)))
          | inr z ↦ elim (Bool-cases (str_eq uuid c)) [
            | inl y ↦
                (eq_iff t.natural_id n).1
                  (inj t.natural_id n c (is_uuid ∙ ap some ((eq_iff uuid c).0 y)) e)
                ∙ sym y
            | inr w ↦ z ∙ sym w
          ]
        ]

        meta_of :
            (s : Store) (n c : String)
            → uuid_of ctx n ≡ some c
            → exists (r.write s (task_meta uuid) v) (task_meta c)
              ≡ (str_eq t.natural_id n || exists s (task_meta c))
        meta_of s n c e = elim (Bool-cases (str_eq uuid c)) [
          | inl y ↦
              rw (same_name n c e, y)
                (subst (λ z. exists (r.write s (task_meta uuid) v) (task_meta z) ≡ true)
                  ((eq_iff uuid c).0 y) (laws.exists-write s (task_meta uuid) v))
          | inr z ↦
              rw (same_name n c e, z)
                (laws.write_frame s (task_meta uuid) v (task_meta c)
                  (λ k. cc ((eq_iff uuid c).1 (task_meta_injective uuid c k)))).same_exists
        ]

        written :
            (s : Store) (j : String)
            → task_meta uuid ≢ j
            → SameAt r s (r.write s (task_meta uuid) v) j
        written s j h = laws.write_frame s (task_meta uuid) v j h

        counted :
            (s : Store) (n : ℕ) (j : String) → deps ≢ j → SameAt r s (r.hset s deps uuid (pos n)) j
        counted s n j h = laws.hset_frame s deps uuid (pos n) j h

        sent :
            (s : Store) (j : String)
            → k_tasks ≢ j
            → SameAt r s (r.xadd s k_tasks (x_add_fields uuid ctx.job_id)) j
        sent s j h = laws.xadd_frame s k_tasks (x_add_fields uuid ctx.job_id) j h

        deps-ne-children : (p : String) → deps ≢ children p
        deps-ne-children p e = children-ne-dependency_hash p ctx.job_id (sym e)

        meta-ne-children : (p : String) → task_meta uuid ≢ children p
        meta-ne-children p e = children-ne-task_meta p uuid (sym e)

        meta-ne-deps : task_meta uuid ≢ deps
        meta-ne-deps e = dependency_hash-ne-task_meta ctx.job_id uuid (sym e)

        waiting_task :
            (s : Store)
            → ltb 0 (pending t.natural_id) ≡ true
            → TasksDone
                (t ∷ [])
                []
                s
                (r.hset (r.write s (task_meta uuid) v) deps uuid (pos (pending t.natural_id)))
        unfolding names
        waiting_task s waits =
            let u = r.write s (task_meta uuid) v in
            let n0 = pending t.natural_id in
            record {
              sets = λ p.
                  (counted u n0 (children p) (deps-ne-children p)).same_members
                  ∙ (written s (children p) (meta-ne-children p)).same_members;
              counter = λ n c e. ground (
                arith,
                laws.hget-hset u deps uuid (pos n0) c,
                same_name n c e,
                eq_iff t.natural_id n,
                (written s deps meta-ne-deps).same_hash c,
                waits,
              );
              meta = λ n c e.
                  (counted u n0 (task_meta c)
                    (dependency_hash-ne-task_meta ctx.job_id c)).same_exists
                  ∙ meta_of s n c e
                  ∙ ap (λ b. b || exists s (task_meta c)) (sym (or-false _));
              tasks =
                  (counted u n0 k_tasks
                    (λ e. k_tasks-ne-dependency_hash ctx.job_id (sym e))).same_entries
                  ∙ (written s k_tasks (λ e. k_tasks-ne-task_meta uuid (sym e))).same_entries
                  ∙ sym (append-nil _);
              errors =
                  (counted u n0 k_errors
                    (λ e. k_errors-ne-dependency_hash ctx.job_id (sym e))).same_entries
                  ∙ (written s k_errors (λ e. k_errors-ne-task_meta uuid (sym e))).same_entries;
            }

        ready_task :
            (s : Store)
            → ltb 0 (pending t.natural_id) ≡ false
            → TasksDone
                (t ∷ [])
                (x_add_fields uuid ctx.job_id ∷ [])
                s
                (r.xadd (r.write s (task_meta uuid) v) k_tasks (x_add_fields uuid ctx.job_id))
        unfolding names
        ready_task s ready =
            let u = r.write s (task_meta uuid) v in
            record {
              sets = λ p.
                  (sent u (children p) (k_tasks-ne-children p)).same_members
                  ∙ (written s (children p) (meta-ne-children p)).same_members;
              counter = λ n c e. ground (
                arith,
                (sent u deps (k_tasks-ne-dependency_hash ctx.job_id)).same_hash c,
                eq_iff t.natural_id n,
                (written s deps meta-ne-deps).same_hash c,
                ready,
              );
              meta = λ n c e.
                  (sent u (task_meta c) (k_tasks-ne-task_meta c)).same_exists
                  ∙ meta_of s n c e
                  ∙ ap (λ b. b || exists s (task_meta c)) (sym (or-false _));
              tasks =
                  laws.entries-xadd u k_tasks (x_add_fields uuid ctx.job_id)
                  ∙ ap (λ l. l ++ x_add_fields uuid ctx.job_id ∷ [])
                      (written s k_tasks (λ e. k_tasks-ne-task_meta uuid (sym e))).same_entries;
              errors =
                  (sent u k_errors k_tasks-ne-k_errors).same_entries
                  ∙ (written s k_errors (λ e. k_errors-ne-task_meta uuid (sym e))).same_entries;
            }

        pub one_task :
            (s : Store)
            → TasksDone (t ∷ []) (message uuid (pending t.natural_id)) s (
                run_command r (dispatch uuid (pending t.natural_id)) (r.write s (task_meta uuid) v))
        one_task s = elim (Bool-cases (ltb 0 (pending t.natural_id))) [
          | inl waits ↦ rw waits (waiting_task s waits)
          | inr ready ↦ rw ready (ready_task s ready)
        ]
