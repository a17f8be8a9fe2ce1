-- ===== src/Submitter/Queue/Ids.antt =====
-- The ids that SubmitDagAsync gives to the tasks of a request.
use distributed_task_system.Common.{
  ℕ, suc, eq_of_some-eq-some, ◌<◌, String, ◌≡◌, refl, sym, ap, ◌∙◌, ◌⊎◌, inl, inr, ◌||◌, some, List,
  [], ◌∷◌, arith, str_eq, eq_iff, Bool-cases, is_some, Dict, find, put, find-put,
}
use distributed_task_system.Submitter.{PbTask, SubmitDagRequest, uuid_of}
use distributed_task_system.Submitter.Pipeline.OneTask.{names, IsInjective}
use distributed_task_system.Submitter.Pipeline.Tracked.{IsNamed}
use distributed_task_system.Submitter.Queue.{assign, new_item}

module _ (generate : ℕ → String) (distinct : (i j : ℕ) → generate i ≡ generate j → i ≡ j) where
  -- The ids of the table are among the first `k`, and no two names share one.
  record Assigned (m : Dict String) (k : ℕ) : Type 0 where
    below : (x c : String) → find x m ≡ some c → (i : ℕ) × (i < k) × (c ≡ generate i)
    one_name : (x y c : String) → find x m ≡ some c → find y m ≡ some c → x ≡ y

  put-Assigned :
      (m : Dict String) (k : ℕ) (n : String)
      → Assigned m k
      → Assigned (put n (generate k) m) (suc k)
  put-Assigned m k n a = record { below = below; one_name = one_name }
    where
      found :
          (x c : String)
          → find x (put n (generate k) m) ≡ some c
          → ((n ≡ x) × (c ≡ generate k)) ⊎ (find x m ≡ some c)
      found x c h = elim (Bool-cases (str_eq n x)) [
        | inl y ↦ inl (
          (eq_iff n x).0 y,
          sym (eq_of_some-eq-some _ _ (rw (find-put n x (generate k) m, y) at h)),
        )
        | inr z ↦ inr (rw (find-put n x (generate k) m, z) at h)
      ]

      below :
          (x c : String)
          → find x (put n (generate k) m) ≡ some c
          → (i : ℕ) × (i < suc k) × (c ≡ generate i)
      below x c h = elim (found x c h) [
        | inl (e, g) ↦ (k, omega arith, g)
        | inr f ↦ (let (i, lt, g) = a.below x c f in (i, omega (arith, lt), g))
      ]

      clash : (y c : String) → find y m ≡ some c → c ≡ generate k → ⊥
      clash y c f g =
          let (i, lt, g') = a.below y c f in
          let e = distinct i k (sym g' ∙ g) in omega (arith, lt, e)

      one_name :
          (x y c : String)
          → find x (put n (generate k) m) ≡ some c
          → find y (put n (generate k) m) ≡ some c
          → x ≡ y
      one_name x y c hx hy = elim (found x c hx) [
        | inl (e, g) ↦ elim (found y c hy) [
          | inl (e', g') ↦ sym e ∙ e'
          | inr f ↦ absurd (clash y c f g)
        ]
        | inr f ↦ elim (found y c hy) [
          | inl (e', g') ↦ absurd (clash x c f g')
          | inr f' ↦ a.one_name x y c f f'
        ]
      ]

  assign-Assigned :
      (ts : List PbTask) (k : ℕ) (m : Dict String)
      → Assigned m k
      → let (k', m') = assign generate k ts m in Assigned m' k'
  unfolding assign
  assign-Assigned [] k m a = a
  assign-Assigned (t ∷ ts) k m a =
      assign-Assigned ts (suc k) (put t.natural_id (generate k) m) (put-Assigned m k t.natural_id a)

  empty-Assigned : (k : ℕ) → Assigned [] k
  unfolding find
  empty-Assigned k = record {
    below = λ x c h. ground (arith, h);
    one_name = λ x y c h h'. ground (arith, h);
  }

  -- Where no two generated ids are equal, no two names of a request get the same id.
  pub new_item-IsInjective :
      (k : ℕ) (req : SubmitDagRequest) → IsInjective (new_item generate k req).ctx
  new_item-IsInjective k req =
      (assign-Assigned req.tasks (suc k) [] (empty-Assigned (suc k))).one_name

module _ (generate : ℕ → String) where
  -- What has a name after the loop.
  find-assign :
      (ts : List PbTask) (k : ℕ) (m : Dict String) (n : String)
      → is_some (find n (assign generate k ts m).1) ≡ (names n ts || is_some (find n m))
  unfolding assign names
  find-assign [] k m n = refl
  find-assign (t ∷ ts) k m n = ground (
    arith,
    find-assign ts (suc k) (put t.natural_id (generate k) m) n,
    find-put t.natural_id n (generate k) m,
  )

  -- The names that get an id are those of the tasks of the request, and no others.
  pub new_item-names :
      (k : ℕ) (req : SubmitDagRequest) (n : String)
      → is_some (uuid_of (new_item generate k req).ctx n) ≡ names n req.tasks
  unfolding find
  new_item-names k req n = find-assign req.tasks (suc k) [] n ∙ ground arith

  pub new_item-IsNamed :
      (k : ℕ) (req : SubmitDagRequest) → IsNamed req (new_item generate k req).ctx
  new_item-IsNamed k req n c e = sym (new_item-names k req n) ∙ ap is_some e
