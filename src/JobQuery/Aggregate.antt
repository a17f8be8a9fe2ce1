-- ===== src/JobQuery/Aggregate.antt =====
-- What the state of a job says about its tasks.
use distributed_task_system.Common.{
  ℕ, zero, suc, ◌+◌, ◌≤◌, ◌<◌, ◌≡◌, refl, ◌↔◌, inl, inr, Bool, true, false, not, ◌||◌, List, [],
  ◌∷◌, arith, ◌==◌, if◌then◌else◌, Bool-cases, length, ℤ, pos, negsuc,
}
use distributed_task_system.Scheduler.{
  TaskState, code, running, success, failed, timed_out, cancelled,
}
use distributed_task_system.JobQuery.{
  TaskDetail, Class, succeeded, broke, runs, waits, classify, Counts, count_one, tally, job_pending,
  job_success, job_failed, job_state, no_counts,
}

abbrev same_class : Class → Class → Bool
same_class succeeded succeeded = true
same_class broke broke = true
same_class runs runs = true
same_class waits waits = true
same_class _ _ = false

-- How many tasks are in a class.
unfoldable how_many : Class → List TaskDetail → ℕ
how_many k [] = 0
how_many k (d ∷ ds) =
    let rest = how_many k ds in if same_class k (classify d.state) then suc rest else rest

-- The counters after the loop.
record IsTally (ds : List TaskDetail) (c t : Counts) : Type 0 where
  success : t.success_cnt ≡ c.success_cnt + how_many succeeded ds
  failed : t.failed_cnt ≡ c.failed_cnt + how_many broke ds
  running : t.running_cnt ≡ c.running_cnt + how_many runs ds
  pending : t.pending_cnt ≡ c.pending_cnt + how_many waits ds

tally-IsTally : (ds : List TaskDetail) (c : Counts) → IsTally ds c (tally ds c)
unfolding tally how_many
tally-IsTally [] c = record {
  success = omega arith;
  failed = omega arith;
  running = omega arith;
  pending = omega arith;
}
tally-IsTally (d ∷ ds) c =
    one (classify d.state) refl (tally-IsTally ds (count_one (classify d.state) c))
  where
    one :
        (k : Class)
        → classify d.state ≡ k
        → IsTally ds (count_one k c) (tally ds (count_one k c))
        → IsTally (d ∷ ds) c (tally ds (count_one k c))
    one succeeded e t = record {
      success = rw e (omega (arith, t.success));
      failed = rw e (omega (arith, t.failed));
      running = rw e (omega (arith, t.running));
      pending = rw e (omega (arith, t.pending));
    }
    one broke e t = record {
      success = rw e (omega (arith, t.success));
      failed = rw e (omega (arith, t.failed));
      running = rw e (omega (arith, t.running));
      pending = rw e (omega (arith, t.pending));
    }
    one runs e t = record {
      success = rw e (omega (arith, t.success));
      failed = rw e (omega (arith, t.failed));
      running = rw e (omega (arith, t.running));
      pending = rw e (omega (arith, t.pending));
    }
    one waits e t = record {
      success = rw e (omega (arith, t.success));
      failed = rw e (omega (arith, t.failed));
      running = rw e (omega (arith, t.running));
      pending = rw e (omega (arith, t.pending));
    }

sum_of_classes :
    (ds : List TaskDetail)
    → how_many succeeded ds + how_many broke ds + how_many runs ds + how_many waits ds ≡ length ds
unfolding how_many
sum_of_classes [] = omega arith
sum_of_classes (d ∷ ds) = one (classify d.state) (sum_of_classes ds)
  where
    one :
        (k : Class)
        → how_many succeeded ds + how_many broke ds + how_many runs ds + how_many waits ds
          ≡ length ds
        → (if same_class succeeded k then suc (how_many succeeded ds) else how_many succeeded ds)
            + (if same_class broke k then suc (how_many broke ds) else how_many broke ds)
            + (if same_class runs k then suc (how_many runs ds) else how_many runs ds)
            + (if same_class waits k then suc (how_many waits ds) else how_many waits ds)
          ≡ suc (length ds)
    one succeeded e = omega (arith, e)
    one broke e = omega (arith, e)
    one runs e = omega (arith, e)
    one waits e = omega (arith, e)

-- The state as the counters give it.
counts_state :
    (c : Counts) (total good bad idle : ℕ)
    → 0 < total
    → c.success_cnt + c.failed_cnt + c.running_cnt + c.pending_cnt ≤ total
    → c.success_cnt ≡ good
    → c.failed_cnt ≡ bad
    → c.pending_cnt ≡ idle
    → ((job_state c total ≡ job_failed) ↔ (0 < bad))
      × ((job_state c total ≡ job_success) ↔ (good ≡ total))
      × ((job_state c total ≡ job_pending) ↔ (idle ≡ total))
unfolding job_state
counts_state c total good bad idle some_task reported g b i = (
  (λ h. ground (arith, h), λ h. ground (arith, h)),
  (λ h. ground (arith, h), λ h. ground (arith, h)),
  (λ h. ground (arith, h), λ h. ground (arith, h)),
)

-- Is the state of a task one of these states of dts.task.TaskState?
abbrev pub is_one_of : List TaskState → ℤ → Bool
is_one_of [] z = false
is_one_of (t ∷ ts) (pos n) = n == code t || is_one_of ts (pos n)
is_one_of (t ∷ ts) (negsuc n) = false

-- How many tasks are in one of the states.
unfoldable pub how_many_in : List TaskState → List TaskDetail → ℕ
how_many_in ts [] = 0
how_many_in ts (d ∷ ds) =
    let rest = how_many_in ts ds in if is_one_of ts d.state then suc rest else rest

-- The states that stand for success, for failure, and for a start.
abbrev pub good_states : List TaskState
good_states = success ∷ []

abbrev pub bad_states : List TaskState
bad_states = failed ∷ timed_out ∷ cancelled ∷ []

abbrev pub started_states : List TaskState
started_states = running ∷ success ∷ failed ∷ timed_out ∷ cancelled ∷ []

-- The classes of the switch are these states.
class_of_state :
    (z : ℤ)
    → (same_class succeeded (classify z) ≡ is_one_of good_states z)
      × (same_class broke (classify z) ≡ is_one_of bad_states z)
      × (same_class waits (classify z) ≡ not (is_one_of started_states z))
class_of_state (negsuc n) = (refl, refl, refl)
class_of_state (pos zero) = (refl, refl, refl)
class_of_state (pos (suc zero)) = (refl, refl, refl)
class_of_state (pos (suc (suc zero))) = (refl, refl, refl)
class_of_state (pos (suc (suc (suc zero)))) = (refl, refl, refl)
class_of_state (pos (suc (suc (suc (suc zero))))) = (refl, refl, refl)
class_of_state (pos (suc (suc (suc (suc (suc zero)))))) = (refl, refl, refl)
class_of_state (pos (suc (suc (suc (suc (suc (suc m))))))) =
    rw
      (
        not_small m 1 (omega arith),
        not_small m 2 (omega arith),
        not_small m 3 (omega arith),
        not_small m 4 (omega arith),
        not_small m 5 (omega arith),
      )
      (refl, refl, refl)
  where
    not_small : (m k : ℕ) → k < 6 → (suc (suc (suc (suc (suc (suc m))))) == k) ≡ false
    not_small m k h = ground (arith, h)

module _ (k : Class) (ts : List TaskState)
    (same : (z : ℤ) → same_class k (classify z) ≡ is_one_of ts z) where
  how_many-states : (ds : List TaskDetail) → how_many k ds ≡ how_many_in ts ds
  unfolding how_many how_many_in
  how_many-states [] = refl
  how_many-states (d ∷ ds) = rw (same d.state, how_many-states ds) refl

waiting_states :
    (ds : List TaskDetail) → how_many waits ds + how_many_in started_states ds ≡ length ds
unfolding how_many how_many_in
waiting_states [] = omega arith
waiting_states (d ∷ ds) =
    rw (class_of_state d.state).2 (elim (Bool-cases (is_one_of started_states d.state)) [
      | inl on ↦ rw on (omega (arith, waiting_states ds))
      | inr off ↦ rw off (omega (arith, waiting_states ds))
    ])

-- The state of a job with `total` tasks, at least one, at most as many of them reported: it has failed exactly
-- when the state of some reported task is FAILED, TIMEOUT or CANCELLED; it has succeeded exactly when
-- `total` tasks are reported in the state SUCCESS; and it is pending exactly when `total` tasks are
-- reported, none of them RUNNING, SUCCESS, FAILED, TIMEOUT or CANCELLED.
pub job_state-classes :
    (ds : List TaskDetail) (total : ℕ)
    → 0 < total
    → length ds ≤ total
    → let s = job_state (tally ds no_counts) total in
      ((s ≡ job_failed) ↔ (0 < how_many_in bad_states ds))
      × ((s ≡ job_success) ↔ (how_many_in good_states ds ≡ total))
      × ((s ≡ job_pending) ↔ ((length ds ≡ total) × (how_many_in started_states ds ≡ 0)))
job_state-classes ds total some_task reported =
    let t = tally-IsTally ds no_counts in
    let sum = sum_of_classes ds in
    let (f, g, p) =
      counts_state (tally ds no_counts) total (how_many_in good_states ds)
        (how_many_in bad_states ds) (how_many waits ds) some_task
        (omega (arith, t.success, t.failed, t.running, t.pending, sum, reported))
        (omega
          (arith, t.success, how_many-states succeeded good_states (λ z. (class_of_state z).0) ds))
        (omega (arith, t.failed, how_many-states broke bad_states (λ z. (class_of_state z).1) ds))
        (omega (arith, t.pending)) in
    let w = waiting_states ds in
    (
      f,
      g,
      (
        λ e. (omega (arith, p.0 e, w, reported), omega (arith, p.0 e, w, reported)),
        λ e. p.1 (omega (arith, e.0, e.1, w)),
      ),
    )
