-- ===== src/Scheduler/Repository/Retries.antt =====
-- How often a task is retried.
use distributed_task_system.Common.{
  ℕ, suc, eq_of_some-eq-some, ◌-◌, ◌≤◌, String, ◌≡◌, refl, ap, subst, ◌∙◌, inl, inr, Bool, true,
  false, ◌&&◌, Option, none, some, List, [], ◌∷◌, arith, str_eq, eq_iff, ltb, if◌then◌else◌,
  Bool-cases, Option-cases,
}
use distributed_task_system.Scheduler.{Row, find_row, update_where, change, find_row-update_where}
use distributed_task_system.Scheduler.Repository.{
  is_task, retry_row, fail_row, handle_task_failure, is_pending_task, running_row,
  update_task_to_running, pending_row, revert_task_to_pending, is_orphan, requeue_orphaned_tasks,
}

-- A call of the repository, with whether its transaction can be run.
pub data Call : Type 0 where
  failure : Bool → ℕ → String → String → Call
  to_running : Bool → ℕ → String → String → Call
  revert : Bool → String → Call
  requeue : Bool → String → Call

-- What a call leaves, and whether it says that the task `id` is to be retried.
unfoldable pub call : String → Call → List Row → Bool × List Row
call id (failure ok now t error) rows =
    let (again, rows') = handle_task_failure ok now t error rows in (again && str_eq t id, rows')
call id (to_running ok now t w) rows = (false, (update_task_to_running ok now t w rows).1)
call id (revert ok t) rows = (false, (revert_task_to_pending ok t rows).1)
call id (requeue ok w) rows = (false, (requeue_orphaned_tasks ok w rows).1)

-- How often a sequence of calls says that `id` is to be retried.
unfoldable pub retries : String → List Call → List Row → ℕ
retries id [] rows = 0
retries id (c ∷ cs) rows =
    let (again, rows') = call id c rows in
    let rest = retries id cs rows' in if again then suc rest else rest

abbrev row_budget : Option Row → ℕ
row_budget none = 0
row_budget (some r) = r.max_retry - r.retry_count

-- The retries that the row of a task has left.
abbrev pub budget : String → List Row → ℕ
budget id rows = row_budget (find_row id rows)

pub find_row-task_id :
    (id : String) (rows : List Row) (r : Row)
    → find_row id rows ≡ some r
    → str_eq r.task_id id ≡ true
unfolding find_row
find_row-task_id id [] r h = ground (arith, h)
find_row-task_id id (x ∷ rows) r h = elim (Bool-cases (str_eq x.task_id id)) [
  | inl y ↦ subst (λ z. str_eq z.task_id id ≡ true) (eq_of_some-eq-some x r (rw y at h)) y
  | inr z ↦ find_row-task_id id rows r (rw z at h)
]

-- An update that keeps the ids and the two counters keeps every budget.
budget-update :
    (p : Row → Bool) (f : Row → Row)
    → ((r : Row) → (f r).task_id ≡ r.task_id)
    → ((r : Row) → ((f r).max_retry ≡ r.max_retry) × ((f r).retry_count ≡ r.retry_count))
    → (id : String) (rows : List Row) → budget id (update_where p f rows) ≡ budget id rows
budget-update p f keeps same id rows =
    ap row_budget (find_row-update_where p f keeps id rows) ∙ one (find_row id rows)
  where
    one : (o : Option Row) → row_budget (change p f o) ≡ row_budget o
    one none = refl
    one (some r) = elim (Bool-cases (p r)) [
      | inl y ↦ rw (y, (same r).0, (same r).1) refl
      | inr z ↦ rw z refl
    ]

retry_budget :
    (id t error : String) (rows : List Row) (r : Row)
    → find_row t rows ≡ some r
    → ltb r.retry_count r.max_retry ≡ true
    → (let rest = budget id (update_where (is_task t) (retry_row error) rows) in
        if str_eq t id then suc rest else rest)
      ≡ budget id rows
retry_budget id t error rows r e y = elim (Bool-cases (str_eq t id)) [
  | inl same ↦
      (let e' = subst (λ z. find_row z rows ≡ some r) ((eq_iff t id).0 same) e in
        rw same (
          ap (λ o. suc (row_budget o))
            (find_row-update_where (is_task t) (retry_row error) (λ x. refl) id rows)
          ∙ rw (e', find_row-task_id t rows r e) (spent r y)))
  | inr other ↦ rw other (
      ap row_budget (find_row-update_where (is_task t) (retry_row error) (λ x. refl) id rows)
      ∙ elim (Option-cases (find_row id rows)) [
        | inl n ↦ rw n refl
        | inr (x, ex) ↦ rw (ex, unmatched x (find_row-task_id id rows x ex) other) refl
      ])
]
  where
    spent :
        (x : Row)
        → ltb x.retry_count x.max_retry ≡ true
        → suc (x.max_retry - suc x.retry_count) ≡ x.max_retry - x.retry_count
    spent x h = ground (arith, h)

    unmatched :
        (x : Row) → str_eq x.task_id id ≡ true → str_eq t id ≡ false → str_eq x.task_id t ≡ false
    unmatched x h k = ground (arith, eq_iff x.task_id id, eq_iff x.task_id t, eq_iff t id, h, k)

failure_budget :
    (id : String) (now : ℕ) (t error : String) (rows : List Row)
    → let (again, rows') = handle_task_failure true now t error rows in
      (if again && str_eq t id then suc (budget id rows') else budget id rows') ≡ budget id rows
unfolding handle_task_failure
failure_budget id now t error rows = elim (Option-cases (find_row t rows)) [
  | inl n ↦ rw n refl
  | inr (r, e) ↦ elim (Bool-cases (ltb r.retry_count r.max_retry)) [
    | inl y ↦ rw (e, y) (retry_budget id t error rows r e y)
    | inr z ↦
        rw (e, z)
          (budget-update (is_task t) (fail_row now error) (λ x. refl) (λ x. (refl, refl)) id rows)
  ]
]

call-budget :
    (id : String) (c : Call) (rows : List Row)
    → let (again, rows') = call id c rows in
      (if again then suc (budget id rows') else budget id rows') ≡ budget id rows
unfolding call update_task_to_running revert_task_to_pending requeue_orphaned_tasks
    handle_task_failure
call-budget id (failure true now t error) rows = failure_budget id now t error rows
call-budget id (failure false now t error) rows = refl
call-budget id (to_running true now t w) rows =
    budget-update (is_pending_task t) (running_row now w) (λ x. refl) (λ x. (refl, refl)) id rows
call-budget id (to_running false now t w) rows = refl
call-budget id (revert true t) rows =
    budget-update (is_task t) pending_row (λ x. refl) (λ x. (refl, refl)) id rows
call-budget id (revert false t) rows = refl
call-budget id (requeue true w) rows =
    budget-update (is_orphan w) pending_row (λ x. refl) (λ x. (refl, refl)) id rows
call-budget id (requeue false w) rows = refl

-- However the calls of the repository follow each other, with whatever transactions failing, a
-- task is handed back for a retry at most as often as max_retry exceeds its retry_count at the start.
pub retries-bounded :
    (id : String) (cs : List Call) (rows : List Row) → retries id cs rows ≤ budget id rows
unfolding retries
retries-bounded id [] rows = omega arith
retries-bounded id (c ∷ cs) rows =
    ground (arith, call-budget id c rows, retries-bounded id cs (call id c rows).1)
