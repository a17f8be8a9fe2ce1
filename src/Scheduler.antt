-- ===== src/Scheduler.antt =====
-- scheduler: task rows (task_repository.cpp), status updates (db_batcher.cpp), workers
-- (worker_manager.cpp), the gRPC handlers (scheduler_service_impl.cpp) and the dispatch loop
-- (scheduler_loop.cpp), and the patrol (main.cpp).
pub mod Repository
pub mod Batcher
pub mod Workers
pub mod Service
pub mod Loop
pub mod Patrol
use distributed_task_system.Common.{
  ℕ, suc, String, ◌≡◌, refl, ap, ◌∙◌, inl, inr, Bool, Option, none, some, List, [], ◌∷◌, str_eq,
  if◌then◌else◌, Bool-cases,
}

-- dts.task.TaskState.
pub data TaskState : Type 0 where
  pending : TaskState
  running : TaskState
  success : TaskState
  failed : TaskState
  timed_out : TaskState
  cancelled : TaskState
  waiting : TaskState

abbrev pub code : TaskState → ℕ
code pending = 0
code running = 1
code success = 2
code failed = 3
code timed_out = 4
code cancelled = 5
code waiting = 6

-- A row of the table task.
pub record Row : Type 0 where
  pub task_id : String
  pub job_id : String
  pub natural_id : String
  pub func_name : String
  pub func_params : String
  pub priority : ℕ
  pub state : ℕ
  pub max_retry : ℕ
  pub retry_count : ℕ
  pub timeout_ms : ℕ
  pub submit_ts : ℕ
  pub worker_id : Option String
  pub start_ts : Option ℕ
  pub finish_ts : Option ℕ
  pub error_msg : Option String
  pub result : Option String

-- SELECT ... WHERE task_id = $1, the first row.
unfoldable pub find_row : String → List Row → Option Row
find_row id [] = none
find_row id (r ∷ rs) = if str_eq r.task_id id then some r else find_row id rs

-- UPDATE task SET ... WHERE ..., and its affected_rows.
unfoldable pub update_where : (Row → Bool) → (Row → Row) → List Row → List Row
update_where p f [] = []
update_where p f (r ∷ rs) = (if p r then f r else r) ∷ update_where p f rs

unfoldable pub affected_rows : (Row → Bool) → List Row → ℕ
affected_rows p [] = 0
affected_rows p (r ∷ rs) = let rest = affected_rows p rs in if p r then suc rest else rest

abbrev pub change : (Row → Bool) → (Row → Row) → Option Row → Option Row
change p f none = none
change p f (some r) = some (if p r then f r else r)

-- A task is found again after an update that keeps the ids.
pub find_row-update_where :
    (p : Row → Bool) (f : Row → Row) (keeps : (r : Row) → (f r).task_id ≡ r.task_id) (id : String)
    (rs : List Row)
    → find_row id (update_where p f rs) ≡ change p f (find_row id rs)
unfolding find_row update_where
find_row-update_where p f keeps id [] = refl
find_row-update_where p f keeps id (r ∷ rs) =
    let kept = ap (λ z. str_eq z id) (keeps r) in
    elim (Bool-cases (p r)) [
      | inl y ↦ elim (Bool-cases (str_eq r.task_id id)) [
        | inl e ↦ rw (y, kept ∙ e, e) (rw y refl)
        | inr e ↦ rw (y, kept ∙ e, e) (find_row-update_where p f keeps id rs)
      ]
      | inr z ↦ elim (Bool-cases (str_eq r.task_id id)) [
        | inl e ↦ rw (z, e) (rw z refl)
        | inr e ↦ rw (z, e) (find_row-update_where p f keeps id rs)
      ]
    ]
