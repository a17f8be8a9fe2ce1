-- ===== src/Scheduler/Service/Outcomes.antt =====
-- What UpdateTaskStatus does with the report of a failure.
use distributed_task_system.Common.{
  ℕ, suc, String, ◌≡◌, refl, sym, ◌∙◌, inl, inr, Bool, true, false, ◌&&◌, Option, none, some, List,
  [], ◌∷◌, ◌++◌, str_eq, ltb, if◌then◌else◌, Bool-cases,
}
use mathlib.Core.List.{append-nil}
use distributed_task_system.Redis.{Redis, RedisLaws, Fields, text}
use distributed_task_system.Redis.Keys.{k_tasks}
use distributed_task_system.Scheduler.{
  code, pending, failed, Row, find_row, update_where, find_row-update_where,
}
use distributed_task_system.Scheduler.Repository.{
  is_task, retry_row, fail_row, handle_task_failure, get_task_by_id,
}
use distributed_task_system.Scheduler.Repository.Retries.{find_row-task_id}
use distributed_task_system.Scheduler.Service.{
  UpdateTaskStatusRequest, Script, World, to_x_add_args, is_success, report_failure,
  update_task_status,
}

abbrev may_retry : Row → Bool
may_retry t = ltb t.retry_count t.max_retry

-- The row of the task after the report: waiting again with one retry more, without a worker, a start or
-- an end; or FAILED, with the time. Both keep the error.
abbrev pub reported_row : ℕ → String → Row → Row
reported_row now error t =
    if may_retry t
    then record t {
      state = code pending;
      retry_count = suc t.retry_count;
      worker_id = none;
      start_ts = none;
      finish_ts = none;
      error_msg = some error;
    }
    else record t { state = code failed; finish_ts = some now; error_msg = some error }

-- The message of a retry, if there is to be one and it can be sent.
abbrev pub retry_message : Bool → Row → List Fields
retry_message sends t =
    if may_retry t && sends then (("id", text t.task_id) ∷ ("job", text t.job_id) ∷ []) ∷ [] else []

updated_row :
    (id : String) (f : Row → Row) (rows : List Row) (t : Row)
    → ((x : Row) → (f x).task_id ≡ x.task_id)
    → find_row id rows ≡ some t
    → find_row id (update_where (is_task id) f rows) ≡ some (f t)
updated_row id f rows t keeps e =
    find_row-update_where (is_task id) f keeps id rows ∙ rw (e, find_row-task_id id rows t e) refl

module _ (r : Redis) (laws : RedisLaws r) (parse : String → Option String) (now : ℕ)
    (q : UpdateTaskStatusRequest) where
  open r use {entries}

  read_again :
      (rows : List Row) (t : Row) (params : String)
      → (if str_eq t.func_params "" then some "" else parse t.func_params) ≡ some params
      → find_row q.task_id rows ≡ some t
      → get_task_by_id true parse q.task_id rows ≡ some (record t { func_params = params })
  unfolding get_task_by_id
  read_again rows t params p e = rw (e, p) refl

  -- The report of a state other than SUCCESS for a task of the table, where both transactions can
  -- be run, the parameters of the task can be parsed and Redis keeps its laws: while its retry_count
  -- is below its max_retry, the row becomes PENDING with one retry more and no worker, start or end,
  -- and one message with the ids of the task and the job is appended to the task stream, unless XAdd
  -- fails, which leaves the stream and no other sign; otherwise the row becomes FAILED with the time,
  -- and nothing is sent. The error is kept in the row. Nothing is queued for the batcher in any case.
  pub failure_outcome :
      (script : Script) (sends : Bool) (w : World r) (t : Row) (params : String)
      → str_eq q.task_id "" ≡ false
      → is_success q.final_state ≡ false
      → find_row q.task_id w.rows ≡ some t
      → (if str_eq t.func_params "" then some "" else parse t.func_params) ≡ some params
      → let w' = update_task_status r script true true sends parse now q w in
        (find_row q.task_id w'.rows ≡ some (reported_row now q.error_msg t))
        × (entries w'.store k_tasks ≡ entries w.store k_tasks ++ retry_message sends t)
        × (w'.queue ≡ w.queue)
  unfolding update_task_status report_failure handle_task_failure
  failure_outcome script sends w t params named fails e p = elim (Bool-cases (may_retry t)) [
    | inl y ↦
        (let rows' = update_where (is_task q.task_id) (retry_row q.error_msg) w.rows in
          let row' = updated_row q.task_id (retry_row q.error_msg) w.rows t (λ x. refl) e in
          let found = read_again rows' (retry_row q.error_msg t) params p row' in
          elim (Bool-cases sends) [
            | inl can ↦
                rw (named, fails, e, y)
                  (rw (found, can)
                    (
                      row',
                      laws.entries-xadd w.store k_tasks (to_x_add_args t.task_id t.job_id),
                      refl,
                    ))
            | inr cannot ↦
                rw (named, fails, e, y) (rw (found, cannot) (row', sym (append-nil _), refl))
          ])
    | inr z ↦
        rw (named, fails, e, z)
          ((
            updated_row q.task_id (fail_row now q.error_msg) w.rows t (λ x. refl) e,
            sym (append-nil _),
            refl,
          ))
  ]
