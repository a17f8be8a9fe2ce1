-- ===== src/WorkerNode/Driving.antt =====
-- Successes that workers report drive the workflow of a job: the handlers of the scheduler over the reports.
use distributed_task_system.Common.{
  ℕ, String, ◌≡◌, refl, sym, ap, ◌∙◌, true, false, Option, List, [], ◌∷◌, ◌++◌, map, str_eq, All,
}
use mathlib.Core.List.{append-nil, append_assoc}
use distributed_task_system.Redis.{Redis}
use distributed_task_system.CompleteTask.{complete_task}
use distributed_task_system.Workflow.Progress.{script_call, complete_run}
use distributed_task_system.Converters.Json.{Json}
use distributed_task_system.Scheduler.Batcher.{TaskUpdateOp, add_status_update}
use distributed_task_system.Scheduler.Service.{
  UpdateTaskStatusRequest, World, runs, status_op, report_success, update_task_status,
}
use distributed_task_system.WorkerNode.Reports.{Closure}
use distributed_task_system.WorkerNode.{Outcome, returns, handle_params, status_request, execute}

-- UpdateTaskStatus for reports one after the other, each at its time, where the script and the database
-- can be reached.
unfoldable pub handle_reports :
    (r : Redis) → (String → Option String) → List (ℕ × UpdateTaskStatusRequest) → World r → World r
handle_reports r parse [] w = w
handle_reports r parse ((now, q) ∷ qs) w =
    handle_reports r parse qs (update_task_status r runs true true true parse now q w)

module _ {N D : Type 0} (dump : Json N → Outcome) where
  -- The task is one of the job, and its handler returns.
  pub record Succeeds (job : String) (e : Closure N D) : Type 0 where
    pub of_job : e.0.job_id ≡ job
    pub has_id : str_eq e.0.task_id "" ≡ false
    pub result : String
    pub ends : handle_params e.1 (dump e.0.func_params) ≡ returns result

  abbrev pub reports_of : List (ℕ × Closure N D) → List (ℕ × UpdateTaskStatusRequest)
  reports_of es = map (λ e. (e.0, execute dump e.1)) es

  module _ (r : Redis) (parse : String → Option String) (job : String) where
    one_success :
        (now : ℕ) (e : Closure N D) (w : World r)
        → Succeeds job e
        → update_task_status r runs true true true parse now (execute dump e) w ≡ record w {
          store = (complete_task r (script_call e.0.task_id job) w.store).0;
          queue = w.queue ++ status_op (execute dump e) ∷ [];
        }
    unfolding update_task_status execute status_request report_success add_status_update
    one_success now e w s = rw (s.ends, s.has_id, s.of_job) refl

    -- Tasks of one job, each with an id, whose handlers return, are run by workers, and the scheduler handles their
    -- reports one after the other, over a script and a database that it reaches: the store goes through the run
    -- of completions of these tasks in the order of the reports, every result is queued for the table in
    -- that order, and the table is as it was.
    pub successes_complete :
        (es : List (ℕ × Closure N D)) (w : World r)
        → All (λ e. Succeeds job e.1) es
        → handle_reports r parse (reports_of es) w ≡ record {
          store = complete_run r job (map (λ e. e.1.0.task_id) es) w.store;
          queue =
              w.queue ++ map (λ (e : ℕ × UpdateTaskStatusRequest). status_op e.1) (reports_of es);
          rows = w.rows;
        }
    unfolding handle_reports complete_run
    successes_complete [] w s = λ i. record w { queue = sym (append-nil w.queue) i }
    successes_complete ((now, e) ∷ es) w s =
        ap (handle_reports r parse (reports_of es)) (one_success now e w s.0)
        ∙ successes_complete es _ s.1
        ∙ ap
            (λ (q : List TaskUpdateOp). record {
              store = complete_run r job (map (λ e. e.1.0.task_id) ((now, e) ∷ es)) w.store;
              queue = q;
              rows = w.rows;
            })
            (append_assoc w.queue (status_op (execute dump e) ∷ [])
              (map (λ (x : ℕ × UpdateTaskStatusRequest). status_op x.1) (reports_of es)))
