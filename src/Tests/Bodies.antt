-- ===== src/Tests/Bodies.antt =====
-- The theorem of `WorkerNode.Bodies` at a task that has no parameters: its func_params is null.
use distributed_task_system.Common.{
  ℕ, String, ◌≡◌, refl, ◌⊎◌, inl, inr, some, str_eq, if◌then◌else◌,
}
use distributed_task_system.Scheduler.{failed}
use distributed_task_system.Converters.Json.{Json, null}
use distributed_task_system.Converters.Tasks.{Task}
use distributed_task_system.WorkerNode.{returns, TaskHandler, get_handler, execute}
use distributed_task_system.WorkerNode.Bodies.{task_registry, processes, name_of, body_reports}
use distributed_task_system.Tests.Conversions.{finished}

abbrev parse : String → String ⊎ Json ℕ
parse t = if str_eq t "null" then inr null else inl "parse_error"

abbrev text : Json ℕ → String
text null = "null"
text j = "{}"

abbrev plain : Task ℕ ℕ
plain = record finished { func_params = null }

-- Without parameters process_data fails, since null is no object.
body_reports_example :
    (h : TaskHandler) × (get_handler
        (name_of processes)
        (task_registry parse text (λ n. n) "type_error")
      ≡ some h)
    × ((execute (λ j. returns (text j)) (plain, h)).final_state ≡ failed)
body_reports_example = body_reports parse text (λ n. n) "type_error" processes plain refl
