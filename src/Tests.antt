-- ===== src/Tests.antt =====
-- Concrete inputs: a request with four tasks (a before b and c, both before d), and ids in unary.
pub mod Awaiting
pub mod Bodies
pub mod Serving
pub mod Submission
pub mod Completing
pub mod Scheduling
pub mod Queries
pub mod Building
pub mod Pools
pub mod Conversions
pub mod Working
pub mod Services
pub mod Acking
pub mod Spreading
pub mod Flushing
use Prim.Native.String.{slice, ◌++◌ as ◌<>◌}
use text.Mathlib.TextLemmas.{append_cancel_left}
use text.Mathlib.TextPositions.{slice-append_left}
use distributed_task_system.Common.{
  ℕ, zero, suc, String, ◌≡◌, refl, sym, ap, ◌∙◌, ◌≢◌, [], ◌∷◌, str_eq, eq_refl,
}
use distributed_task_system.Submitter.{PbTask, PbTaskEdge, SubmitDagRequest, DagCommitContext}
use distributed_task_system.Submitter.Database.{Database}
use distributed_task_system.Submitter.Queue.{new_item}

-- The ids "z", "xz", "xxz" and so on.
unfoldable pub unary_id : ℕ → String
unary_id zero = "z"
unary_id (suc n) = "x" <> unary_id n

unary_id_ne : (n : ℕ) → unary_id 0 ≢ unary_id (suc n)
unfolding unary_id
unary_id_ne n e =
    cc (ap (str_eq "z") (ap (λ k. slice k 0 1) e ∙ slice-append_left "x" (unary_id n)), eq_refl "z")

pub unary_id_injective : (i j : ℕ) → unary_id i ≡ unary_id j → i ≡ j
unfolding unary_id
unary_id_injective zero zero e = refl
unary_id_injective zero (suc j) e = absurd (unary_id_ne j e)
unary_id_injective (suc i) zero e = absurd (unary_id_ne i (sym e))
unary_id_injective (suc i) (suc j) e =
    ap suc (unary_id_injective i j (append_cancel_left "x" (unary_id i) (unary_id j) e))

abbrev pub small_task : String → PbTask
small_task name = record {
  task_id = "";
  job_id = "";
  natural_id = name;
  func_name = "print";
  func_params = "";
  priority = 1;
  max_retry = 2;
  timeout_ms = 1000;
}

abbrev pub edge : String → String → PbTaskEdge
edge p c = record { parent_natural_id = p; child_natural_id = c }

abbrev pub diamond : SubmitDagRequest
diamond = record {
  idempotency_key = "key";
  tasks = small_task "a" ∷ small_task "b" ∷ small_task "c" ∷ small_task "d" ∷ [];
  edges = edge "a" "b" ∷ edge "a" "c" ∷ edge "b" "d" ∷ edge "c" "d" ∷ [];
}

abbrev pub diamond_ctx : DagCommitContext
diamond_ctx = (new_item unary_id 0 diamond).ctx

abbrev pub no_tables : Database
no_tables = record { jobs = []; tasks = []; edges = [] }

abbrev pub task_name : PbTask → String
task_name t = t.natural_id
