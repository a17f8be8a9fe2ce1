-- ===== src/Tests/Queries.antt =====
-- The theorems of `JobQuery` at jobs with two and three tasks.
use distributed_task_system.Common.{
  ℕ, ◌<◌, String, ◌≡◌, refl, ◌↔◌, inl, inr, true, Option, none, some, List, [], ◌∷◌, arith, str_eq,
  eq_iff, if◌then◌else◌, Bool-cases, length, mem, count, pos, Dict,
}
use distributed_task_system.JobQuery.Once.{ids_of_details, Answers, fetch_reports_once}
use distributed_task_system.JobQuery.{
  DetailRow, fetch_task_details, TaskDetail, tally, job_state, job_pending, job_success, job_failed,
  no_counts,
}
use distributed_task_system.JobQuery.Aggregate.{
  how_many_in, good_states, bad_states, started_states, job_state-classes,
}

abbrev detail : String → ℕ → TaskDetail
detail id n = record {
  task_id = id;
  state = pos n;
  worker_id = "";
  error_message = "";
  retry_count = pos 0;
  result_payload = "";
}

-- One task has succeeded, and the other has timed out.
abbrev two_details : List TaskDetail
two_details = detail "a" 2 ∷ detail "b" 4 ∷ []

job_state-classes_example :
    let s = job_state (tally two_details no_counts) 2 in
    ((s ≡ job_failed) ↔ (0 < how_many_in bad_states two_details))
    × ((s ≡ job_success) ↔ (how_many_in good_states two_details ≡ 2))
    × ((s ≡ job_pending)
        ↔ ((length two_details ≡ 2) × (how_many_in started_states two_details ≡ 0)))
job_state-classes_example = job_state-classes two_details 2 (omega arith) (omega arith)

-- "a" has a hash, "b" a row, and "c" neither.
abbrev replies : String → Dict String
replies id = if str_eq id "a" then ("state", "2") ∷ [] else []

abbrev b_row : DetailRow
b_row = record {
  task_id = "b";
  state = some (pos 4);
  worker_id = none;
  error_msg = none;
  result_payload = none;
  retry_count = none;
}

abbrev select_b : List String → Option (List DetailRow)
select_b ids = some (if mem "b" ids then b_row ∷ [] else [])

select_b-Answers : Answers select_b true (λ id. str_eq id "b")
unfolding count
select_b-Answers ids = inr (
  refl,
  if mem "b" ids then b_row ∷ [] else [],
  refl,
  λ x. elim (Bool-cases (str_eq x "b")) [
    | inl y ↦
        rw ((eq_iff x "b").0 y)
          (elim (Bool-cases (mem "b" ids)) [ inl m ↦ rw m refl | inr n ↦ rw n refl ])
    | inr z ↦ elim (Bool-cases (mem "b" ids)) [
      | inl m ↦ rw m (rw z (ground arith))
      | inr n ↦ rw n (ground (arith, z))
    ]
  ],
)

fetch_reports_once_example :
    count "b" (
      ids_of_details (
        fetch_task_details (λ s. some (pos 2)) (some replies) select_b true ("a" ∷ "b" ∷ "c" ∷ [])))
    ≡ 1
unfolding mem
fetch_reports_once_example =
    fetch_reports_once (λ s. some (pos 2)) (some replies) select_b true (λ id. str_eq id "b") true
      ("a" ∷ "b" ∷ "c" ∷ []) "b" select_b-Answers (refl, (refl, (refl, tt)))
