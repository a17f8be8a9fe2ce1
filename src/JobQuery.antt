-- ===== src/JobQuery.antt =====
-- JobQueryHandler of src/api-server/src/job_query_handler.cpp.
pub mod Aggregate
pub mod Once
use distributed_task_system.Common.{
  ℕ, suc, ◌>>=◌, ◌>>◌, ◌+◌, String, Bool, ◌||◌, Option, none, some, List, [], ◌∷◌, ◌++◌, map,
  str_eq, ltb, ◌==◌, if◌then◌else◌, get_or, length, is_empty, ℤ, pos, negsuc, Dict, find,
}

pub record TaskDetail : Type 0 where
  pub task_id : String
  pub state : ℤ
  pub worker_id : String
  pub error_message : String
  pub retry_count : ℤ
  pub result_payload : String

abbrev empty_detail : String → TaskDetail
empty_detail id = record {
  task_id = id;
  state = pos 0;
  worker_id = "";
  error_message = "";
  retry_count = pos 0;
  result_payload = "";
}

-- SafeStringToInt with its default 0; `from_chars` is std::from_chars.
abbrev pub safe_string_to_int : (String → Option ℤ) → String → ℤ
safe_string_to_int from_chars s = if str_eq s "" then pos 0 else get_or (from_chars s) (pos 0)

-- The detail of a task whose runtime hash is not empty.
abbrev pub detail_of_hash : (String → Option ℤ) → Bool → String → Dict String → TaskDetail
detail_of_hash from_chars need_payload id hash = record {
  task_id = id;
  state = safe_string_to_int from_chars (get_or (find "state" hash) "");
  worker_id = get_or (find "worker_id" hash) "";
  error_message = get_or (find "error" hash) "";
  retry_count = safe_string_to_int from_chars (get_or (find "retries" hash) "");
  result_payload = if need_payload then get_or (find "result" hash) "" else "";
}

-- A row of the query on the table task; `none` is NULL.
pub record DetailRow : Type 0 where
  pub task_id : String
  pub state : Option ℤ
  pub worker_id : Option String
  pub error_msg : Option String
  pub result_payload : Option String
  pub retry_count : Option ℤ

abbrev pub detail_of_row : Bool → DetailRow → TaskDetail
detail_of_row need_payload r = record {
  task_id = r.task_id;
  state = get_or r.state (pos 0);
  worker_id = get_or r.worker_id "";
  error_message = get_or r.error_msg "";
  retry_count = get_or r.retry_count (pos 0);
  result_payload = if need_payload then get_or r.result_payload "" else "";
}

-- The replies of the pipeline, one hash for each task: the details that are there, and the ids that are missed.
unfoldable pub read_replies :
    (String → Option ℤ) → Bool → List (String × Dict String) → List TaskDetail × List String
read_replies from_chars need_payload [] = ([], [])
read_replies from_chars need_payload ((id, hash) ∷ rest) =
    let (details, missed) = read_replies from_chars need_payload rest in
    if is_empty hash
    then (details, id ∷ missed)
    else (detail_of_hash from_chars need_payload id hash ∷ details, missed)

-- The first argument is the pipeline, `none` where it fails; `query` is the query on the table, `none`
-- where it throws.
abbrev pub from_redis :
    (String → Option ℤ)
    → Bool
    → List String
    → Option (String → Dict String)
    → List TaskDetail × List String
from_redis from_chars need_payload ids none = ([], ids)
from_redis from_chars need_payload ids (some reply) =
    read_replies from_chars need_payload (map (λ id. (id, reply id)) ids)

abbrev pub from_table : Bool → Option (List DetailRow) → List TaskDetail
from_table need_payload none = []
from_table need_payload (some rows) = map (detail_of_row need_payload) rows

unfoldable pub fetch_task_details :
    (String → Option ℤ)
    → Option (String → Dict String)
    → (List String → Option (List DetailRow))
    → Bool
    → List String
    → List TaskDetail
fetch_task_details from_chars pipe query need_payload ids =
    let (details, missed) = from_redis from_chars need_payload ids pipe in
    details ++ (if is_empty missed then [] else from_table need_payload (query missed))

-- The switch on the state of a task.
pub data Class : Type 0 where
  succeeded : Class
  broke : Class
  runs : Class
  waits : Class

abbrev pub classify : ℤ → Class
classify (pos n) =
    if n == 2
    then succeeded
    else if n == 3 || n == 4 || n == 5
    then broke
    else if n == 1
    then runs
    else waits
classify (negsuc n) = waits

pub record Counts : Type 0 where
  pub success_cnt : ℕ
  pub failed_cnt : ℕ
  pub running_cnt : ℕ
  pub pending_cnt : ℕ

abbrev pub count_one : Class → Counts → Counts
count_one succeeded c = record c { success_cnt = suc c.success_cnt }
count_one broke c = record c { failed_cnt = suc c.failed_cnt }
count_one runs c = record c { running_cnt = suc c.running_cnt }
count_one waits c = record c { pending_cnt = suc c.pending_cnt }

unfoldable pub tally : List TaskDetail → Counts → Counts
tally [] c = c
tally (d ∷ ds) c = tally ds (count_one (classify d.state) c)

pub data JobState : Type 0 where
  job_pending : JobState
  job_running : JobState
  job_success : JobState
  job_failed : JobState

-- Step 3, for the number of the tasks of the job.
unfoldable pub job_state : Counts → ℕ → JobState
job_state c total =
    if ltb 0 c.failed_cnt
    then job_failed
    else if ltb 0 c.running_cnt
    then job_running
    else if c.success_cnt == total
    then job_success
    else if c.pending_cnt == total
    then job_pending
    else job_running

abbrev pub no_counts : Counts
no_counts = record { success_cnt = 0; failed_cnt = 0; running_cnt = 0; pending_cnt = 0 }

pub record JobStatus : Type 0 where
  pub total_tasks : ℕ
  pub finished_tasks : ℕ
  pub state : JobState
  pub task_details : List TaskDetail

pub data Response : Type 0 where
  job_not_found : Response
  status : JobStatus → Response

abbrev ids_of : Option (List String) → List String
ids_of none = []
ids_of (some ids) = ids

abbrev respond : (Bool → List String → List TaskDetail) → Bool → List String → Response
respond fetch include_tasks ids =
    if is_empty ids
    then job_not_found
    else (let details = fetch include_tasks ids in
        let c = tally details no_counts in
        status (record {
          total_tasks = length ids;
          finished_tasks = c.success_cnt + c.failed_cnt;
          state = job_state c (length ids);
          task_details = details;
        }))

-- Handle: the ids from Redis, `none` where SMEMBERS throws, and those from the table, where `none` is an exception that
-- leaves the handler.
unfoldable pub handle :
    (Bool → List String → List TaskDetail)
    → Option (List String)
    → Option (List String)
    → Bool
    → Option Response
handle fetch redis_ids db_ids include_tasks =
    let cached = ids_of redis_ids in
    if is_empty cached
    then (do ids ← db_ids; some (respond fetch include_tasks ids))
    else some (respond fetch include_tasks cached)
