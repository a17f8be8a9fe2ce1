-- ===== src/WorkerNode/Bodies.antt =====
-- The task bodies of src/worker/src/tasks.cpp, with the registry that their macros fill. json::parse,
-- json::dump, the numbers of JSON and the text of a type_error are parameters; the waits are left out.
use distributed_task_system.Common.{
  ℕ, String, ◌≡◌, refl, ap, ◌∙◌, ◌⊎◌, inl, inr, Bool, true, false, Option, none, some, [],
  if◌then◌else◌, Dict, find, put,
}
use Prim.Native.String.{◌++◌ as ◌<>◌}
use distributed_task_system.Scheduler.{TaskState, success, failed}
use distributed_task_system.Converters.Json.{
  Json, null, boolean, number, string, array, object, no_fields, field, set_field,
}
use distributed_task_system.Converters.Tasks.{Task}
use distributed_task_system.ApiWeb.Access.{field_of, get_if, value_or, get_string}
use distributed_task_system.WorkerNode.{
  Outcome, returns, throws, TaskHandler, register_handler, get_handler, status_request, ended,
  execute,
}

module _ {N : Type 0} (parse : String → String ⊎ Json N) (text : Json N → String) (of_int : ℕ → N)
    (type_error : String) where
  abbrev pub two_fields : String → Json N → String → Json N → Json N
  two_fields k v l w = object (set_field l w (field k v no_fields))

  -- What follows params.value(...), which throws on a value of another type.
  abbrev pub with_value : (String → Json N) → Option String → Outcome
  with_value result none = throws type_error
  with_value result (some v) = returns (text (result v))

  abbrev pub download_params : Json N → Outcome
  download_params null = returns "{}"
  download_params params =
      with_value (λ url. two_fields "status" (string "success") "file_size" (number (of_int 1024)))
        (value_or "url" params "unknown_url" get_string)

  abbrev pub download_parsed : String ⊎ Json N → Outcome
  download_parsed (inl what) = throws what
  download_parsed (inr params) = download_params params

  -- DownloadDataTask
  unfoldable pub download_data : TaskHandler
  download_data params_str = download_parsed (parse params_str)

  -- What is no JSON text is taken for an empty object.
  abbrev pub or_object : String ⊎ Json N → Json N
  or_object (inl what) = object no_fields
  or_object (inr params) = params

  abbrev pub processed : String → Json N
  processed source = object (
      set_field "output_file" (string "/tmp/processed_data.csv") (
        set_field "source" (string source) (
          set_field "rows" (number (of_int 10000))
            (field "status" (string "processed") no_fields))))

  -- ProcessDataTask
  unfoldable pub process_data : TaskHandler
  process_data params_str =
      with_value processed
        (value_or "output" (or_object (parse params_str)) "unknown_source" get_string)

  -- UploadResultsTask
  unfoldable pub upload_results : TaskHandler
  upload_results params_str = returns (
      text (
        two_fields "status" (string "uploaded") "cloud_url"
          (string "s3://bucket/report_final.csv")))

  -- EchoTask
  unfoldable pub echo : TaskHandler
  echo params_str =
      returns (
        text
          (two_fields "status" (string "success") "raw_output" (string ("Echo: " <> params_str))))

  -- The registry after the four DTS_REGISTER_TASK.
  abbrev pub task_registry : Dict TaskHandler
  task_registry = register_handler "upload_results" upload_results (
      register_handler "process_data" process_data
        (register_handler "echo" echo (register_handler "download_data" download_data [])))

pub data Body : Type 0 where
  downloads : Body
  processes : Body
  uploads : Body
  echoes : Body

abbrev pub name_of : Body → String
name_of downloads = "download_data"
name_of processes = "process_data"
name_of uploads = "upload_results"
name_of echoes = "echo"

module _ {N : Type 0} where
  -- Does value(key, d) give a string?
  abbrev pub is_text : Option (Json N) → Bool
  is_text none = true
  is_text (some (string s)) = true
  is_text (some v) = false

  abbrev pub has_text : String → Json N → Bool
  has_text key (object fs) = is_text (field_of key fs)
  has_text key v = false

  -- The parameters with which a body comes to its end.
  abbrev pub accepts : Body → Json N → Bool
  accepts downloads null = true
  accepts downloads params = has_text "url" params
  accepts processes params = has_text "output" params
  accepts uploads params = true
  accepts echoes params = true

module _ {N : Type 0} (parse : String → String ⊎ Json N) (text : Json N → String) (of_int : ℕ → N)
    (type_error : String) where
  abbrev end_of : Bool → TaskState
  end_of b = if b then success else failed

  found_state :
      (result : String → Json N) (d : String) (v : Option (Json N))
      → (ended (with_value parse text of_int type_error result (get_if d get_string v))).0
        ≡ end_of (is_text v)
  found_state result d none = refl
  found_state result d (some (string s)) = refl
  found_state result d (some null) = refl
  found_state result d (some (boolean b)) = refl
  found_state result d (some (number n)) = refl
  found_state result d (some (array xs)) = refl
  found_state result d (some (object fs)) = refl

  value_state :
      (result : String → Json N) (key d : String) (params : Json N)
      → (ended
          (with_value parse text of_int type_error result (value_or key params d get_string))).0
        ≡ end_of (has_text key params)
  value_state result key d (object fs) = found_state result d (field_of key fs)
  value_state result key d null = refl
  value_state result key d (boolean b) = refl
  value_state result key d (number n) = refl
  value_state result key d (string s) = refl
  value_state result key d (array xs) = refl

  download_state :
      (params : Json N)
      → (ended (download_params parse text of_int type_error params)).0
        ≡ end_of (accepts downloads params)
  download_state null = refl
  download_state (object fs) = value_state _ "url" "unknown_url" (object fs)
  download_state (boolean b) = refl
  download_state (number n) = refl
  download_state (string s) = refl
  download_state (array xs) = refl

  -- The four names are registered, and where the text of the parameters is read back as the parameters,
  -- a worker that runs one of these tasks reports success if and only if its body accepts the
  -- parameters: download_data wants null, or an object whose url is a string if it is there;
  -- process_data an object whose output is; the others take anything.
  pub body_reports :
      {D : Type 0} (b : Body) (task : Task N D)
      → parse (text task.func_params) ≡ inr task.func_params
      → (h : TaskHandler) × (get_handler (name_of b) (task_registry parse text of_int type_error)
          ≡ some h)
        × ((execute (λ j. returns (text j)) (task, h)).final_state
            ≡ (if accepts b task.func_params then success else failed))
  unfolding get_handler register_handler find put execute status_request download_data process_data
      upload_results echo
  body_reports downloads task e = (
    download_data parse text of_int type_error,
    refl,
    ap (λ r. (ended (download_parsed parse text of_int type_error r)).0) e
        ∙ download_state task.func_params,
  )
  body_reports processes task e = (
    process_data parse text of_int type_error,
    refl,
    ap
          (λ r.
            (ended (
              with_value parse text of_int type_error (processed parse text of_int type_error) (
                value_or "output" (or_object parse text of_int type_error r) "unknown_source"
                  get_string))).0)
          e
        ∙ value_state _ "output" "unknown_source" task.func_params,
  )
  body_reports uploads task e = (upload_results parse text of_int type_error, refl, refl)
  body_reports echoes task e = (echo parse text of_int type_error, refl, refl)
