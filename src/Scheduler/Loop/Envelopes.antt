-- ===== src/Scheduler/Loop/Envelopes.antt =====
-- src/common/include/utils/TaskSerializer.hpp against all that write to the stream of tasks.
use distributed_task_system.Common.{
  ℕ, ◌>>=◌, String, ◌≡◌, refl, Option, none, some, map, str_eq, if◌then◌else◌, ℤ,
}
use distributed_task_system.Redis.{Value, text, number, Fields}
use distributed_task_system.CompleteTask.{ready_entry}
use distributed_task_system.Submitter.Pipeline.{x_add_fields}
use distributed_task_system.Scheduler.Service.{to_x_add_args}
use distributed_task_system.Scheduler.Loop.{
  StreamEntry, StreamTaskPointer, parse_fields, parse_stream_entry,
}
use distributed_task_system.Converters.Json.{Json}
use distributed_task_system.Converters.Tasks.{Task, PbTask, task_from_proto}

-- What XREADGROUP gives of a message: every value as text.
abbrev as_text : (ℤ → String) → Value → String
as_text decimal (text s) = s
as_text decimal (number n) = decimal n

abbrev pub read_back : (ℤ → String) → String → Fields → StreamEntry
read_back decimal stream_id fields = record {
  stream_id = stream_id;
  fields = map (λ (f : String × Value). (f.0, as_text decimal f.1)) fields;
}

abbrev pub pointer : String → String → String → StreamTaskPointer
pointer task_id job_id stream_id = record {
  task_id = task_id;
  job_id = job_id;
  stream_id = stream_id;
}

-- A message of the submitter, of the script and of a retry is read back with its task and its job.
pub envelopes_read :
    (decimal : ℤ → String) (stream_id task_id job_id : String)
    → (parse_stream_entry (read_back decimal stream_id (x_add_fields task_id job_id))
        ≡ some (pointer task_id job_id stream_id))
      × (parse_stream_entry (read_back decimal stream_id (ready_entry job_id task_id))
          ≡ some (pointer task_id job_id stream_id))
      × (parse_stream_entry (read_back decimal stream_id (to_x_add_args task_id job_id))
          ≡ some (pointer task_id job_id stream_id))
unfolding parse_stream_entry parse_fields
envelopes_read decimal stream_id task_id job_id = (refl, refl, refl)

-- FromMetaBinary; `parse_message` is ParseFromString.
unfoldable pub from_meta_binary :
    {N D : Type 0}
    → (N → D)
    → (D → N)
    → (ℕ → String)
    → (String → Option (Json N))
    → (String → Option (PbTask D))
    → String
    → Option (Task N D)
from_meta_binary to_double of_double index_key parse parse_message binary_data =
    if str_eq binary_data ""
    then none
    else (parse_message binary_data >>= λ proto.
        some (task_from_proto to_double of_double index_key parse proto))
