-- ===== src/RedisManager.antt =====
-- RedisManager of src/common/src/redis/RedisManager.cpp. The client of redis-plus-plus is a parameter:
-- what each call answers or throws, and the server afterwards.
pub mod Scripts
use distributed_task_system.Common.{
  ◌>>=◌, String, Bool, true, false, not, ◌&&◌, ◌||◌, Option, none, some, List, [], ◌∷◌, map, str_eq,
  if◌then◌else◌, is_some, is_empty, count, ℤ, negsuc, Dict, find, put,
}
use text.Mathlib.Text.{find?}

-- How a call of the client ends: an answer, sw::redis::Error with its text, or another exception.
pub data Reply (A : Type 0) : Type 0 where
  answer : A → Reply A
  redis_error : String → Reply A
  other_error : Reply A

-- A message of a stream, with its id.
abbrev pub StreamEntry : Type 0
StreamEntry = String × List (String × String)

pub record PendingEntry : Type 0 where
  pub id : String
  pub consumer : String
  pub idle_time_ms : ℤ
  pub delivery_count : ℤ

-- sw::redis::Redis over a server S. The answer of xreadgroup is a map from streams to messages.
pub record Client (S : Type 0) : Type 0 where
  pub xadd : String → String → List (String × String) → S → Reply String × S
  pub xgroup_create : String → String → String → Bool → S → Reply (Unit {0}) × S
  pub xreadgroup : String → String → String → ℤ → ℤ → S → Reply (Dict (List StreamEntry)) × S
  pub xack : String → String → String → S → Reply ℤ × S
  pub xclaim : String → String → String → ℤ → List String → S → Reply (List StreamEntry) × S
  pub xpending :
      String → String → String → String → ℤ → S → Reply (List (String × String × ℤ × ℤ)) × S
  pub xpending_of :
      String
      → String
      → String
      → String
      → ℤ
      → String
      → S
      → Reply (List (String × String × ℤ × ℤ)) × S
  pub script_load : String → S → Reply String × S
  pub evalsha : String → List String → List String → S → Reply (Option ℤ) × S
  pub eval : String → List String → List String → S → Reply ℤ × S

-- Whether _client is set, whether the once flag is, and _script_cache.
pub record RedisManager : Type 0 where
  pub client : Bool
  pub initialized : Bool
  pub script_cache : Dict String

abbrev pub empty_manager : RedisManager
empty_manager = record { client = false; initialized = false; script_cache = [] }

-- Initialize, with whether the client can be made and answers the ping: whether it returns. An
-- exception leaves the once flag unset, and the client that was made.
unfoldable pub initialize : Bool → Bool → RedisManager → Bool × RedisManager
initialize made pinged m =
    if m.initialized
    then (true, m)
    else if made && pinged
    then (true, record m { client = true; initialized = true })
    else (false, record m { client = m.client || made })

abbrev pub to_option : {A : Type 0} → Reply A → Option A
to_option (answer a) = some a
to_option (redis_error _) = none
to_option other_error = none

-- if (!_client) return d; and the call otherwise.
abbrev pub with_client : {A S : Type 0} → RedisManager → A → (S → A × S) → S → A × S
with_client m d call s = if m.client then call s else (d, s)

abbrev pub optional : {A S : Type 0} → (S → Reply A × S) → S → Option A × S
optional call s = (to_option (call s).0, (call s).1)

abbrev pub pending_entry : String × String × ℤ × ℤ → PendingEntry
pending_entry (id, consumer, idle, deliveries) = record {
  id = id;
  consumer = consumer;
  idle_time_ms = idle;
  delivery_count = deliveries;
}

-- The messages of the one stream that was asked for.
abbrev pub first_stream : Dict (List StreamEntry) → List StreamEntry
first_stream [] = []
first_stream ((_, entries) ∷ _) = entries

abbrev pub or_minus_one : Option ℤ → ℤ
or_minus_one none = negsuc 0
or_minus_one (some n) = n

-- msg.find(part) != npos
abbrev pub contains : String → String → Bool
contains msg part = is_some (find? msg part)

module _ {S : Type 0} (c : Client S) where
  unfoldable pub x_add :
      RedisManager → String → List (String × String) → String → S → Option String × S
  x_add m key field_values id = with_client m none (optional (c.xadd key id field_values))

  abbrev created : Reply (Unit {0}) → Bool
  created (answer _) = true
  created (redis_error msg) = contains msg "BUSYGROUP"
  created other_error = false

  -- XGroupCreate: a group that is there already is a success.
  unfoldable pub x_group_create : RedisManager → String → String → String → Bool → S → Bool × S
  x_group_create m key group id mkstream =
      with_client m false
        (λ s. let r = c.xgroup_create key group id mkstream s in (created r.0, r.1))

  unfoldable pub x_read_group :
      RedisManager → String → String → String → ℤ → ℤ → S → Option (List StreamEntry) × S
  x_read_group m group consumer key count block_ms = with_client m none (λ s.
      let r = optional (c.xreadgroup group consumer key block_ms count) s in
      (r.0 >>= λ streams. some (first_stream streams), r.1))

  unfoldable pub x_ack : RedisManager → String → String → String → S → ℤ × S
  x_ack m key group id =
      with_client m (negsuc 0)
        (λ s. let r = optional (c.xack key group id) s in (or_minus_one r.0, r.1))

  unfoldable pub x_claim :
      RedisManager → String → String → String → ℤ → List String → S → Option (List StreamEntry) × S
  x_claim m key group consumer min_idle_ms ids s =
      if is_empty ids
      then (none, s)
      else with_client m none (optional (c.xclaim key group consumer min_idle_ms ids)) s

  unfoldable pub x_pending :
      RedisManager
      → String
      → String
      → ℤ
      → String
      → String
      → String
      → S
      → Option (List PendingEntry) × S
  x_pending m key group count start_id end_id consumer = with_client m none (λ s.
      let r =
        if str_eq consumer ""
        then optional (c.xpending key group start_id end_id count) s
        else optional (c.xpending_of key group start_id end_id count consumer) s in
      (r.0 >>= λ details. some (map pending_entry details), r.1))

  -- What LoadScript does with the answer of SCRIPT LOAD: its exceptions leave it.
  abbrev pub loaded : String → RedisManager → Reply String → Option (String × RedisManager)
  loaded script_content m (answer sha) =
      some (sha, record m { script_cache = put sha script_content m.script_cache })
  loaded script_content m (redis_error _) = none
  loaded script_content m other_error = none

  -- LoadScript: `none` is an exception.
  unfoldable pub load_script : String → RedisManager → S → Option (String × RedisManager) × S
  load_script script_content m s = if not m.client || str_eq script_content "" then (none, s) else (
    loaded script_content m (c.script_load script_content s).0,
    (c.script_load script_content s).1,
  )

  -- After NOSCRIPT: the script from the cache, if there is one, is given to EVAL.
  abbrev pub reload : Option String → List String → List String → S → Option ℤ × S
  reload none ks args s = (none, s)
  reload (some script_content) ks args s =
      if str_eq script_content "" then (none, s) else optional (c.eval script_content ks args) s

  abbrev pub recover :
      RedisManager → String → List String → List String → Reply (Option ℤ) → S → Option ℤ × S
  recover m sha ks args (answer result) s = (result, s)
  recover m sha ks args (redis_error err_msg) s =
      if contains err_msg "NOSCRIPT" then reload (find sha m.script_cache) ks args s else (none, s)
  recover m sha ks args other_error s = (none, s)

  unfoldable pub eval_sha : RedisManager → String → List String → List String → S → Option ℤ × S
  eval_sha m sha ks args =
      with_client m none (λ s. let r = c.evalsha sha ks args s in recover m sha ks args r.0 r.1)

  -- ExecPipeline: `exec` fills a pipeline and runs it.
  unfoldable pub exec_pipeline : {A : Type 0} → RedisManager → (S → Reply A × S) → S → Option A × S
  exec_pipeline m exec = with_client m none (optional exec)
