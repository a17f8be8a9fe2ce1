-- ===== src/ApiWeb/Access.antt =====
-- How src/api-web/src/api_web.cpp reads a JSON value: at, value, get and the range-for.
use distributed_task_system.Common.{
  ℕ, ◌-◌, ◌%◌, String, Option, none, some, List, [], ◌∷◌, str_eq, if◌then◌else◌, ℤ, pos, negsuc,
}
use distributed_task_system.Converters.Json.{
  Json, null, string, array, object, JsonItems, no_items, item, JsonFields, no_fields, field,
}

-- static_cast from int to uint32_t.
abbrev pub to_uint32 : ℤ → ℕ
to_uint32 (pos n) = n % 4294967296
to_uint32 (negsuc n) = 4294967295 - n % 4294967296

module _ {N : Type 0} where
  abbrev pub field_of : String → JsonFields N → Option (Json N)
  field_of k no_fields = none
  field_of k (field j v fs) = if str_eq j k then some v else field_of k fs

  -- j.at(k), which throws where j is no object or has no such key.
  abbrev pub at_key : String → Json N → Option (Json N)
  at_key k (object fs) = field_of k fs
  at_key k _ = none

  abbrev pub get_if : {A : Type 0} → A → (Json N → Option A) → Option (Json N) → Option A
  get_if d get none = some d
  get_if d get (some v) = get v

  -- j.value(k, d), which throws where j is no object.
  abbrev pub value_or : {A : Type 0} → String → Json N → A → (Json N → Option A) → Option A
  value_or k (object fs) d get = get_if d get (field_of k fs)
  value_or k _ d get = none

  abbrev pub get_string : Json N → Option String
  get_string (string s) = some s
  get_string _ = none

  abbrev items_of : JsonItems N → List (Json N)
  items_of no_items = []
  items_of (item v xs) = v ∷ items_of xs

  abbrev values_of : JsonFields N → List (Json N)
  values_of no_fields = []
  values_of (field k v fs) = v ∷ values_of fs

  -- What a range-for over a JSON value goes through.
  abbrev pub elements : Json N → List (Json N)
  elements (array xs) = items_of xs
  elements (object fs) = values_of fs
  elements null = []
  elements v = v ∷ []
