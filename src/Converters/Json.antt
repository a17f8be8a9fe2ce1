-- ===== src/Converters/Json.antt =====
-- JsonToStruct and StructToJson of src/common/src/converters.cpp. The numbers of nlohmann::json and the
-- double of google.protobuf.Value are parameters, with the casts between them and the decimal text that
-- items() gives the index of an array as its key. A map is the list of its entries in the order in
-- which they were made: the order stands for nothing, since maps are read by key.
use distributed_task_system.Common.{ℕ, suc, String, Bool, str_eq, if◌then◌else◌}

mutual
  -- nlohmann::json.
  pub data Json (N : Type 0) : Type 0 where
    null : Json N
    boolean : Bool → Json N
    number : N → Json N
    string : String → Json N
    array : JsonItems N → Json N
    object : JsonFields N → Json N

  pub data JsonItems (N : Type 0) : Type 0 where
    no_items : JsonItems N
    item : Json N → JsonItems N → JsonItems N

  pub data JsonFields (N : Type 0) : Type 0 where
    no_fields : JsonFields N
    field : String → Json N → JsonFields N → JsonFields N

mutual
  -- google.protobuf.Value, whose kind may be unset, and the fields of google.protobuf.Struct.
  pub data PbValue (D : Type 0) : Type 0 where
    kind_not_set : PbValue D
    null_value : PbValue D
    bool_value : Bool → PbValue D
    number_value : D → PbValue D
    string_value : String → PbValue D
    list_value : PbItems D → PbValue D
    struct_value : PbFields D → PbValue D

  pub data PbItems (D : Type 0) : Type 0 where
    no_values : PbItems D
    value : PbValue D → PbItems D → PbItems D

  pub data PbFields (D : Type 0) : Type 0 where
    no_entries : PbFields D
    entry : String → PbValue D → PbFields D → PbFields D

-- fields[k] = v
unfoldable pub set_entry : {D : Type 0} → String → PbValue D → PbFields D → PbFields D
set_entry k v no_entries = entry k v no_entries
set_entry k v (entry j w m) =
    let rest = set_entry k v m in if str_eq j k then entry j v m else entry j w rest

-- j[k] = v
unfoldable pub set_field : {N : Type 0} → String → Json N → JsonFields N → JsonFields N
set_field k v no_fields = field k v no_fields
set_field k v (field j w m) =
    let rest = set_field k v m in if str_eq j k then field j v m else field j w rest

module _ {N D : Type 0} (to_double : N → D) (index_key : ℕ → String) where
  unfoldable mutual
    -- The value that the body of the loop makes of one element.
    pub json_to_value : Json N → PbValue D
    json_to_value null = null_value
    json_to_value (boolean b) = bool_value b
    json_to_value (number n) = number_value (to_double n)
    json_to_value (string s) = string_value s
    json_to_value (array xs) = struct_value (items_to_struct 0 xs no_entries)
    json_to_value (object fs) = struct_value (fields_to_struct fs no_entries)

    pub items_to_struct : ℕ → JsonItems N → PbFields D → PbFields D
    items_to_struct i no_items m = m
    items_to_struct i (item v xs) m =
        items_to_struct (suc i) xs (set_entry (index_key i) (json_to_value v) m)

    pub fields_to_struct : JsonFields N → PbFields D → PbFields D
    fields_to_struct no_fields m = m
    fields_to_struct (field k v fs) m = fields_to_struct fs (set_entry k (json_to_value v) m)

  -- items() gives the elements of an array or an object, nothing for null, and any other value once,
  -- under the empty key.
  unfoldable pub json_to_struct : Json N → PbFields D
  json_to_struct null = no_entries
  json_to_struct (array xs) = items_to_struct 0 xs no_entries
  json_to_struct (object fs) = fields_to_struct fs no_entries
  json_to_struct (boolean b) = entry "" (bool_value b) no_entries
  json_to_struct (number n) = entry "" (number_value (to_double n)) no_entries
  json_to_struct (string s) = entry "" (string_value s) no_entries

module _ {N D : Type 0} (of_double : D → N) where
  unfoldable mutual
    -- The loop over proto.fields(), from the object that is filled.
    pub fill_fields : PbFields D → JsonFields N → JsonFields N
    fill_fields no_entries j = j
    fill_fields (entry k v m) j = fill_fields m (fill_field k v j)

    pub fill_field : String → PbValue D → JsonFields N → JsonFields N
    fill_field k (bool_value b) j = set_field k (boolean b) j
    fill_field k (number_value d) j = set_field k (number (of_double d)) j
    fill_field k (string_value s) j = set_field k (string s) j
    fill_field k (struct_value m) j = set_field k (object (fill_fields m no_fields)) j
    fill_field k _ j = j

  unfoldable pub struct_to_json : PbFields D → Json N
  struct_to_json m = object (fill_fields m no_fields)
