-- ===== src/Converters/Fields.antt =====
-- The maps of src/common/src/converters.cpp: what setting and filling them does.
use distributed_task_system.Common.{
  String, ◌≡◌, refl, ap, Bool, false, ◌||◌, Option, none, some, arith, str_eq, eq_iff,
}
use distributed_task_system.Converters.Json.{
  Json, null, boolean, number, string, array, object, JsonItems, no_items, item, JsonFields,
  no_fields, field, PbValue, kind_not_set, null_value, bool_value, number_value, string_value,
  list_value, struct_value, PbFields, no_entries, entry, set_entry, set_field, fill_fields,
  fill_field,
}

abbrev pub has_field : {N : Type 0} → String → JsonFields N → Bool
has_field k no_fields = false
has_field k (field j v m) = str_eq j k || has_field k m

abbrev pub has_entry : {D : Type 0} → String → PbFields D → Bool
has_entry k no_entries = false
has_entry k (entry j v m) = str_eq j k || has_entry k m

-- The keys of every object differ, as in any std::map.
unfoldable mutual
  pub IsKeyed : {N : Type 0} → Json N → Type 0
  IsKeyed null = Unit
  IsKeyed (boolean b) = Unit
  IsKeyed (number n) = Unit
  IsKeyed (string s) = Unit
  IsKeyed (array xs) = AreKeyed xs
  IsKeyed (object fs) = HasKeys fs

  pub AreKeyed : {N : Type 0} → JsonItems N → Type 0
  AreKeyed no_items = Unit
  AreKeyed (item v xs) = IsKeyed v × AreKeyed xs

  pub HasKeys : {N : Type 0} → JsonFields N → Type 0
  HasKeys no_fields = Unit
  HasKeys (field k v fs) = (has_field k fs ≡ false) × IsKeyed v × HasKeys fs

abbrev pub join : {N : Type 0} → JsonFields N → JsonFields N → JsonFields N
join no_fields n = n
join (field k v m) n = field k v (join m n)

abbrev pub keep : {N : Type 0} → String → Option (Json N) → JsonFields N → JsonFields N
keep k none m = m
keep k (some v) m = field k v m

pub join_assoc : {N : Type 0} (a b c : JsonFields N) → join (join a b) c ≡ join a (join b c)
join_assoc no_fields b c = refl
join_assoc (field k v a) b c = ap (field k v) (join_assoc a b c)

pub join-no_fields : {N : Type 0} (a : JsonFields N) → join a no_fields ≡ a
join-no_fields no_fields = refl
join-no_fields (field k v a) = ap (field k v) (join-no_fields a)

pub join-keep :
    {N : Type 0} (k : String) (v : Option (Json N)) (m : JsonFields N)
    → join (keep k v no_fields) m ≡ keep k v m
join-keep k none m = refl
join-keep k (some v) m = refl

pub set_field_fresh :
    {N : Type 0} (k : String) (v : Json N) (m : JsonFields N)
    → has_field k m ≡ false
    → set_field k v m ≡ join m (field k v no_fields)
unfolding set_field
set_field_fresh k v no_fields h = refl
set_field_fresh k v (field j w m) h = ground (arith, set_field_fresh k v m)

pub has_entry-set_entry :
    {D : Type 0} (j k : String) (v : PbValue D) (m : PbFields D)
    → has_entry j (set_entry k v m) ≡ (str_eq k j || has_entry j m)
unfolding set_entry
has_entry-set_entry j k v no_entries = refl
has_entry-set_entry j k v (entry i w m) =
    ground (arith, has_entry-set_entry j k v m, eq_iff i k, eq_iff i j, eq_iff k j)

has_field-set_field :
    {N : Type 0} (j k : String) (v : Json N) (m : JsonFields N)
    → has_field j (set_field k v m) ≡ (str_eq k j || has_field j m)
unfolding set_field
has_field-set_field j k v no_fields = refl
has_field-set_field j k v (field i w m) =
    ground (arith, has_field-set_field j k v m, eq_iff i k, eq_iff i j, eq_iff k j)

module _ {N D : Type 0} (of_double : D → N) where
  -- An entry makes no field but its own.
  fill_field_absent :
      (k j : String) (v : PbValue D) (m : JsonFields N)
      → str_eq k j ≡ false
      → has_field j m ≡ false
      → has_field j (fill_field of_double k v m) ≡ false
  unfolding fill_field
  fill_field_absent k j kind_not_set m e h = h
  fill_field_absent k j null_value m e h = h
  fill_field_absent k j (bool_value b) m e h = ground (arith, has_field-set_field j k (boolean b) m)
  fill_field_absent k j (number_value d) m e h =
      ground (arith, has_field-set_field j k (number (of_double d)) m)
  fill_field_absent k j (string_value s) m e h =
      ground (arith, has_field-set_field j k (string s) m)
  fill_field_absent k j (list_value xs) m e h = h
  fill_field_absent k j (struct_value s) m e h =
      ground (arith, has_field-set_field j k (object (fill_fields of_double s no_fields)) m)

  pub fill_fields_absent :
      (j : String) (s : PbFields D) (m : JsonFields N)
      → has_entry j s ≡ false
      → has_field j m ≡ false
      → has_field j (fill_fields of_double s m) ≡ false
  unfolding fill_fields
  fill_fields_absent j no_entries m e h = h
  fill_fields_absent j (entry k v s) m e h =
      fill_fields_absent j s _ (ground arith) (fill_field_absent k j v m (ground arith) h)

  -- A new entry comes last.
  pub fill_fields-set_entry :
      (k : String) (v : PbValue D) (s : PbFields D) (m : JsonFields N)
      → has_entry k s ≡ false
      → fill_fields of_double (set_entry k v s) m
        ≡ fill_field of_double k v (fill_fields of_double s m)
  unfolding fill_fields set_entry
  fill_fields-set_entry k v no_entries m h = refl
  fill_fields-set_entry k v (entry j w s) m h =
      rw other (fill_fields-set_entry k v s _ (ground arith))
    where
      other : str_eq j k ≡ false
      other = ground arith
