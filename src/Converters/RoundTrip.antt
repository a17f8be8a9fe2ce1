-- ===== src/Converters/RoundTrip.antt =====
-- What a JSON value keeps on its way through google.protobuf.Struct.
use distributed_task_system.Common.{
  ℕ, suc, eq_of_some-eq-some, ◌≤◌, String, ◌≡◌, refl, sym, ap, ◌∙◌, Bool, true, false, Option, none,
  some, arith, eq_iff, eq_refl,
}
use distributed_task_system.Converters.Json.{
  Json, null, boolean, number, string, array, object, JsonItems, no_items, item, JsonFields,
  no_fields, field, PbValue, PbFields, no_entries, set_entry, set_field, json_to_value,
  items_to_struct, fields_to_struct, json_to_struct, fill_fields, fill_field, struct_to_json,
}
use distributed_task_system.Converters.Fields.{
  has_field, has_entry, IsKeyed, AreKeyed, HasKeys, join, keep, join_assoc, join-no_fields,
  join-keep, set_field_fresh, has_entry-set_entry, fill_fields_absent, fill_fields-set_entry,
}

module _ {N D : Type 0} (to_double : N → D) (of_double : D → N) (index_key : ℕ → String) where
  -- What is left of a value: a null goes, an array becomes an object over its indices, and a number
  -- becomes the nearest double.
  unfoldable mutual
    pub carried : Json N → Option (Json N)
    carried null = none
    carried (boolean b) = some (boolean b)
    carried (number n) = some (number (of_double (to_double n)))
    carried (string s) = some (string s)
    carried (array xs) = some (object (carried_items 0 xs))
    carried (object fs) = some (object (carried_fields fs))

    pub carried_items : ℕ → JsonItems N → JsonFields N
    carried_items i no_items = no_fields
    carried_items i (item v xs) = keep (index_key i) (carried v) (carried_items (suc i) xs)

    pub carried_fields : JsonFields N → JsonFields N
    carried_fields no_fields = no_fields
    carried_fields (field k v fs) = keep k (carried v) (carried_fields fs)

  abbrev back : PbFields D → JsonFields N
  back m = fill_fields of_double m no_fields

  abbrev to_struct : JsonFields N → PbFields D → PbFields D
  to_struct = fields_to_struct to_double index_key

  one_more :
      (k : String) (x : PbValue D) (o : Option (Json N)) (m : PbFields D) (rest : JsonFields N)
      → has_entry k m ≡ false
      → fill_field of_double k x (back m) ≡ join (back m) (keep k o no_fields)
      → join (back (set_entry k x m)) rest ≡ join (back m) (keep k o rest)
  one_more k x o m rest new h =
      ap (λ b. join b rest) (fill_fields-set_entry of_double k x m no_fields new ∙ h)
      ∙ join_assoc (back m) (keep k o no_fields) rest
      ∙ ap (join (back m)) (join-keep k o rest)

  module _ (distinct : (i j : ℕ) → index_key i ≡ index_key j → i ≡ j) where
    mutual
      unfolding fill_field json_to_value carried IsKeyed

      carried_value :
          (k : String) (v : Json N) (m : JsonFields N)
          → IsKeyed v
          → has_field k m ≡ false
          → fill_field of_double k (json_to_value to_double index_key v) m
            ≡ join m (keep k (carried v) no_fields)
      carried_value k null m w h = sym (join-no_fields m)
      carried_value k (boolean b) m w h = set_field_fresh k _ m h
      carried_value k (number n) m w h = set_field_fresh k _ m h
      carried_value k (string s) m w h = set_field_fresh k _ m h
      carried_value k (array xs) m w h =
          ap (λ o. set_field k (object o) m) (carried_array 0 xs no_entries w (λ j le. refl))
          ∙ set_field_fresh k _ m h
      carried_value k (object fs) m w h =
          ap (λ o. set_field k (object o) m) (carried_object fs no_entries w (λ j e. refl))
          ∙ set_field_fresh k _ m h

      carried_array :
          (i : ℕ) (xs : JsonItems N) (m : PbFields D)
          → AreKeyed xs
          → ((j : ℕ) → i ≤ j → has_entry (index_key j) m ≡ false)
          → back (items_to_struct to_double index_key i xs m) ≡ join (back m) (carried_items i xs)
      carried_array i no_items m w new = sym (join-no_fields (back m))
      carried_array i (item v xs) m w new =
          carried_array (suc i) xs (set_entry (index_key i) x m) w.1 later
          ∙ one_more (index_key i) x (carried v) m _ (new i (omega arith)) (
              carried_value (index_key i) v (back m) w.0
                (fill_fields_absent of_double (index_key i) m no_fields (new i (omega arith)) refl))
        where
          x : PbValue D
          x = json_to_value to_double index_key v

          later :
              (j : ℕ) → suc i ≤ j → has_entry (index_key j) (set_entry (index_key i) x m) ≡ false
          later j le = ground (
            arith,
            has_entry-set_entry (index_key j) (index_key i) x m,
            new j,
            eq_iff (index_key i) (index_key j),
            distinct i j,
          )

      carried_object :
          (fs : JsonFields N) (m : PbFields D)
          → HasKeys fs
          → ((j : String) → has_field j fs ≡ true → has_entry j m ≡ false)
          → back (to_struct fs m) ≡ join (back m) (carried_fields fs)
      carried_object no_fields m w new = sym (join-no_fields (back m))
      carried_object (field k v fs) m w new =
          carried_object fs (set_entry k x m) w.2 later
          ∙ one_more k x (carried v) m _ here (
              carried_value k v (back m) w.1 (fill_fields_absent of_double k m no_fields here refl))
        where
          x : PbValue D
          x = json_to_value to_double index_key v

          here : has_entry k m ≡ false
          here = new k (ground (arith, eq_refl k))

          later : (j : String) → has_field j fs ≡ true → has_entry j (set_entry k x m) ≡ false
          later j e = ground (arith, has_entry-set_entry j k x m, new j, eq_iff k j, w.0)

  abbrev pub is_structured : Json N → Bool
  is_structured (array xs) = true
  is_structured (object fs) = true
  is_structured _ = false

  -- Where no two indices have the same text, an object or an array in which the keys of every object
  -- differ comes back from its Struct as what is left of it.
  pub struct_to_json-json_to_struct :
      (v : Json N)
      → ((i j : ℕ) → index_key i ≡ index_key j → i ≡ j)
      → is_structured v ≡ true
      → IsKeyed v
      → some (struct_to_json of_double (json_to_struct to_double index_key v)) ≡ carried v
  unfolding struct_to_json json_to_struct carried IsKeyed fill_fields
  struct_to_json-json_to_struct (array xs) distinct h w =
      ap (λ o. some (object o)) (carried_array distinct 0 xs no_entries w (λ j le. refl))
  struct_to_json-json_to_struct (object fs) distinct h w =
      ap (λ o. some (object o)) (carried_object distinct fs no_entries w (λ j e. refl))
  struct_to_json-json_to_struct null distinct h w = cc
  struct_to_json-json_to_struct (boolean b) distinct h w = cc
  struct_to_json-json_to_struct (number n) distinct h w = cc
  struct_to_json-json_to_struct (string s) distinct h w = cc

  -- No null, no array, and all numbers are doubles.
  unfoldable mutual
    pub IsExact : Json N → Type 0
    IsExact (number n) = of_double (to_double n) ≡ n
    IsExact (object fs) = AreExact fs
    IsExact (boolean b) = Unit
    IsExact (string s) = Unit
    IsExact _ = ⊥

    pub AreExact : JsonFields N → Type 0
    AreExact no_fields = Unit
    AreExact (field k v fs) = IsExact v × AreExact fs

  mutual
    unfolding carried IsExact

    carried_exact : (v : Json N) → IsExact v → carried v ≡ some v
    carried_exact (boolean b) h = refl
    carried_exact (number n) h = ap (λ m. some (number m)) h
    carried_exact (string s) h = refl
    carried_exact (object fs) h = ap (λ o. some (object o)) (carried_fields_exact fs h)
    carried_exact null h = absurd h
    carried_exact (array xs) h = absurd h

    carried_fields_exact : (fs : JsonFields N) → AreExact fs → carried_fields fs ≡ fs
    carried_fields_exact no_fields h = refl
    carried_fields_exact (field k v fs) h =
        rw (carried_exact v h.0) (ap (field k v) (carried_fields_exact fs h.1))

  -- An object in which the keys of every object differ, without a null or an array, and with no number
  -- that the cast to double changes, comes back from its Struct as it was.
  pub struct_round_trip :
      (fs : JsonFields N)
      → ((i j : ℕ) → index_key i ≡ index_key j → i ≡ j)
      → HasKeys fs
      → AreExact fs
      → struct_to_json of_double (json_to_struct to_double index_key (object fs)) ≡ object fs
  unfolding IsKeyed IsExact
  struct_round_trip fs distinct w exact =
      eq_of_some-eq-some _ _ (
        struct_to_json-json_to_struct (object fs) distinct refl w ∙ carried_exact (object fs) exact)
