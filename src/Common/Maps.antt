-- ===== src/Common/Maps.antt =====
-- `std::map` and `std::unordered_map` with text keys: a list of entries in key order.
use Prim.Native.String.{String, compare}
use mathlib.Core.Path.{◌≡◌, refl}
use mathlib.Core.Option.{Option, none, some}
use mathlib.Core.List.{List, [], ◌∷◌}
use native.Mathlib.Omega.{arith}
use text.Mathlib.Text.{◌==◌ as str_eq, is_lt}
use text.Mathlib.TextEquality.{eq_iff}
use distributed_task_system.Common.Tests.{if◌then◌else◌, is_some}
use distributed_task_system.Common.Lists.{mem}

abbrev pub Dict {ℓ} : Type ℓ → Type ℓ
Dict V = List (String × V)

module _ {ℓ} {V : Type ℓ} where
  -- m.find(k)
  unfoldable pub find : String → Dict V → Option V
  find k [] = none
  find k ((j, v) ∷ m) = if str_eq j k then some v else find k m

  -- m[k] = v: an old entry is written over, a new one goes to its place in key order.
  unfoldable pub put : String → V → Dict V → Dict V
  put k v [] = (k, v) ∷ []
  put k v ((j, w) ∷ m) =
      let rest = put k v m in
      if str_eq j k
      then (j, v) ∷ m
      else if is_lt (compare k j)
      then (k, v) ∷ (j, w) ∷ m
      else (j, w) ∷ rest

  abbrev pub keys : Dict V → List String
  keys [] = []
  keys ((k, _) ∷ m) = k ∷ keys m

  abbrev pub values : Dict V → List V
  values [] = []
  values ((_, v) ∷ m) = v ∷ values m

  pub find-put :
      (k j : String) (v : V) (m : Dict V)
      → find j (put k v m) ≡ (if str_eq k j then some v else find j m)
  unfolding find put
  find-put k j v [] = refl
  find-put k j v ((i, w) ∷ m) = ground (arith, eq_iff k j, eq_iff i k, eq_iff i j, find-put k j v m)

  pub mem-keys : (k : String) (m : Dict V) → mem k (keys m) ≡ is_some (find k m)
  unfolding mem find
  mem-keys k [] = refl
  mem-keys k ((j, w) ∷ m) = ground (arith, eq_iff j k, eq_iff k j, mem-keys k m)
