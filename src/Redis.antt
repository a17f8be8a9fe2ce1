-- ===== src/Redis.antt =====
-- Redis, the service that the program keeps its queues and counters in, behind the commands that the
-- program sends. The store is a parameter of all that uses it; `RedisLaws` states the documented
-- effect of each command, within the life of the keys. `Keys` is redis/RedisKeys.hpp, and `Memory` a
-- store in memory that has the laws.
pub mod Keys
pub mod Families
pub mod Memory
use distributed_task_system.Common.{
  String, ◌≡◌, refl, ◌∙◌, ◌≢◌, Bool, true, ◌||◌, Option, none, some, List, [], ◌∷◌, ◌++◌, str_eq,
  if◌then◌else◌, get_or, mem, Distinct, ℤ, pos, ◌+ℤ◌,
}

-- A value of a stream field. Redis keeps an integer as its decimal text.
pub data Value : Type 0 where
  text : String → Value
  number : ℤ → Value

-- The field-value pairs of one stream message, in the order of the XADD.
abbrev pub Fields : Type 0
Fields = List (String × Value)

pub record Redis : Type 1 where
  pub Store : Type 0
  -- Queries: SMEMBERS, HGET, EXISTS, GET and XRANGE - +.
  pub smembers : Store → String → List String
  pub hget : Store → String → String → Option ℤ
  pub exists : Store → String → Bool
  pub lookup : Store → String → Option String
  pub entries : Store → String → List Fields
  -- Commands: SADD, HSET, HINCRBY (with its reply), HDEL, SET, XADD, DEL and EXPIRE.
  pub sadd : Store → String → String → Store
  pub hset : Store → String → String → ℤ → Store
  pub hincrby : Store → String → String → ℤ → ℤ × Store
  pub hdel : Store → String → String → Store
  pub write : Store → String → String → Store
  pub xadd : Store → String → Fields → Store
  pub del : Store → String → Store
  pub expire : Store → String → Store

module _ (r : Redis) where
  open r use {Store, smembers, hget, exists, lookup, entries}

  -- All that can be asked about one key has the same answer in both stores.
  pub record SameAt (s t : Store) (k : String) : Type 0 where
    pub same_members : smembers t k ≡ smembers s k
    pub same_hash : (f : String) → hget t k f ≡ hget s k f
    pub same_exists : exists t k ≡ exists s k
    pub same_lookup : lookup t k ≡ lookup s k
    pub same_entries : entries t k ≡ entries s k

  pub SameAt-refl : (s : Store) (k : String) → SameAt s s k
  SameAt-refl s k = record {
    same_members = refl;
    same_hash = λ f. refl;
    same_exists = refl;
    same_lookup = refl;
    same_entries = refl;
  }

  pub SameAt-trans : {s t u : Store} {k : String} → SameAt s t k → SameAt t u k → SameAt s u k
  SameAt-trans a b = record {
    same_members = b.same_members ∙ a.same_members;
    same_hash = λ f. b.same_hash f ∙ a.same_hash f;
    same_exists = b.same_exists ∙ a.same_exists;
    same_lookup = b.same_lookup ∙ a.same_lookup;
    same_entries = b.same_entries ∙ a.same_entries;
  }

  -- A command writes to its own key only, and does there what the manual says.
  pub record RedisLaws : Type 0 where
    pub sadd_frame : (s : Store) (k v j : String) → k ≢ j → SameAt s (r.sadd s k v) j
    pub hset_frame :
        (s : Store) (k f : String) (n : ℤ) (j : String) → k ≢ j → SameAt s (r.hset s k f n) j
    pub hincrby_frame :
        (s : Store) (k f : String) (n : ℤ) (j : String) → k ≢ j → SameAt s (r.hincrby s k f n).1 j
    pub hdel_frame : (s : Store) (k f j : String) → k ≢ j → SameAt s (r.hdel s k f) j
    pub write_frame : (s : Store) (k v j : String) → k ≢ j → SameAt s (r.write s k v) j
    pub xadd_frame :
        (s : Store) (k : String) (e : Fields) (j : String) → k ≢ j → SameAt s (r.xadd s k e) j
    pub del_frame : (s : Store) (k j : String) → k ≢ j → SameAt s (r.del s k) j
    pub expire_frame : (s : Store) (k j : String) → SameAt s (r.expire s k) j
    pub smembers_distinct : (s : Store) (k : String) → Distinct (smembers s k)
    pub mem-sadd :
        (s : Store) (k v x : String)
        → mem x (smembers (r.sadd s k v) k) ≡ (str_eq x v || mem x (smembers s k))
    pub hget-hset :
        (s : Store) (k f : String) (n : ℤ) (g : String)
        → hget (r.hset s k f n) k g ≡ (if str_eq f g then some n else hget s k g)
    pub hincrby_reply :
        (s : Store) (k f : String) (n : ℤ)
        → (r.hincrby s k f n).0 ≡ get_or (hget s k f) (pos 0) +ℤ n
    pub hget-hincrby :
        (s : Store) (k f : String) (n : ℤ) (g : String)
        → hget (r.hincrby s k f n).1 k g
          ≡ (if str_eq f g then some (get_or (hget s k f) (pos 0) +ℤ n) else hget s k g)
    pub hget-hdel :
        (s : Store) (k f g : String)
        → hget (r.hdel s k f) k g ≡ (if str_eq f g then none else hget s k g)
    pub lookup-write : (s : Store) (k v : String) → lookup (r.write s k v) k ≡ some v
    pub exists-write : (s : Store) (k v : String) → exists (r.write s k v) k ≡ true
    pub entries-xadd :
        (s : Store) (k : String) (e : Fields) → entries (r.xadd s k e) k ≡ entries s k ++ e ∷ []
    pub smembers-del : (s : Store) (k : String) → smembers (r.del s k) k ≡ []
