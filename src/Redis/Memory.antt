-- ===== src/Redis/Memory.antt =====
-- A store in memory that obeys the laws of `Redis`: it shows that they can hold, and the tests run on it.
use distributed_task_system.Common.{
  String, ◌≡◌, refl, sym, ap, ◌∙◌, ◌≢◌, inl, inr, false, ◌||◌, Option, none, some, List, [], ◌∷◌,
  ◌++◌, arith, str_eq, eq_iff, eq_refl, if◌then◌else◌, Bool-cases, get_or, is_some, mem, Distinct,
  ℤ, pos, ◌+ℤ◌,
}
use distributed_task_system.Redis.{Fields, Redis, RedisLaws, SameAt}

pub record Memory : Type 0 where
  pub sets : String → List String
  pub hashes : String → String → Option ℤ
  pub strings : String → Option String
  pub streams : String → List Fields

abbrev pub empty_memory : Memory
empty_memory = record {
  sets = λ _. [];
  hashes = λ _ _. none;
  strings = λ _. none;
  streams = λ _. [];
}

abbrev update {ℓ} : {V : Type ℓ} → (String → V) → String → V → String → V
update f k v j = if str_eq k j then v else f j

abbrev dedup : List String → List String
dedup [] = []
dedup (x ∷ xs) = let rest = dedup xs in if mem x rest then rest else x ∷ rest

dedup-Distinct : (xs : List String) → Distinct (dedup xs)
dedup-Distinct [] = tt
dedup-Distinct (x ∷ xs) = elim (Bool-cases (mem x (dedup xs))) [
  | inl old ↦ rw old (dedup-Distinct xs)
  | inr new ↦ rw new (new, dedup-Distinct xs)
]

mem-dedup : (x : String) (xs : List String) → mem x (dedup xs) ≡ mem x xs
unfolding mem
mem-dedup x [] = refl
mem-dedup x (y ∷ xs) = ground (arith, mem-dedup x xs, mem-dedup y xs, eq_iff x y)

abbrev pub memory : Redis
memory = record {
  Store = Memory;
  smembers = λ m k. dedup (m.sets k);
  hget = λ m k f. m.hashes k f;
  exists = λ m k. is_some (m.strings k);
  lookup = λ m k. m.strings k;
  entries = λ m k. m.streams k;
  sadd = λ m k v. record m { sets = update m.sets k (v ∷ m.sets k) };
  hset = λ m k f n. record m { hashes = update m.hashes k (update (m.hashes k) f (some n)) };
  hincrby = λ m k f n.
      let v = get_or (m.hashes k f) (pos 0) +ℤ n in
      (v, record m { hashes = update m.hashes k (update (m.hashes k) f (some v)) });
  hdel = λ m k f. record m { hashes = update m.hashes k (update (m.hashes k) f none) };
  write = λ m k v. record m { strings = update m.strings k (some v) };
  xadd = λ m k e. record m { streams = update m.streams k (m.streams k ++ e ∷ []) };
  del = λ m k. record m {
    sets = update m.sets k [];
    hashes = update m.hashes k (λ _. none);
    strings = update m.strings k none;
    streams = update m.streams k [];
  };
  expire = λ m k. m;
}

ne_test : (k j : String) → k ≢ j → str_eq k j ≡ false
ne_test k j h = ground (arith, eq_iff k j)

update_ne {ℓ} :
    {V : Type ℓ} (f : String → V) (k : String) (v : V) (j : String) → k ≢ j → update f k v j ≡ f j
update_ne f k v j h = rw (ne_test k j h)

update_eq {ℓ} : {V : Type ℓ} (f : String → V) (k : String) (v : V) → update f k v k ≡ v
update_eq f k v = rw (eq_refl k)

-- The maps of two memories agree at a key.
same_at :
    (s t : Memory) (k : String)
    → t.sets k ≡ s.sets k
    → t.hashes k ≡ s.hashes k
    → t.strings k ≡ s.strings k
    → t.streams k ≡ s.streams k
    → SameAt memory s t k
same_at s t k a b c d = record {
  same_members = ap dedup a;
  same_hash = λ f. ap (λ (h : String → Option ℤ). h f) b;
  same_exists = ap is_some c;
  same_lookup = c;
  same_entries = d;
}

pub memory_laws : RedisLaws memory
unfolding mem
memory_laws = record {
  sadd_frame = λ s k v j h. same_at s _ j (update_ne s.sets k _ j h) refl refl refl;
  hset_frame = λ s k f n j h. same_at s _ j refl (update_ne s.hashes k _ j h) refl refl;
  hincrby_frame = λ s k f n j h. same_at s _ j refl (update_ne s.hashes k _ j h) refl refl;
  hdel_frame = λ s k f j h. same_at s _ j refl (update_ne s.hashes k _ j h) refl refl;
  write_frame = λ s k v j h. same_at s _ j refl refl (update_ne s.strings k _ j h) refl;
  xadd_frame = λ s k e j h. same_at s _ j refl refl refl (update_ne s.streams k _ j h);
  del_frame = λ s k j h.
      same_at s _ j (update_ne s.sets k _ j h) (update_ne s.hashes k _ j h)
        (update_ne s.strings k _ j h) (update_ne s.streams k _ j h);
  expire_frame = λ s k j. same_at s s j refl refl refl refl;
  smembers_distinct = λ s k. dedup-Distinct (s.sets k);
  mem-sadd = λ s k v x.
      rw (eq_refl k)
        (mem-dedup x (v ∷ s.sets k) ∙ ap (λ b. str_eq x v || b) (sym (mem-dedup x (s.sets k))));
  hget-hset = λ s k f n g. rw (eq_refl k) refl;
  hincrby_reply = λ s k f n. refl;
  hget-hincrby = λ s k f n g. rw (eq_refl k) refl;
  hget-hdel = λ s k f g. rw (eq_refl k) refl;
  lookup-write = λ s k v. rw (eq_refl k) refl;
  exists-write = λ s k v. rw (eq_refl k) refl;
  entries-xadd = λ s k e. rw (eq_refl k) refl;
  smembers-del = λ s k. rw (eq_refl k) refl;
}
