-- ===== src/RedisManager/Scripts.antt =====
-- EvalSha on a server that no longer has a script.
use distributed_task_system.Common.{
  eq_of_some-eq-some, String, ◌≡◌, refl, subst, inl, inr, true, false, some, List, arith, str_eq,
  eq_refl, Bool-cases, find, find-put,
}
use distributed_task_system.RedisManager.{
  Reply, answer, redis_error, other_error, Client, RedisManager, optional, contains, loaded,
  load_script, eval_sha,
}

module _ {S : Type 0} (c : Client S) where
  -- What a call of LoadScript that returns has done.
  record HasLoaded (content sha : String) (m m' : RedisManager) : Type 0 where
    connected : m'.client ≡ true
    full : str_eq content "" ≡ false
    cached : find sha m'.script_cache ≡ some content

  load_script-HasLoaded :
      (content sha : String) (m m' : RedisManager) (s : S)
      → (load_script c content m s).0 ≡ some (sha, m')
      → HasLoaded content sha m m'
  unfolding load_script
  load_script-HasLoaded content sha m m' s h = elim (Bool-cases m.client) [
    | inl on ↦ elim (Bool-cases (str_eq content "")) [
      | inl empty ↦ absurd (ground (arith, on, empty, h))
      | inr full ↦ from (c.script_load content s).0 on full (ground (arith, on, full, h))
    ]
    | inr off ↦ absurd (ground (arith, off, h))
  ]
    where
      from :
          (r : Reply String)
          → m.client ≡ true
          → str_eq content "" ≡ false
          → loaded c content m r ≡ some (sha, m')
          → HasLoaded content sha m m'
      from (answer x) on full e =
          let same = eq_of_some-eq-some _ (sha, m') e in
          subst (λ (q : String × RedisManager). HasLoaded content q.0 m q.1) same
            (record {
              connected = on;
              full = full;
              cached = rw (find-put x x content m.script_cache, eq_refl x) refl;
            })
      from (redis_error msg) on full e = cc
      from other_error on full e = cc

  -- Once LoadScript has returned, a call of EvalSha with the sha that it gave, which the server answers
  -- with an error that contains NOSCRIPT, has the result of EVAL on the text of the script.
  pub eval_sha_recovers :
      (content sha msg : String) (m m' : RedisManager) (s t t' : S) (ks args : List String)
      → (load_script c content m s).0 ≡ some (sha, m')
      → c.evalsha sha ks args t ≡ (redis_error msg, t')
      → contains msg "NOSCRIPT" ≡ true
      → eval_sha c m' sha ks args t ≡ optional (c.eval content ks args) t'
  unfolding eval_sha
  eval_sha_recovers content sha msg m m' s t t' ks args load fails told =
      let h = load_script-HasLoaded content sha m m' s load in
      rw (h.connected, fails, told, h.cached, h.full) refl
