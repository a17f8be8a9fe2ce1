-- ===== src/Startup.antt =====
-- InitWithRetry of src/common/include/utils/utils.hpp, for a max_retries that is not negative. What
-- init_func does at each call is a parameter; the sleep between two calls is left out.
use distributed_task_system.Common.{
  ℕ, zero, suc, ◌+◌, ◌≤◌, ◌<◌, ◌≡◌, refl, ap, ◌∙◌, inl, inr, Bool, true, false, Option, none, some,
  arith, leb, ◌==◌, if◌then◌else◌, Bool-cases, leb→le,
}

-- The loop, from the count `retries`: whether it ends without an exception, and the number of calls of
-- init_func. `none` is for too little fuel.
unfoldable pub retry_loop : (ℕ → Bool) → ℕ → ℕ → ℕ → Option (Bool × ℕ)
retry_loop succeeds max_retries zero retries = none
retry_loop succeeds max_retries (suc fuel) retries =
    let later = retry_loop succeeds max_retries fuel (suc retries) in
    if succeeds retries
    then some (true, suc retries)
    else if leb max_retries retries
    then some (false, suc retries)
    else later

-- InitWithRetry: one call more than max_retries is enough.
unfoldable pub init_with_retry : (ℕ → Bool) → ℕ → Option (Bool × ℕ)
init_with_retry succeeds max_retries = retry_loop succeeds max_retries (suc max_retries) 0

-- What a run is: it succeeds at its last call, or all the calls that it may make have failed.
pub record IsRun (succeeds : ℕ → Bool) (max_retries from : ℕ) (result : Option (Bool × ℕ))
    : Type 0 where
  pub returned : Bool
  pub calls : ℕ
  pub ends : result ≡ some (returned, calls)
  pub some_call : from < calls
  pub bounded : calls ≤ suc max_retries
  pub earlier : (k : ℕ) → from ≤ k → suc k < calls → succeeds k ≡ false
  pub last : (k : ℕ) → suc k ≡ calls → succeeds k ≡ returned
  pub gives_up : returned ≡ false → calls ≡ suc max_retries

at_call :
    (succeeds : ℕ → Bool) (k r : ℕ) {b : Bool} → suc k ≡ suc r → succeeds r ≡ b → succeeds k ≡ b
at_call succeeds k r e h = ap succeeds same ∙ h
  where
    same : k ≡ r
    same = omega (arith, e)

one_later :
    (succeeds : ℕ → Bool) (m r : ℕ)
    → succeeds r ≡ false
    → (result : Option (Bool × ℕ)) → IsRun succeeds m (suc r) result
    → IsRun succeeds m r result
one_later succeeds m r bad result h = record {
  returned = h.returned;
  calls = h.calls;
  ends = h.ends;
  some_call = omega (arith, h.some_call);
  bounded = h.bounded;
  earlier = λ k a b. elim (Bool-cases (k == r)) [
    | inl here ↦ at_call succeeds k r (ground (arith, here)) bad
    | inr other ↦ h.earlier k (ground (arith, other, a)) b
  ];
  last = h.last;
  gives_up = h.gives_up;
}

retry_loop-IsRun :
    (succeeds : ℕ → Bool) (max_retries fuel retries : ℕ)
    → fuel + retries ≡ suc max_retries
    → 0 < fuel
    → IsRun succeeds max_retries retries (retry_loop succeeds max_retries fuel retries)
unfolding retry_loop
retry_loop-IsRun succeeds m zero r sum fuelled = absurd (omega (arith, fuelled))
retry_loop-IsRun succeeds m (suc fuel) r sum fuelled = elim (Bool-cases (succeeds r)) [
  | inl good ↦ rw good (record {
    returned = true;
    calls = suc r;
    ends = refl;
    some_call = omega arith;
    bounded = omega (arith, sum);
    earlier = λ k a b. absurd (omega (arith, a, b));
    last = λ k e. at_call succeeds k r e good;
    gives_up = λ f. cc;
  })
  | inr bad ↦ elim (Bool-cases (leb m r)) [
    | inl out ↦
        rw (bad, out)
          (record {
            returned = false;
            calls = suc r;
            ends = refl;
            some_call = omega arith;
            bounded = omega (arith, sum);
            earlier = λ k a b. absurd (omega (arith, a, b));
            last = λ k e. at_call succeeds k r e bad;
            gives_up = λ f. omega (arith, leb→le m r out, sum);
          })
    | inr more ↦
        rw (bad, more)
          (one_later succeeds m r bad _ (
            retry_loop-IsRun succeeds m fuel (suc r) (omega (arith, sum))
              (ground (arith, more, sum))))
  ]
]

-- InitWithRetry calls init_func at most once more than max_retries; every call but the last has
-- failed, it returns if and only if the last one succeeds, and throws only after all those calls.
pub init_with_retry-IsRun :
    (succeeds : ℕ → Bool) (max_retries : ℕ)
    → IsRun succeeds max_retries 0 (init_with_retry succeeds max_retries)
unfolding init_with_retry
init_with_retry-IsRun succeeds max_retries =
    retry_loop-IsRun succeeds max_retries (suc max_retries) 0 (omega arith) (omega arith)
