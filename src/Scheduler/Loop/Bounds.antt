-- ===== src/Scheduler/Loop/Bounds.antt =====
-- How large the backpressure counter inflight_tasks_ gets.
use distributed_task_system.Common.{
  ℕ, suc, ◌>>=◌, ◌+◌, ◌-◌, ◌≤◌, String, ◌≡◌, inl, inr, Bool, true, false, Option, none, some, List,
  [], ◌∷◌, arith, ltb, Bool-cases, get_or, length, Dict,
}
use distributed_task_system.Scheduler.Workers.{WorkerInfo}
use distributed_task_system.Scheduler.Loop.{
  StreamEntry, Fetched, Decoded, task, invalid, thrown, decode, LoopState, skip, dispatch_to,
  round_robin, run_entries, process_stream_entry, rescue_decoded, rescue_entries, do_rescue,
  rescue_due, pull, run_round,
}
use distributed_task_system.Scheduler.Loop.Inflight.{Decoded-cases}

-- The messages that a rescue claims.
abbrev pub claims : Option (List (List WorkerInfo × StreamEntry)) → ℕ
claims none = 0
claims (some claimed) = length claimed

module _ (fetch : String → Fetched) (from_meta_binary : String → Option String) where
  run_entries-le :
      (w : WorkerInfo) (ws : List WorkerInfo) (idx : ℕ) (entries : List (Bool × StreamEntry))
      (s : LoopState)
      → (run_entries fetch from_meta_binary w ws idx entries s).inflight ≤ s.inflight
  unfolding run_entries
  run_entries-le w ws idx [] s = omega arith
  run_entries-le w ws idx ((true, e) ∷ rest) s = omega arith
  run_entries-le w ws idx ((false, e) ∷ rest) s =
      elim (Decoded-cases (decode fetch from_meta_binary e)) [
        | inl i ↦ rw i (omega (arith, run_entries-le w ws idx rest (skip e.stream_id s)))
        | inr o ↦ elim o [
          | inl t ↦ rw t (omega arith)
          | inr (id, t) ↦ rw t (
              run_entries-le w ws (suc idx) rest
                (dispatch_to (round_robin w ws idx) id e.stream_id s))
        ]
      ]

  one_rescue-le :
      (rest : List (List WorkerInfo × StreamEntry)) (ws : List WorkerInfo) (sid : String)
      (d : Decoded) (s : LoopState)
      → ((t : LoopState) → (rescue_entries fetch from_meta_binary rest t).inflight ≤ t.inflight)
      → (get_or
          (rescue_decoded fetch from_meta_binary ws sid d s >>= λ t.
            some (rescue_entries fetch from_meta_binary rest t))
          s).inflight
        ≤ s.inflight
  one_rescue-le rest ws sid invalid s later = omega (arith, later (skip sid s))
  one_rescue-le rest ws sid thrown s later = omega arith
  one_rescue-le rest [] sid (task id) s later =
      omega (arith, later (record s { inflight = s.inflight - 1 }))
  one_rescue-le rest (v ∷ vs) sid (task id) s later = later (dispatch_to v id sid s)

  rescue_entries-le :
      (claimed : List (List WorkerInfo × StreamEntry)) (s : LoopState)
      → (rescue_entries fetch from_meta_binary claimed s).inflight ≤ s.inflight
  unfolding rescue_entries process_stream_entry
  rescue_entries-le [] s = omega arith
  rescue_entries-le ((available, e) ∷ rest) s =
      one_rescue-le rest available e.stream_id (decode fetch from_meta_binary e) s
        (rescue_entries-le rest)

  rescue_due-le :
      (rescued : Option (List (List WorkerInfo × StreamEntry))) (s : LoopState)
      → (rescue_due fetch from_meta_binary rescued s).inflight ≤ s.inflight + claims rescued
  unfolding do_rescue
  rescue_due-le none s = omega arith
  rescue_due-le (some claimed) s =
      rescue_entries-le claimed (record s { inflight = s.inflight + length claimed })

  pull-le :
      (ws : List WorkerInfo) (entries : List (Bool × StreamEntry)) (s : LoopState)
      → (pull fetch from_meta_binary ws entries s).inflight ≤ s.inflight + length entries
  pull-le [] entries s = omega arith
  pull-le (w ∷ ws) entries s =
      run_entries-le w ws 0 entries (record s { inflight = s.inflight + length entries })

  within : (x t p a b : ℕ) → x ≤ 2000 → t ≤ x + a → p ≤ t + b → a ≤ 50 → b ≤ 20 → p ≤ 2070
  within x t p a b h k l m n = omega (arith, h, k, l, m, n)

  -- Where a rescue claims at most 50 messages and a pull brings at most 20, which are the counts that the loop
  -- asks for, a round of the loop leaves the counter at 2070 or less if it was so before.
  pub run_round-bounded :
      (rescued : Option (List (List WorkerInfo × StreamEntry)))
      (available : Dict WorkerInfo → List WorkerInfo) (entries : List (Bool × StreamEntry))
      (s : LoopState)
      → claims rescued ≤ 50
      → length entries ≤ 20
      → s.inflight ≤ 2070
      → (run_round fetch from_meta_binary rescued available entries s).inflight ≤ 2070
  unfolding run_round
  run_round-bounded rescued available entries s few short h =
      elim (Bool-cases (ltb 2000 s.inflight)) [
        | inl y ↦ rw y h
        | inr z ↦
            (let t = rescue_due fetch from_meta_binary rescued s in
              rw z (
                within s.inflight t.inflight _ (claims rescued) (length entries)
                  (not_above s.inflight z) (rescue_due-le rescued s)
                  (pull-le (available t.workers) entries t) few short))
      ]
    where
      not_above : (n : ℕ) → ltb 2000 n ≡ false → n ≤ 2000
      not_above n k = ground (arith, k)
