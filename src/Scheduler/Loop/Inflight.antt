-- ===== src/Scheduler/Loop/Inflight.antt =====
-- The backpressure counter inflight_tasks_.
use distributed_task_system.Common.{
  ℕ, zero, suc, ◌>>=◌, ◌+◌, ◌-◌, String, ◌≡◌, refl, ap, subst, ◌∙◌, ◌⊎◌, inl, inr, Bool, true,
  false, Option, none, some, List, [], ◌∷◌, arith, ltb, if◌then◌else◌, Bool-cases, get_or, length,
  length-append, Dict,
}
use distributed_task_system.Scheduler.{Row}
use distributed_task_system.Scheduler.Workers.{WorkerInfo}
use distributed_task_system.Scheduler.Loop.{
  in_front, pool_of, rescue_decoded, StreamEntry, Fetched, Decoded, task, invalid, thrown, decode,
  Dispatch, LoopState, skip, dispatch_to, round_robin, run_entries, process_stream_entry,
  rescue_entries, do_rescue, rescue_due, pull, run_round, RpcResult, no_stub, rpc_failed, rejected,
  delivered, do_dispatch, chosen, pool_step,
}

pub Decoded-cases : (d : Decoded) → (d ≡ invalid) ⊎ ((d ≡ thrown) ⊎ ((id : String) × (d ≡ task id)))
Decoded-cases invalid = inl refl
Decoded-cases thrown = inr (inl refl)
Decoded-cases (task id) = inr (inr (id, refl))

abbrev is_thrown : Decoded → Bool
is_thrown thrown = true
is_thrown invalid = false
is_thrown (task id) = false

-- The counter stands for the calls that wait in the pool and for `lost` entries.
abbrev pub IsBalanced : ℕ → LoopState → Type 0
IsBalanced lost s = s.inflight ≡ length s.dispatches + lost

dispatched :
    (w : WorkerInfo) (id sid : String) (s : LoopState)
    → length (dispatch_to w id sid s).dispatches ≡ suc (length s.dispatches)
dispatched w id sid s =
    length-append s.dispatches (record { task_id = id; stream_id = sid; worker = w } ∷ [])
    ∙ omega arith

length-chosen : (n : ℕ) (ds : List Dispatch) → length (chosen n ds) ≡ length ds
unfolding chosen
length-chosen n [] = refl
length-chosen zero (d ∷ ds) = refl
length-chosen (suc n) (d ∷ ds) = after (chosen n ds) (length-chosen n ds)
  where
    after : (l : List Dispatch) → length l ≡ length ds → length (in_front d l) ≡ suc (length ds)
    after [] e = omega (arith, e)
    after (x ∷ xs) e = omega (arith, e)

module _ (fetch : String → Fetched) (from_meta_binary : String → Option String) where
  -- The entries of a pull that a stop or an exception leaves unhandled.
  unfoldable pub abandoned : List (Bool × StreamEntry) → ℕ
  abandoned [] = 0
  abandoned ((stop, e) ∷ rest) =
      if stop then suc (length rest) else (elim (decode fetch from_meta_binary e) [
        | invalid ↦ abandoned rest
        | thrown ↦ suc (length rest)
        | task id ↦ abandoned rest
      ])

  -- The claimed messages that an exception leaves unhandled.
  unfoldable pub abandoned_claims : List (List WorkerInfo × StreamEntry) → ℕ
  abandoned_claims [] = 0
  abandoned_claims ((available, e) ∷ rest) =
      let later = abandoned_claims rest in
      if is_thrown (decode fetch from_meta_binary e) then suc (length rest) else later

  run_entries-IsBalanced :
      (w : WorkerInfo) (ws : List WorkerInfo) (idx k : ℕ) (entries : List (Bool × StreamEntry))
      (s : LoopState)
      → IsBalanced (k + length entries) s
      → IsBalanced (k + abandoned entries) (run_entries fetch from_meta_binary w ws idx entries s)
  unfolding run_entries abandoned
  run_entries-IsBalanced w ws idx k [] s b = b
  run_entries-IsBalanced w ws idx k ((true, e) ∷ rest) s b = b
  run_entries-IsBalanced w ws idx k ((false, e) ∷ rest) s b =
      elim (Decoded-cases (decode fetch from_meta_binary e)) [
        | inl i ↦
            rw i (run_entries-IsBalanced w ws idx k rest (skip e.stream_id s) (omega (arith, b)))
        | inr o ↦ elim o [
          | inl t ↦ rw t b
          | inr (id, t) ↦
              (let d = dispatched (round_robin w ws idx) id e.stream_id s in
                rw t (
                  run_entries-IsBalanced w ws (suc idx) k rest
                    (dispatch_to (round_robin w ws idx) id e.stream_id s) (omega (arith, b, d))))
        ]
      ]

  one_rescue :
      (k : ℕ) (rest : List (List WorkerInfo × StreamEntry)) (ws : List WorkerInfo) (sid : String)
      (d : Decoded) (s : LoopState)
      → IsBalanced (k + suc (length rest)) s
      → ((t : LoopState)
          → IsBalanced (k + length rest) t
          → IsBalanced (k + abandoned_claims rest) (rescue_entries fetch from_meta_binary rest t))
      → IsBalanced (k + (if is_thrown d then suc (length rest) else abandoned_claims rest)) (
          get_or
            (rescue_decoded fetch from_meta_binary ws sid d s >>= λ t.
              some (rescue_entries fetch from_meta_binary rest t))
            s)
  one_rescue k rest ws sid invalid s b later = later (skip sid s) (omega (arith, b))
  one_rescue k rest ws sid thrown s b later = b
  one_rescue k rest [] sid (task id) s b later =
      later (record s { inflight = s.inflight - 1 }) (omega (arith, b))
  one_rescue k rest (v ∷ vs) sid (task id) s b later =
      let d = dispatched v id sid s in later (dispatch_to v id sid s) (omega (arith, b, d))

  rescue_entries-IsBalanced :
      (k : ℕ) (claimed : List (List WorkerInfo × StreamEntry)) (s : LoopState)
      → IsBalanced (k + length claimed) s
      → IsBalanced (k + abandoned_claims claimed) (rescue_entries fetch from_meta_binary claimed s)
  unfolding rescue_entries abandoned_claims process_stream_entry
  rescue_entries-IsBalanced k [] s b = b
  rescue_entries-IsBalanced k ((available, e) ∷ rest) s b =
      one_rescue k rest available e.stream_id (decode fetch from_meta_binary e) s b
        (rescue_entries-IsBalanced k rest)

  abbrev lost_rescued : Option (List (List WorkerInfo × StreamEntry)) → ℕ
  lost_rescued none = 0
  lost_rescued (some claimed) = abandoned_claims claimed

  abbrev lost_pulled : List WorkerInfo → List (Bool × StreamEntry) → ℕ
  lost_pulled [] entries = 0
  lost_pulled (w ∷ ws) entries = abandoned entries

  rescue-IsBalanced :
      (k : ℕ) (rescued : Option (List (List WorkerInfo × StreamEntry))) (s : LoopState)
      → IsBalanced k s
      → IsBalanced (k + lost_rescued rescued) (rescue_due fetch from_meta_binary rescued s)
  unfolding do_rescue
  rescue-IsBalanced k none s b = omega (arith, b)
  rescue-IsBalanced k (some claimed) s b =
      rescue_entries-IsBalanced k claimed (record s { inflight = s.inflight + length claimed })
        (omega (arith, b))

  pull-IsBalanced :
      (k : ℕ) (ws : List WorkerInfo) (entries : List (Bool × StreamEntry)) (s : LoopState)
      → IsBalanced k s
      → IsBalanced (k + lost_pulled ws entries) (pull fetch from_meta_binary ws entries s)
  pull-IsBalanced k [] entries s b = omega (arith, b)
  pull-IsBalanced k (w ∷ ws) entries s b =
      run_entries-IsBalanced w ws 0 k entries (record s { inflight = s.inflight + length entries })
        (omega (arith, b))

  module _ (available : Dict WorkerInfo → List WorkerInfo) where
    -- What happens to the counter: a round of the loop, or the end of a call in the pool.
    pub data Event : Type 0 where
      round : Option (List (List WorkerInfo × StreamEntry)) → List (Bool × StreamEntry) → Event
      call_ends : ℕ → RpcResult → Bool → Event

    -- The entries that an event leaves unhandled.
    abbrev pub lost : Event → LoopState → ℕ
    lost (round rescued entries) s =
        if ltb 2000 s.inflight
        then 0
        else lost_rescued rescued
          + lost_pulled (available (rescue_due fetch from_meta_binary rescued s).workers) entries
    lost (call_ends n result connected) s = 0

    abbrev pub after_event : Event → LoopState × List Row → LoopState × List Row
    after_event (round rescued entries) (s, rows) =
        (run_round fetch from_meta_binary rescued available entries s, rows)
    after_event (call_ends n result connected) (s, rows) = pool_step n result connected (s, rows)

    unfoldable pub run_events : List Event → LoopState × List Row → LoopState × List Row
    run_events [] s = s
    run_events (e ∷ es) s = run_events es (after_event e s)

    unfoldable pub total_lost : List Event → LoopState × List Row → ℕ
    total_lost [] s = 0
    total_lost (e ∷ es) s = lost e s.0 + total_lost es (after_event e s)

    sum : (a b c : ℕ) → (a + b) + c ≡ a + (b + c)
    sum a b c = omega arith

    round-IsBalanced :
        (k : ℕ) (rescued : Option (List (List WorkerInfo × StreamEntry)))
        (entries : List (Bool × StreamEntry)) (s : LoopState)
        → IsBalanced k s
        → IsBalanced
            (k + lost (round rescued entries) s)
            (run_round fetch from_meta_binary rescued available entries s)
    unfolding run_round
    round-IsBalanced k rescued entries s b = elim (Bool-cases (ltb 2000 s.inflight)) [
      | inl y ↦ rw y (omega (arith, b))
      | inr z ↦ rw z (
          let t = rescue_due fetch from_meta_binary rescued s in
          let b' =
            pull-IsBalanced (k + lost_rescued rescued) (available t.workers) entries t
              (rescue-IsBalanced k rescued s b) in
          b'
          ∙ ap
              (λ n.
                length (pull fetch from_meta_binary (available t.workers) entries t).dispatches + n)
              (sum k (lost_rescued rescued) (lost_pulled (available t.workers) entries)))
    ]

    call-IsBalanced :
        (k n : ℕ) (result : RpcResult) (connected : Bool) (s : LoopState) (rows : List Row)
        → IsBalanced k s
        → IsBalanced (k + 0) (pool_step n result connected (s, rows)).0
    unfolding pool_step do_dispatch
    call-IsBalanced k n result connected s rows b =
        one_call result (chosen n s.dispatches) (length-chosen n s.dispatches)
      where
        shorter :
            (d : Dispatch) (ds : List Dispatch)
            → length (d ∷ ds) ≡ length s.dispatches
            → s.inflight - 1 ≡ length ds + (k + 0)
        shorter d ds e = omega (arith, b, e)

        one_call :
            (x : RpcResult) (l : List Dispatch)
            → length l ≡ length s.dispatches
            → IsBalanced (k + 0) (pool_of x connected l (s, rows)).0
        one_call x [] e = omega (arith, b)
        one_call delivered (d ∷ ds) e = shorter d ds e
        one_call no_stub (d ∷ ds) e = shorter d ds e
        one_call rpc_failed (d ∷ ds) e = shorter d ds e
        one_call rejected (d ∷ ds) e = shorter d ds e

    event-IsBalanced :
        (k : ℕ) (e : Event) (s : LoopState × List Row)
        → IsBalanced k s.0
        → IsBalanced (k + lost e s.0) (after_event e s).0
    event-IsBalanced k (round rescued entries) s b = round-IsBalanced k rescued entries s.0 b
    event-IsBalanced k (call_ends n result connected) s b =
        call-IsBalanced k n result connected s.0 s.1 b

    -- If the counter is the number of calls that wait in the pool plus a number of lost entries,
    -- then whatever rounds and ends of calls follow each other it still is, where each round adds
    -- the entries that it counted but left unhandled, because the loop was stopped or the
    -- connection threw in the middle of a batch; these are never taken off again.
    pub inflight-IsBalanced :
        (es : List Event) (k : ℕ) (s : LoopState × List Row)
        → IsBalanced k s.0
        → IsBalanced (k + total_lost es s) (run_events es s).0
    unfolding run_events total_lost
    inflight-IsBalanced [] k s b = omega (arith, b)
    inflight-IsBalanced (e ∷ es) k s b =
        let later =
          inflight-IsBalanced es (k + lost e s.0) (after_event e s) (event-IsBalanced k e s b) in
        subst (λ n. IsBalanced n (run_events es (after_event e s)).0)
          (sum k (lost e s.0) (total_lost es (after_event e s))) later
