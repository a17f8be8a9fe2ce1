-- ===== src/Scheduler/Batcher/Running/Stopping.antt =====
-- DbBatcher::Stop: its join returns, and every update has then gone to FlushBatch.
use distributed_task_system.Common.{
  ℕ, zero, suc, ◌+◌, ◌≤◌, ◌<◌, ◌≡◌, refl, sym, ap, ◌∙◌, Bool, true, false, List, [], ◌∷◌, ◌++◌,
  arith, length, All,
}
use mathlib.Core.List.{append-nil}
use distributed_task_system.Scheduler.Batcher.{
  TaskUpdateOp, batch_size, collect, concat, collect-bounds, first_taken,
}
use distributed_task_system.Scheduler.Batcher.Running.{
  Phase, testing, locking, returned, Batcher, started, run_body, loop_turn, BatcherEvent, added,
  turned, on_event, run_batcher, stop_batcher, turns, updates, IsBatch, turns-Kept,
  run_batcher-Kept,
}

-- How many more steps the loop takes at most, when no update arrives.
abbrev steps_left : Phase → ℕ → ℕ
steps_left testing l = (l + l) + 2
steps_left locking l = (l + l) + 1
steps_left returned l = 0

-- The loop has returned only with an empty queue.
abbrev IsClean : Phase → List TaskUpdateOp → Type 0
IsClean returned queue = queue ≡ []
IsClean _ queue = Unit

abbrev is_returned : Phase → Bool
is_returned returned = true
is_returned _ = false

-- The flag is up.
abbrev stopped_at : Phase → List TaskUpdateOp → List (List TaskUpdateOp) → Batcher
stopped_at p queue flushed = record {
  queue = queue;
  stop_flag = true;
  phase = p;
  flushed = flushed;
}

fewer : (a b l n : ℕ) → a + b ≡ suc l → 0 < a → suc l + suc l + 1 ≤ suc n → (b + b) + 2 ≤ n
fewer a b l n e h k = omega (arith, e, h, k)

turns_end :
    (n : ℕ) (p : Phase) (queue : List TaskUpdateOp) (flushed : List (List TaskUpdateOp))
    → IsClean p queue
    → steps_left p (length queue) ≤ n
    → let b = turns n (stopped_at p queue flushed) in (b.phase ≡ returned) × (b.queue ≡ [])
unfolding turns loop_turn run_body
turns_end zero testing queue fl clean h = absurd (omega (arith, h))
turns_end zero locking queue fl clean h = absurd (omega (arith, h))
turns_end zero returned queue fl clean h = (refl, clean)
turns_end (suc n) testing [] fl clean h = turns_end n returned [] fl refl (omega arith)
turns_end (suc n) testing (op ∷ queue) fl clean h =
    turns_end n locking (op ∷ queue) fl tt (omega (arith, h))
turns_end (suc n) locking [] fl clean h = turns_end n returned [] fl refl (omega arith)
turns_end (suc n) locking (op ∷ queue) fl clean h =
    let (batch, rest) = collect batch_size (op ∷ queue) in
    turns_end n testing rest (fl ++ batch ∷ []) tt (
      fewer (length batch) (length rest) (length queue) n (collect-bounds batch_size (op ∷ queue)).1
        (first_taken 999 op queue) h)
turns_end (suc n) returned queue fl clean h = turns_end n returned queue fl clean (omega arith)

-- Before Stop the loop does not return.
record IsRunning (b : Batcher) : Type 0 where
  flag : b.stop_flag ≡ false
  goes_on : is_returned b.phase ≡ false

run_body-IsRunning :
    (queue : List TaskUpdateOp) (stopped : Bool) (b : Batcher)
    → stopped ≡ false
    → IsRunning b
    → IsRunning (run_body queue stopped b)
unfolding run_body
run_body-IsRunning [] true b e k = absurd (ground (arith, e))
run_body-IsRunning [] false b e k = record { flag = k.flag; goes_on = refl }
run_body-IsRunning (op ∷ queue) stopped b e k = record { flag = k.flag; goes_on = refl }

loop_turn-IsRunning :
    (p : Phase) (b : Batcher) → b.phase ≡ p → IsRunning b → IsRunning (loop_turn p b)
unfolding loop_turn
loop_turn-IsRunning testing b e k = record { flag = k.flag; goes_on = rw k.flag refl }
loop_turn-IsRunning locking b e k = run_body-IsRunning b.queue b.stop_flag b k.flag k
loop_turn-IsRunning returned b e k = k

run_batcher-IsRunning :
    (es : List BatcherEvent) (b : Batcher) → IsRunning b → IsRunning (run_batcher es b)
unfolding run_batcher on_event
run_batcher-IsRunning [] b k = k
run_batcher-IsRunning (added op ∷ es) b k =
    run_batcher-IsRunning es _ (record { flag = k.flag; goes_on = k.goes_on })
run_batcher-IsRunning (turned ∷ es) b k =
    run_batcher-IsRunning es _ (loop_turn-IsRunning b.phase b refl k)

running-IsClean : (p : Phase) (queue : List TaskUpdateOp) → is_returned p ≡ false → IsClean p queue
running-IsClean testing queue h = tt
running-IsClean locking queue h = tt
running-IsClean returned queue h = absurd (ground (arith, h))

steps_left-bound : (p : Phase) (l m : ℕ) → l ≤ m → steps_left p l ≤ (m + m) + 2
steps_left-bound testing l m h = omega (arith, h)
steps_left-bound locking l m h = omega (arith, h)
steps_left-bound returned l m h = omega arith

queue-bound : (bs q given : List TaskUpdateOp) → bs ++ q ≡ given → length q ≤ length given
queue-bound [] q given e = omega (arith, ap length e)
queue-bound (b ∷ bs) q given e = omega (arith, ap length (sym e), queue-bound bs q (bs ++ q) refl)

-- From the start of the thread, updates arrive and the loop takes steps in any order; then Stop sets its flag and no
-- update arrives any more. In twice as many further steps as there were updates, and two, the loop has
-- returned, so that the join of Stop ends. The batches that it has given to FlushBatch by then hold one
-- to 1000 updates each, and one after the other they are all the updates, in the order of their arrival.
pub stop_flushes_every :
    (es : List BatcherEvent) (n : ℕ)
    → (length (updates es) + length (updates es)) + 2 ≤ n
    → let b = turns n (stop_batcher (run_batcher es started)) in
      (b.phase ≡ returned) × (concat b.flushed ≡ updates es) × All IsBatch b.flushed
unfolding stop_batcher concat
stop_flushes_every es n h =
    let b = run_batcher es started in
    let running = run_batcher-IsRunning es started (record { flag = refl; goes_on = refl }) in
    let kept = run_batcher-Kept es [] started (record { complete = refl; small = tt }) in
    let done =
      turns-Kept n (updates es) (stop_batcher b)
        (record { complete = kept.complete; small = kept.small }) in
    let (ended, empty) =
      turns_end n b.phase b.queue b.flushed (running-IsClean b.phase b.queue running.goes_on) (
        omega (
          arith,
          h,
          steps_left-bound b.phase (length b.queue) (length (updates es))
              (queue-bound (concat b.flushed) b.queue (updates es) kept.complete),
        )) in
    (
      ended,
      sym (append-nil _)
          ∙ ap (λ q. concat (turns n (stop_batcher b)).flushed ++ q) (sym empty)
          ∙ done.complete,
      done.small,
    )
