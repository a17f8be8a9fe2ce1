-- ===== src/Scheduler/Batcher/Running.antt =====
-- Start, RunLoop and Stop of src/scheduler/src/db_batcher.cpp as steps, among which updates arrive.
pub mod Stopping
use distributed_task_system.Common.{
  ℕ, zero, suc, ◌≤◌, ◌<◌, ◌≡◌, refl, sym, ap, subst, ◌∙◌, Bool, true, false, ◌&&◌, List, [], ◌∷◌,
  ◌++◌, if◌then◌else◌, length, is_empty, All, All-append,
}
use mathlib.Core.List.{append-nil, append_assoc}
use distributed_task_system.Scheduler.Batcher.{
  TaskUpdateOp, batch_size, add_status_update, collect, concat, collect-append, collect-bounds,
  first_taken,
}

-- Where the thread is: at the test of the loop, at the lock, or returned.
pub data Phase : Type 0 where
  testing : Phase
  locking : Phase
  returned : Phase

-- `flushed` is the trace of the batches that went to FlushBatch.
pub record Batcher : Type 0 where
  pub queue : List TaskUpdateOp
  pub stop_flag : Bool
  pub phase : Phase
  pub flushed : List (List TaskUpdateOp)

abbrev pub started : Batcher
started = record { queue = []; stop_flag = false; phase = testing; flushed = [] }

-- The body of the loop from the return of wait_for, with the queue as it is then.
unfoldable pub run_body : List TaskUpdateOp → Bool → Batcher → Batcher
run_body [] true b = record b { phase = returned }
run_body [] false b = record b { phase = testing }
run_body (op ∷ queue) stopped b =
    let (batch, rest) = collect batch_size (op ∷ queue) in
    record b { queue = rest; phase = testing; flushed = b.flushed ++ batch ∷ [] }

-- One step of RunLoop.
unfoldable pub loop_turn : Phase → Batcher → Batcher
loop_turn testing b = record b {
  phase = if b.stop_flag && is_empty b.queue then returned else locking;
}
loop_turn locking b = run_body b.queue b.stop_flag b
loop_turn returned b = b

pub data BatcherEvent : Type 0 where
  added : TaskUpdateOp → BatcherEvent
  turned : BatcherEvent

unfoldable pub on_event : BatcherEvent → Batcher → Batcher
on_event (added op) b = record b { queue = (add_status_update op b.queue).1 }
on_event turned b = loop_turn b.phase b

unfoldable pub run_batcher : List BatcherEvent → Batcher → Batcher
run_batcher [] b = b
run_batcher (e ∷ es) b = run_batcher es (on_event e b)

-- Stop, up to its join.
unfoldable pub stop_batcher : Batcher → Batcher
stop_batcher b = record b { stop_flag = true }

unfoldable pub turns : ℕ → Batcher → Batcher
turns zero b = b
turns (suc n) b = turns n (loop_turn b.phase b)

-- The updates among the events.
unfoldable pub updates : List BatcherEvent → List TaskUpdateOp
updates [] = []
updates (added op ∷ es) = op ∷ updates es
updates (turned ∷ es) = updates es

abbrev pub IsBatch : List TaskUpdateOp → Type 0
IsBatch batch = (0 < length batch) × (length batch ≤ batch_size)

-- The batches and the queue are `given`, in its order.
pub record Kept (given : List TaskUpdateOp) (b : Batcher) : Type 0 where
  pub complete : concat b.flushed ++ b.queue ≡ given
  pub small : All IsBatch b.flushed

concat-append :
    (bs : List (List TaskUpdateOp)) (b : List TaskUpdateOp) → concat (bs ++ b ∷ []) ≡ concat bs ++ b
unfolding concat
concat-append [] b = append-nil b
concat-append (x ∷ bs) b =
    ap (λ l. x ++ l) (concat-append bs b) ∙ sym (append_assoc x (concat bs) b)

run_body-Kept :
    (queue : List TaskUpdateOp) (stopped : Bool) (given : List TaskUpdateOp) (b : Batcher)
    → b.queue ≡ queue
    → Kept given b
    → Kept given (run_body queue stopped b)
unfolding run_body
run_body-Kept [] true given b e k = record { complete = k.complete; small = k.small }
run_body-Kept [] false given b e k = record { complete = k.complete; small = k.small }
run_body-Kept (op ∷ queue) stopped given b e k =
    let (batch, rest) = collect batch_size (op ∷ queue) in
    record {
      complete =
          ap (λ l. l ++ rest) (concat-append b.flushed batch)
          ∙ append_assoc (concat b.flushed) batch rest
          ∙ ap (λ l. concat b.flushed ++ l) (collect-append batch_size (op ∷ queue) ∙ sym e)
          ∙ k.complete;
      small =
          All-append IsBatch b.flushed (batch ∷ []) k.small
            ((first_taken 999 op queue, (collect-bounds batch_size (op ∷ queue)).0), tt);
    }

pub loop_turn-Kept :
    (p : Phase) (given : List TaskUpdateOp) (b : Batcher)
    → Kept given b
    → Kept given (loop_turn p b)
unfolding loop_turn
loop_turn-Kept testing given b k = record { complete = k.complete; small = k.small }
loop_turn-Kept locking given b k = run_body-Kept b.queue b.stop_flag given b refl k
loop_turn-Kept returned given b k = k

pub turns-Kept :
    (n : ℕ) (given : List TaskUpdateOp) (b : Batcher) → Kept given b → Kept given (turns n b)
unfolding turns
turns-Kept zero given b k = k
turns-Kept (suc n) given b k = turns-Kept n given _ (loop_turn-Kept b.phase given b k)

pub run_batcher-Kept :
    (es : List BatcherEvent) (given : List TaskUpdateOp) (b : Batcher)
    → Kept given b
    → Kept (given ++ updates es) (run_batcher es b)
unfolding run_batcher on_event updates add_status_update
run_batcher-Kept [] given b k = rw append-nil k
run_batcher-Kept (added op ∷ es) given b k =
    subst (λ l. Kept l (run_batcher es (on_event (added op) b)))
      (append_assoc given (op ∷ []) (updates es))
      (run_batcher-Kept es (given ++ op ∷ []) _ (record {
        complete =
            sym (append_assoc (concat b.flushed) b.queue (op ∷ []))
            ∙ ap (λ l. l ++ op ∷ []) k.complete;
        small = k.small;
      }))
run_batcher-Kept (turned ∷ es) given b k =
    run_batcher-Kept es given _ (loop_turn-Kept b.phase given b k)
