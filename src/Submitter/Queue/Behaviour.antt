-- ===== src/Submitter/Queue/Behaviour.antt =====
-- The queue of TaskSubmitter over any sequence of requests, flusher rounds and a shutdown.
use distributed_task_system.Common.{
  ℕ, ◌≤◌, String, ◌≡◌, refl, sym, ap, ◌∙◌, inl, inr, Bool, true, false, not, ◌&&◌, ◌||◌, List, [],
  ◌∷◌, ◌++◌, arith, leb, Bool-cases, length, is_empty, length-append,
}
use mathlib.Core.List.{append-nil, append_assoc}
use distributed_task_system.Submitter.{SubmitDagRequest, BatchItem}
use distributed_task_system.Submitter.Queue.{
  State, Reply, accepted, queue_full, Round, leave, again, flush, new_item, submit_dag_async,
  flusher_round, max_queue_size,
}

-- What threads do to the queue: a request, a round of a flusher, the destructor.
pub data Event : Type 0 where
  request : SubmitDagRequest → Event
  wake : Bool → Event
  stop : Event

-- The state with the items that have been accepted and those that a flusher has taken, oldest first.
pub record Trace : Type 0 where
  pub state : State
  pub taken_in : List BatchItem
  pub taken_out : List BatchItem

abbrev pub initial : Trace
initial = record {
  state = record { pending_queue = []; running = true; generated = 0 };
  taken_in = [];
  taken_out = [];
}

abbrev batch_of : Round → List BatchItem
batch_of leave = []
batch_of again = []
batch_of (flush b) = b

abbrev items_of : Reply → BatchItem → List BatchItem
items_of (accepted id notify) i = i ∷ []
items_of queue_full i = []

module _ (generate : ℕ → String) where
  unfoldable pub step : Event → Trace → Trace
  step (request req) t =
      let (reply, s) = submit_dag_async generate req t.state in
      record t {
        state = s;
        taken_in = t.taken_in ++ items_of reply (new_item generate t.state.generated req);
      }
  step (wake running) t =
      let (round, s) = flusher_round running t.state in
      record t { state = s; taken_out = t.taken_out ++ batch_of round }
  step stop t = record t { state = record t.state { running = false } }

  unfoldable pub run : List Event → Trace → Trace
  run [] t = t
  run (e ∷ es) t = run es (step e t)

  -- What holds of the queue at any time.
  pub record IsFifo (t : Trace) : Type 0 where
    pub order : t.taken_in ≡ t.taken_out ++ t.state.pending_queue
    pub bounded : length t.state.pending_queue ≤ max_queue_size

  step-IsFifo : (e : Event) (t : Trace) → IsFifo t → IsFifo (step e t)
  unfolding step submit_dag_async flusher_round
  step-IsFifo (request req) t f =
      elim (Bool-cases (leb max_queue_size (length t.state.pending_queue))) [
        | inl full ↦ rw full record { order = append-nil _ ∙ f.order; bounded = f.bounded }
        | inr free ↦
            (let i = new_item generate t.state.generated req in
              rw free record {
                order =
                    ap (λ l. l ++ i ∷ []) f.order
                    ∙ append_assoc t.taken_out t.state.pending_queue (i ∷ []);
                bounded =
                    let e = length-append t.state.pending_queue (i ∷ []) in ground (arith, e, free);
              })
      ]
  step-IsFifo (wake running) t f =
      elim (Bool-cases (not running || (not t.state.running && is_empty t.state.pending_queue))) [
        | inl out ↦ rw out record {
          order = f.order ∙ ap (λ l. l ++ t.state.pending_queue) (sym (append-nil t.taken_out));
          bounded = f.bounded;
        }
        | inr go ↦ elim (Bool-cases (is_empty t.state.pending_queue)) [
          | inl none_left ↦
              rw (go, none_left)
                record {
                  order =
                      f.order ∙ ap (λ l. l ++ t.state.pending_queue) (sym (append-nil t.taken_out));
                  bounded = f.bounded;
                }
          | inr some_left ↦
              rw (go, some_left)
                record { order = f.order ∙ sym (append-nil _); bounded = omega arith }
        ]
      ]
  step-IsFifo stop t f = record { order = f.order; bounded = f.bounded }

  run-IsFifo : (es : List Event) (t : Trace) → IsFifo t → IsFifo (run es t)
  unfolding run
  run-IsFifo [] t f = f
  run-IsFifo (e ∷ es) t f = run-IsFifo es (step e t) (step-IsFifo e t f)

  -- What one more round of a flusher does: where running_ was true at the head of its loop, nothing
  -- waits afterwards and all that was accepted has been taken; where it was false, it takes nothing.
  pub record IsServed (t : Trace) : Type 0 where
    pub emptied : (step (wake true) t).state.pending_queue ≡ []
    pub handed_over : (step (wake true) t).taken_out ≡ t.taken_in
    pub left_alone : step (wake false) t ≡ t

  empty_queue : (q : List BatchItem) → is_empty q ≡ true → q ≡ []
  empty_queue [] e = refl
  empty_queue (i ∷ q) e = cc

  round_empties :
      (s : State)
      → ((flusher_round true s).1.pending_queue ≡ [])
        × (batch_of (flusher_round true s).0 ≡ s.pending_queue)
  unfolding flusher_round
  round_empties s = elim (Bool-cases (not s.running && is_empty s.pending_queue)) [
    | inl out ↦
        (let none_left = empty_queue s.pending_queue (ground (arith, out)) in
          rw out (none_left, sym none_left))
    | inr go ↦ elim (Bool-cases (is_empty s.pending_queue)) [
      | inl idle ↦
          (let none_left = empty_queue s.pending_queue idle in
            rw (go, idle) (none_left, sym none_left))
      | inr some_left ↦ rw (go, some_left) (refl, refl)
    ]
  ]

  wakes_empty :
      (t : Trace)
      → ((step (wake true) t).state.pending_queue ≡ [])
        × ((step (wake true) t).taken_out ≡ t.taken_out ++ t.state.pending_queue)
  unfolding step
  wakes_empty t =
      let (none_left, all) = round_empties t.state in (none_left, ap (λ l. t.taken_out ++ l) all)

  wake_false : (t : Trace) → step (wake false) t ≡ t
  unfolding step flusher_round
  wake_false t = ap (λ l. record t { taken_out = l }) (append-nil t.taken_out)

  served : (t : Trace) → IsFifo t → IsServed t
  served t f =
      let (none_left, out) = wakes_empty t in
      record { emptied = none_left; handed_over = out ∙ sym f.order; left_alone = wake_false t }

  -- From the empty queue, whatever requests, flusher rounds and shutdown happen in whatever order: the
  -- accepted items are, in the order of acceptance, those that flushers have taken followed by
  -- those that wait, at most max_queue_size of them. One more round of a flusher that found running_
  -- true at the head of its loop takes all that wait, also after the shutdown; one that found it
  -- false takes nothing, so that what waits when the last flusher leaves stays behind.
  pub queue-IsFifo : (es : List Event) → IsFifo (run es initial) × IsServed (run es initial)
  queue-IsFifo es =
      let f = run-IsFifo es initial (record { order = refl; bounded = omega arith }) in
      (f, served (run es initial) f)
