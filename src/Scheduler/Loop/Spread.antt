-- ===== src/Scheduler/Loop/Spread.antt =====
-- How the tasks of one pull of SchedulerLoop are spread over the workers.
use distributed_task_system.Common.{
  ℕ, suc, ◌+◌, ◌%◌, ◌≤◌, String, ◌≡◌, refl, subst, inl, inr, Bool, true, false, Option, some, List,
  [], ◌∷◌, map, arith, ltb, Bool-cases, ltb→lt, length, get_elem?, count, count-append, Dict,
}
use distributed_task_system.Turns.{hit, Spread, Spread-none, Spread-before}
use mathlib.Core.List.{map-append}
use native.Mathlib.Nat.{mod-lt, zero-mod}
use distributed_task_system.Scheduler.Workers.{
  WorkerInfo, IsIndexed, available, get_available_workers_sorted,
}
use distributed_task_system.Scheduler.Workers.Sorted.{
  ids, IsUnique, is_less_loaded, available-count, positions, at_some, at-lt, IsSort,
}
use distributed_task_system.Scheduler.Loop.Inflight.{Decoded-cases}
use distributed_task_system.Scheduler.Loop.{
  StreamEntry, Fetched, Dispatch, LoopState, skip, dispatch_to, round_robin, decode, run_entries,
  pull,
}

-- The calls that wait for a worker.
abbrev pub calls : String → LoopState → ℕ
calls id s = count id (map (λ (d : Dispatch). d.worker.worker_id) s.dispatches)

module _ (fetch : String → Fetched) (from_meta_binary : String → Option String) (w : WorkerInfo)
    (ws : List WorkerInfo) (unique : IsUnique (w ∷ ws)) (i j : ℕ) (a b : WorkerInfo)
    (at_i : get_elem? (w ∷ ws) i ≡ some a) (at_j : get_elem? (w ∷ ws) j ≡ some b)
    (order : i ≤ j) where
  -- One call more, for the worker whose turn it is.
  calls-dispatch :
      (k : ℕ) (c : WorkerInfo) (idx : ℕ) (id stream_id : String) (s : LoopState)
      → get_elem? (w ∷ ws) k ≡ some c
      → calls c.worker_id (dispatch_to (round_robin w ws idx) id stream_id s)
        ≡ calls c.worker_id s + hit k (idx % length (w ∷ ws))
  unfolding count
  calls-dispatch k c idx id stream_id s at =
      let r = idx % length (w ∷ ws) in
      let (d, at_r) = at_some (w ∷ ws) r (mod-lt idx {m = length (w ∷ ws)} (omega arith)) in
      let same = positions (w ∷ ws) k r c d unique at at_r in
      let picked : round_robin w ws idx ≡ d = rw at_r refl in
      rw
        (
          map-append (λ (x : Dispatch). x.worker.worker_id) s.dispatches _,
          count-append c.worker_id (map (λ (x : Dispatch). x.worker.worker_id) s.dispatches) _,
          picked,
          same,
        )
        (ground arith)

  record Served (idx : ℕ) (s t : LoopState) : Type 0 where
    na : ℕ
    nb : ℕ
    for_a : calls a.worker_id t ≡ calls a.worker_id s + na
    for_b : calls b.worker_id t ≡ calls b.worker_id s + nb
    spread : Spread i j (idx % length (w ∷ ws)) na nb

  nothing : (idx : ℕ) (s : LoopState) → Served idx s s
  nothing idx s = record {
    na = 0;
    nb = 0;
    for_a = omega arith;
    for_b = omega arith;
    spread = Spread-none i j _ order;
  }

  then_serves :
      (idx : ℕ) (id stream_id : String) (s t : LoopState)
      → Served (suc idx) (dispatch_to (round_robin w ws idx) id stream_id s) t
      → Served idx s t
  then_serves idx id stream_id s t k =
      let first_a = calls-dispatch i a idx id stream_id s at_i in
      let first_b = calls-dispatch j b idx id stream_id s at_j in
      record {
        na = hit i (idx % length (w ∷ ws)) + k.na;
        nb = hit j (idx % length (w ∷ ws)) + k.nb;
        for_a = omega (arith, k.for_a, first_a);
        for_b = omega (arith, k.for_b, first_b);
        spread =
            Spread-before (length ws) i j (omega (arith, at-lt (w ∷ ws) i a at_i))
              (omega (arith, at-lt (w ∷ ws) j b at_j)) order idx k.na k.nb k.spread;
      }

  run_entries-Served :
      (entries : List (Bool × StreamEntry)) (idx : ℕ) (s : LoopState)
      → Served idx s (run_entries fetch from_meta_binary w ws idx entries s)
  unfolding run_entries
  run_entries-Served [] idx s = nothing idx s
  run_entries-Served ((true, e) ∷ rest) idx s = nothing idx s
  run_entries-Served ((false, e) ∷ rest) idx s =
      elim (Decoded-cases (decode fetch from_meta_binary e)) [
        | inl bad ↦ rw bad (
            let k = run_entries-Served rest idx (skip e.stream_id s) in
            record { na = k.na; nb = k.nb; for_a = k.for_a; for_b = k.for_b; spread = k.spread })
        | inr o ↦ elim o [
          | inl t ↦ rw t (nothing idx s)
          | inr (id, t) ↦
              rw t (then_serves idx id e.stream_id s _ (run_entries-Served rest (suc idx) _))
        ]
      ]

-- The calls that one pull makes for two workers.
pub record Shares (a b : WorkerInfo) (s t : LoopState) : Type 0 where
  pub na : ℕ
  pub nb : ℕ
  pub for_a : calls a.worker_id t ≡ calls a.worker_id s + na
  pub for_b : calls b.worker_id t ≡ calls b.worker_id s + nb
  pub at_least : nb ≤ na
  pub at_most : na ≤ suc nb

pull-Shares :
    (fetch : String → Fetched) (from_meta_binary : String → Option String) (l : List WorkerInfo)
    (i j : ℕ) (a b : WorkerInfo) (entries : List (Bool × StreamEntry)) (s : LoopState)
    → IsUnique l
    → get_elem? l i ≡ some a
    → get_elem? l j ≡ some b
    → i ≤ j
    → Shares a b s (pull fetch from_meta_binary l entries s)
pull-Shares fetch fm [] i j a b entries s u h k le = absurd (ground (arith, h))
pull-Shares fetch fm (w ∷ ws) i j a b entries s u h k le =
    let c =
      run_entries-Served fetch fm w ws u i j a b h k le entries 0
        (record s { inflight = s.inflight + length entries }) in
    let turn = subst (λ r. Spread i j r c.na c.nb) (zero-mod (length (w ∷ ws))) c.spread in
    record {
      na = c.na;
      nb = c.nb;
      for_a = c.for_a;
      for_b = c.for_b;
      at_least = ground (arith, turn.0);
      at_most = ground (arith, turn.1);
    }

-- One pull over a table where no id stands twice, with the workers in time, sorted as std::sort does, and
-- whatever the messages are: of two available workers the one that has fewer tasks gets as many
-- calls as the other, or one more.
pub pull_prefers_idle :
    (fetch : String → Fetched) (from_meta_binary : String → Option String)
    (sort : List WorkerInfo → List WorkerInfo) (timeout now : ℕ) (workers : Dict WorkerInfo)
    (i j : ℕ) (a b : WorkerInfo) (entries : List (Bool × StreamEntry)) (s : LoopState)
    → IsSort sort
    → IsIndexed workers
    → get_elem? (get_available_workers_sorted sort timeout now workers) i ≡ some a
    → get_elem? (get_available_workers_sorted sort timeout now workers) j ≡ some b
    → is_less_loaded a b ≡ true
    → Shares a b s (
        pull fetch from_meta_binary
          (get_available_workers_sorted sort timeout now workers)
          entries
          s)
unfolding get_available_workers_sorted
pull_prefers_idle fetch fm sort timeout now workers i j a b entries s std u h k less =
    pull-Shares fetch fm (sort l) i j a b entries s unique h k (elim (Bool-cases (ltb j i)) [
      | inl before ↦ absurd (cc (less, std.ordered l j i b a (ltb→lt j i before) k h))
      | inr fine ↦ ground (arith, fine)
    ])
  where
    l : List WorkerInfo
    l = available timeout now workers

    unique : (x : String) → count x (ids (sort l)) ≤ 1
    unique x = ground (arith, std.same l x, available-count timeout now workers u x)
