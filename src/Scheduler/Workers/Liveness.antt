-- ===== src/Scheduler/Workers/Liveness.antt =====
-- Dead workers: what PruneDeadWorkers takes away, and how a worker comes back.
use distributed_task_system.Common.{
  ℕ, String, ◌≡◌, refl, ap, subst, ◌∙◌, inl, inr, Bool, true, false, Option, none, some, List, [],
  ◌∷◌, arith, str_eq, eq_iff, eq_refl, if◌then◌else◌, Bool-cases, mem, ℤ, Dict, find, find-put,
}
use distributed_task_system.Scheduler.Workers.{
  WorkerInfo, IsIndexed, timed_out, available, prune_dead_workers, handle_heartbeat,
  handle_register,
}

abbrev in_time : ℕ → ℕ → Option WorkerInfo → Option WorkerInfo
in_time timeout now none = none
in_time timeout now (some w) = if timed_out timeout now w then none else some w

abbrev is_late : ℕ → ℕ → Option WorkerInfo → Bool
is_late timeout now none = false
is_late timeout now (some w) = timed_out timeout now w

-- The dead workers are those that are late, and the others stay as they were.
pub record IsPruned (timeout now : ℕ) (workers : Dict WorkerInfo) (dead : List String)
    (alive : Dict WorkerInfo) : Type 0 where
  pub stays : (id : String) → find id alive ≡ in_time timeout now (find id workers)
  pub dies : (id : String) → mem id dead ≡ is_late timeout now (find id workers)

prune_late :
    (timeout now : ℕ) (i : String) (w : WorkerInfo) (rest : Dict WorkerInfo) (dead : List String)
    (alive : Dict WorkerInfo)
    → find i rest ≡ none
    → timed_out timeout now w ≡ true
    → IsPruned timeout now rest dead alive
    → IsPruned timeout now ((i, w) ∷ rest) (i ∷ dead) alive
unfolding find mem
prune_late timeout now i w rest dead alive new y p = record {
  stays = λ id. elim (Bool-cases (str_eq i id)) [
    | inl e ↦
        rw (e, y)
          (p.stays id
            ∙ subst (λ z. in_time timeout now (find z rest) ≡ none) ((eq_iff i id).0 e)
                (rw new refl))
    | inr e ↦ rw e (p.stays id)
  ];
  dies = λ id. elim (Bool-cases (str_eq i id)) [
    | inl e ↦ rw (e, y) (ground (arith, eq_iff i id, eq_iff id i, e))
    | inr e ↦ rw e (ground (arith, eq_iff i id, eq_iff id i, e, p.dies id))
  ];
}

prune_timely :
    (timeout now : ℕ) (i : String) (w : WorkerInfo) (rest : Dict WorkerInfo) (dead : List String)
    (alive : Dict WorkerInfo)
    → find i rest ≡ none
    → timed_out timeout now w ≡ false
    → IsPruned timeout now rest dead alive
    → IsPruned timeout now ((i, w) ∷ rest) dead ((i, w) ∷ alive)
unfolding find mem
prune_timely timeout now i w rest dead alive new z p = record {
  stays =
      λ id. elim (Bool-cases (str_eq i id)) [ inl e ↦ rw (e, z) refl | inr e ↦ rw e (p.stays id) ];
  dies = λ id. elim (Bool-cases (str_eq i id)) [
    | inl e ↦
        rw (e, z)
          (p.dies id
            ∙ subst (λ x. is_late timeout now (find x rest) ≡ false) ((eq_iff i id).0 e)
                (rw new refl))
    | inr e ↦ rw e (p.dies id)
  ];
}

-- PruneDeadWorkers on a table where no id stands twice: it answers exactly the ids whose last heartbeat
-- is too old, takes exactly those out, and leaves every other worker as it was.
pub prune-IsPruned :
    (timeout now : ℕ) (workers : Dict WorkerInfo)
    → IsIndexed workers
    → let (dead, alive) = prune_dead_workers timeout now workers in
      IsPruned timeout now workers dead alive
unfolding prune_dead_workers IsIndexed
prune-IsPruned timeout now [] u =
    unfold find mem in record { stays = λ id. refl; dies = λ id. refl }
prune-IsPruned timeout now ((i, w) ∷ rest) u =
    let (dead, alive) = prune_dead_workers timeout now rest in
    let p = prune-IsPruned timeout now rest u.2 in
    elim (Bool-cases (timed_out timeout now w)) [
      | inl y ↦ rw y (prune_late timeout now i w rest dead alive u.1 y p)
      | inr z ↦ rw z (prune_timely timeout now i w rest dead alive u.1 z p)
    ]

-- The scheduler sees the same available workers whether or not the patrol has already run.
pub available-prune :
    (timeout now : ℕ) (workers : Dict WorkerInfo)
    → available timeout now (prune_dead_workers timeout now workers).1
      ≡ available timeout now workers
unfolding available prune_dead_workers
available-prune timeout now [] = refl
available-prune timeout now ((i, w) ∷ rest) = elim (Bool-cases (timed_out timeout now w)) [
  | inl y ↦ rw (y) (available-prune timeout now rest)
  | inr z ↦ rw (z) (rw z (ap (λ l. w ∷ l) (available-prune timeout now rest)))
]

-- A worker that is late, once pruned, has its next heartbeat refused, which tells it to register; after
-- it has registered again, its heartbeats are accepted. No id stands twice in the table.
pub evicted_worker_returns :
    (timeout now t1 t2 t3 : ℕ) (n : ℤ) (address : String) (workers : Dict WorkerInfo)
    (w : WorkerInfo)
    → IsIndexed workers
    → find w.worker_id workers ≡ some w
    → timed_out timeout now w ≡ true
    → let alive = (prune_dead_workers timeout now workers).1 in
      (handle_heartbeat t1 w.worker_id n alive ≡ (false, alive))
      × ((handle_heartbeat t3 w.worker_id n (handle_register t2 w.worker_id address alive)).0
          ≡ true)
unfolding handle_heartbeat handle_register
evicted_worker_returns timeout now t1 t2 t3 n address workers w u f late =
    let alive = (prune_dead_workers timeout now workers).1 in
    let gone =
      (prune-IsPruned timeout now workers u).stays w.worker_id
      ∙ ap (in_time timeout now) f
      ∙ none_late in
    (rw gone refl, rw (find-put w.worker_id w.worker_id _ alive, eq_refl w.worker_id) refl)
  where
    none_late : in_time timeout now (some w) ≡ none
    none_late = rw late refl
