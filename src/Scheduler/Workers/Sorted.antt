-- ===== src/Scheduler/Workers/Sorted.antt =====
-- The list of GetAvailableWorkersSorted: no id stands twice in it, and what its sort promises.
use distributed_task_system.Common.{
  ℕ, zero, suc, eq_of_some-eq-some, ◌≤◌, ◌<◌, String, ◌≡◌, refl, sym, ap, subst, ◌∙◌, inl, inr,
  Bool, true, false, none, some, List, [], ◌∷◌, map, arith, str_eq, eq_iff, eq_refl, ltb, ◌==◌,
  if◌then◌else◌, Bool-cases, is_some, length, get_elem?, count, ℤ, pos, negsuc, Dict, find,
}
use distributed_task_system.Scheduler.Workers.{WorkerInfo, IsIndexed, timed_out, available}

abbrev pub ids : List WorkerInfo → List String
ids l = map (λ w. w.worker_id) l

abbrev pub is_less : ℤ → ℤ → Bool
is_less (pos m) (pos n) = ltb m n
is_less (pos m) (negsuc n) = false
is_less (negsuc m) (pos n) = true
is_less (negsuc m) (negsuc n) = ltb n m

-- a.running_task_count < b.running_task_count
abbrev pub is_less_loaded : WorkerInfo → WorkerInfo → Bool
is_less_loaded a b = is_less a.running_task_count b.running_task_count

-- No id stands twice.
abbrev pub IsUnique : List WorkerInfo → Type 0
IsUnique l = (x : String) → count x (ids l) ≤ 1

pub available-count :
    (timeout now : ℕ) (workers : Dict WorkerInfo)
    → IsIndexed workers
    → (x : String)
    → count x (ids (available timeout now workers)) ≤ (if is_some (find x workers) then 1 else 0)
unfolding available IsIndexed find count
available-count timeout now [] u x = omega arith
available-count timeout now ((id, w) ∷ rest) u x =
    let more = available-count timeout now rest u.2 x in
    elim (Bool-cases (str_eq id x)) [
      | inl same ↦
          (let none_else : count x (ids (available timeout now rest)) ≤ 0 =
              rw (subst (λ z. find z rest ≡ none) ((eq_iff id x).0 same) u.1) at more in
            elim (Bool-cases (timed_out timeout now w)) [
              | inl late ↦ rw (late, same) (omega (arith, none_else))
              | inr timely ↦ rw (timely, same) (ground (arith, none_else))
            ])
      | inr other ↦
          (let not_first : str_eq x w.worker_id ≡ false =
              rw u.0 (ground (arith, other, eq_iff id x, eq_iff x id)) in
            elim (Bool-cases (timed_out timeout now w)) [
              | inl late ↦ rw (late, other) more
              | inr timely ↦ rw (timely, other, not_first) more
            ])
    ]

at-counted :
    (l : List WorkerInfo) (i : ℕ) (a : WorkerInfo)
    → get_elem? l i ≡ some a
    → 1 ≤ count a.worker_id (ids l)
unfolding count
at-counted [] i a h = absurd (ground (arith, h))
at-counted (w ∷ l) zero a h =
    rw (ap (λ x. x.worker_id) (eq_of_some-eq-some w a h)) (ground (arith, eq_refl a.worker_id))
at-counted (w ∷ l) (suc i) a h = ground (arith, at-counted l i a h)

behind :
    (w : WorkerInfo) (l : List WorkerInfo) (j : ℕ) (b : WorkerInfo)
    → IsUnique (w ∷ l)
    → get_elem? l j ≡ some b
    → str_eq w.worker_id b.worker_id ≡ false
unfolding count
behind w l j b u k = ground (
  arith,
  u b.worker_id,
  at-counted l j b k,
  eq_iff w.worker_id b.worker_id,
  eq_iff b.worker_id w.worker_id,
)

shorter :
    (w : WorkerInfo) (l : List WorkerInfo) (x : String)
    → count x (ids (w ∷ l)) ≤ 1
    → count x (ids l) ≤ 1
unfolding count
shorter w l x h = ground (arith, h)

-- Where no id stands twice, an id tells the position.
pub positions :
    (l : List WorkerInfo) (i j : ℕ) (a b : WorkerInfo)
    → IsUnique l
    → get_elem? l i ≡ some a
    → get_elem? l j ≡ some b
    → str_eq a.worker_id b.worker_id ≡ (i == j)
positions [] i j a b u h k = absurd (ground (arith, h))
positions (w ∷ l) zero zero a b u h k =
    let e = eq_of_some-eq-some a b (sym h ∙ k) in rw e (eq_refl b.worker_id)
positions (w ∷ l) zero (suc j) a b u h k =
    rw (ap (λ x. x.worker_id) (sym (eq_of_some-eq-some w a h))) (behind w l j b u k ∙ ground arith)
positions (w ∷ l) (suc i) zero a b u h k =
    let differ : str_eq b.worker_id a.worker_id ≡ false =
      rw (ap (λ x. x.worker_id) (sym (eq_of_some-eq-some w b k))) (behind w l i a u h) in
    ground (arith, differ, eq_iff a.worker_id b.worker_id, eq_iff b.worker_id a.worker_id)
positions (w ∷ l) (suc i) (suc j) a b u h k =
    positions l i j a b (λ x. shorter w l x (u x)) h k ∙ ground arith

pub at_some :
    (l : List WorkerInfo) (i : ℕ) → i < length l → (x : WorkerInfo) × (get_elem? l i ≡ some x)
at_some [] i h = absurd (omega (arith, h))
at_some (w ∷ l) zero h = (w, refl)
at_some (w ∷ l) (suc i) h = at_some l i (omega (arith, h))

pub at-lt : (l : List WorkerInfo) (i : ℕ) (a : WorkerInfo) → get_elem? l i ≡ some a → i < length l
at-lt [] i a h = absurd (ground (arith, h))
at-lt (w ∷ l) zero a h = omega arith
at-lt (w ∷ l) (suc i) a h = omega (arith, at-lt l i a h)

-- What std::sort promises by running_task_count: the same workers, and none before a less loaded one.
pub record IsSort (sort : List WorkerInfo → List WorkerInfo) : Type 0 where
  pub same : (l : List WorkerInfo) (x : String) → count x (ids (sort l)) ≡ count x (ids l)
  pub ordered :
      (l : List WorkerInfo) (i j : ℕ) (a b : WorkerInfo)
      → i < j
      → get_elem? (sort l) i ≡ some a
      → get_elem? (sort l) j ≡ some b
      → is_less_loaded b a ≡ false
