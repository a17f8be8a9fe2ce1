-- ===== src/Tests/Spreading.antt =====
-- The sort of `Scheduler.Workers.Sorted` by insertion, and one pull over two workers of which one is busy.
use distributed_task_system.Common.{
  ℕ, zero, suc, eq_of_some-eq-some, ◌<◌, String, ◌≡◌, refl, subst, ◌∙◌, inl, inr, Bool, true, false,
  some, List, [], ◌∷◌, arith, if◌then◌else◌, Bool-cases, get_elem?, All, count, ℤ, pos, negsuc,
  Dict, find,
}
use distributed_task_system.Scheduler.Workers.{
  WorkerInfo, available, get_available_workers_sorted, IsIndexed,
}
use distributed_task_system.Scheduler.Workers.Sorted.{ids, is_less, is_less_loaded, IsSort}
use distributed_task_system.Scheduler.Loop.{StreamEntry, binary, LoopState, pull}
use distributed_task_system.Scheduler.Loop.Spread.{Shares, pull_prefers_idle}
use distributed_task_system.Tests.Acking.{worker, good}

insert : WorkerInfo → List WorkerInfo → List WorkerInfo
insert w [] = w ∷ []
insert w (v ∷ l) = let rest = insert w l in if is_less_loaded v w then v ∷ rest else w ∷ v ∷ l

insertion_sort : List WorkerInfo → List WorkerInfo
insertion_sort [] = []
insertion_sort (w ∷ l) = insert w (insertion_sort l)

insert-count :
    (x : String) (w : WorkerInfo) (l : List WorkerInfo)
    → count x (ids (insert w l)) ≡ count x (ids (w ∷ l))
unfolding insert count
insert-count x w [] = refl
insert-count x w (v ∷ l) = elim (Bool-cases (is_less_loaded v w)) [
  | inl y ↦ rw y (ground (arith, insert-count x w l))
  | inr n ↦ rw n refl
]

insertion_sort-count :
    (l : List WorkerInfo) (x : String) → count x (ids (insertion_sort l)) ≡ count x (ids l)
unfolding insertion_sort count
insertion_sort-count [] x = refl
insertion_sort-count (w ∷ l) x =
    insert-count x w (insertion_sort l) ∙ unfold count in ground (arith, insertion_sort-count l x)

abbrev NotLess : WorkerInfo → List WorkerInfo → Type 0
NotLess w l = All (λ v. is_less_loaded v w ≡ false) l

IsOrdered : List WorkerInfo → Type 0
IsOrdered [] = Unit
IsOrdered (w ∷ l) = NotLess w l × IsOrdered l

less_trans : (a b c : ℤ) → is_less b a ≡ false → is_less c b ≡ false → is_less c a ≡ false
less_trans (pos a) (pos b) (pos c) h k = ground (arith, h, k)
less_trans (pos a) (pos b) (negsuc c) h k = ground (arith, h, k)
less_trans (pos a) (negsuc b) (pos c) h k = ground (arith, h, k)
less_trans (pos a) (negsuc b) (negsuc c) h k = ground (arith, h, k)
less_trans (negsuc a) (pos b) (pos c) h k = ground (arith, h, k)
less_trans (negsuc a) (pos b) (negsuc c) h k = ground (arith, h, k)
less_trans (negsuc a) (negsuc b) (pos c) h k = ground (arith, h, k)
less_trans (negsuc a) (negsuc b) (negsuc c) h k = ground (arith, h, k)

less_asym : (a b : ℤ) → is_less a b ≡ true → is_less b a ≡ false
less_asym (pos a) (pos b) h = ground (arith, h)
less_asym (pos a) (negsuc b) h = ground (arith, h)
less_asym (negsuc a) (pos b) h = ground (arith, h)
less_asym (negsuc a) (negsuc b) h = ground (arith, h)

NotLess-insert :
    (v w : WorkerInfo) (l : List WorkerInfo)
    → is_less_loaded w v ≡ false
    → NotLess v l
    → NotLess v (insert w l)
unfolding insert
NotLess-insert v w [] h k = (h, tt)
NotLess-insert v w (u ∷ l) h k = elim (Bool-cases (is_less_loaded u w)) [
  | inl y ↦ rw y (k.0, NotLess-insert v w l h k.1)
  | inr n ↦ rw n (h, k)
]

NotLess-trans :
    (v w : WorkerInfo) (l : List WorkerInfo)
    → is_less_loaded v w ≡ false
    → NotLess v l
    → NotLess w l
NotLess-trans v w [] h k = tt
NotLess-trans v w (u ∷ l) h k = (
  less_trans w.running_task_count v.running_task_count u.running_task_count h k.0,
  NotLess-trans v w l h k.1,
)

insert-IsOrdered : (w : WorkerInfo) (l : List WorkerInfo) → IsOrdered l → IsOrdered (insert w l)
unfolding insert IsOrdered
insert-IsOrdered w [] o = (tt, tt)
insert-IsOrdered w (v ∷ l) o = elim (Bool-cases (is_less_loaded v w)) [
  | inl y ↦ rw y (
    NotLess-insert v w l (less_asym v.running_task_count w.running_task_count y) o.0,
    insert-IsOrdered w l o.1,
  )
  | inr n ↦ rw n ((n, NotLess-trans v w l n o.0), o)
]

insertion_sort-IsOrdered : (l : List WorkerInfo) → IsOrdered (insertion_sort l)
unfolding insertion_sort IsOrdered
insertion_sort-IsOrdered [] = tt
insertion_sort-IsOrdered (w ∷ l) =
    insert-IsOrdered w (insertion_sort l) (insertion_sort-IsOrdered l)

NotLess-at :
    (w : WorkerInfo) (l : List WorkerInfo) (j : ℕ) (b : WorkerInfo)
    → NotLess w l
    → get_elem? l j ≡ some b
    → is_less_loaded b w ≡ false
NotLess-at w [] j b n h = absurd (ground (arith, h))
NotLess-at w (v ∷ l) zero b n h =
    subst (λ x. is_less_loaded x w ≡ false) (eq_of_some-eq-some v b h) n.0
NotLess-at w (v ∷ l) (suc j) b n h = NotLess-at w l j b n.1 h

IsOrdered-at :
    (l : List WorkerInfo) (i j : ℕ) (a b : WorkerInfo)
    → IsOrdered l
    → i < j
    → get_elem? l i ≡ some a
    → get_elem? l j ≡ some b
    → is_less_loaded b a ≡ false
unfolding IsOrdered
IsOrdered-at [] i j a b o h k m = absurd (ground (arith, k))
IsOrdered-at (w ∷ l) i zero a b o h k m = absurd (omega (arith, h))
IsOrdered-at (w ∷ l) zero (suc j) a b o h k m =
    subst (λ x. is_less_loaded b x ≡ false) (eq_of_some-eq-some w a k) (NotLess-at w l j b o.0 m)
IsOrdered-at (w ∷ l) (suc i) (suc j) a b o h k m = IsOrdered-at l i j a b o.1 (omega (arith, h)) k m

insertion_sort-IsSort : IsSort insertion_sort
insertion_sort-IsSort = record {
  same = insertion_sort-count;
  ordered =
      λ l i j a b h k m. IsOrdered-at (insertion_sort l) i j a b (insertion_sort-IsOrdered l) h k m;
}

abbrev busy_worker : WorkerInfo
busy_worker = record worker { worker_id = "v"; running_task_count = pos 3 }

abbrev both : Dict WorkerInfo
both = ("v", busy_worker) ∷ ("w", worker) ∷ []

both-IsIndexed : IsIndexed both
unfolding IsIndexed find
both-IsIndexed = (refl, refl, (refl, refl, tt))

abbrev three_messages : List (Bool × StreamEntry)
three_messages = (false, good) ∷ (false, good) ∷ (false, good) ∷ []

abbrev idle_state : LoopState
idle_state = record { inflight = 0; workers = both; acked = []; dispatches = [] }

pull_prefers_idle_example : Shares worker busy_worker idle_state (
    pull
      (λ k. binary k)
      some
      (get_available_workers_sorted insertion_sort 10 5 both)
      three_messages
      idle_state)
unfolding get_available_workers_sorted insertion_sort insert available
pull_prefers_idle_example =
    pull_prefers_idle (λ k. binary k) some insertion_sort 10 5 both 0 1 worker busy_worker
      three_messages idle_state insertion_sort-IsSort both-IsIndexed refl refl refl
