-- ===== src/Workflow/Unstuck.antt =====
-- Over edges that go up from level to level, some task that has not completed waits for none.
use distributed_task_system.Common.{
  ℕ, zero, suc, ◌<◌, String, ◌≡◌, refl, inl, inr, true, false, not, ◌&&◌, ◌||◌, List, [], ◌∷◌,
  arith, str_eq, eq_refl, ltb, Bool-cases, ltb→lt, mem,
}
use distributed_task_system.Workflow.{Edge, has_edge, blocked, after}

-- What holds a task back.
waiting_parent :
    (es : List Edge) (done : List String) (c : String)
    → 0 < blocked es done c
    → (p : String) × (has_edge es p c ≡ true) × (mem p done ≡ false)
unfolding blocked has_edge
waiting_parent [] done c h = absurd (omega (arith, h))
waiting_parent ((p, d) ∷ es) done c h = elim (Bool-cases (str_eq d c && not (mem p done))) [
  | inl y ↦ (p, ground (arith, y, eq_refl p), ground (arith, y))
  | inr z ↦ (let (q, e, n) = waiting_parent es done c (rw z at h) in (q, ground (arith, e), n))
]

-- `IsAt x k`: the task x is at the level k. The parents of a task are tasks at lower levels.
pub some_free :
    (es : List Edge) (tasks : List String) (IsAt : String → ℕ → Type 0)
    → ((p c : String) (k : ℕ)
        → has_edge es p c ≡ true
        → IsAt c k
        → (mem p tasks ≡ true) × (j : ℕ) × (j < k) × IsAt p j)
    → (done : List String) (fuel k : ℕ) (x : String) → k < fuel
    → IsAt x k
    → mem x tasks ≡ true
    → mem x done ≡ false
    → (y : String) × (mem y tasks ≡ true) × (mem y done ≡ false) × (blocked es done y ≡ 0)
some_free es tasks IsAt up done zero k x h at known new = absurd (omega (arith, h))
some_free es tasks IsAt up done (suc fuel) k x h at known new =
    elim (Bool-cases (ltb 0 (blocked es done x))) [
      | inr free ↦ (x, known, new, ground (arith, free))
      | inl held ↦
          (let (p, edge, open_) = waiting_parent es done x (ltb→lt 0 (blocked es done x) held) in
            let (listed, j, lower, at_p) = up p x k edge at in
            some_free es tasks IsAt up done fuel j p (omega (arith, h, lower)) at_p listed open_)
    ]

pub mem-after :
    (ps done : List String) (y : String) → mem y (after ps done) ≡ (mem y ps || mem y done)
unfolding mem
mem-after [] done y = refl
mem-after (p ∷ ps) done y = ground (arith, mem-after ps (p ∷ done) y)
