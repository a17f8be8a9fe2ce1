-- ===== src/Turns.antt =====
-- Turns that go round: at turn idx it is the turn of place idx % (n + 1).
use distributed_task_system.Common.{
  ℕ, suc, ◌+◌, ◌%◌, ◌≤◌, ◌≡◌, ap, subst, ◌∙◌, inl, inr, arith, ltb, ◌==◌, if◌then◌else◌, Bool-cases,
}
use native.Mathlib.Nat.{suc-mod, mod-lt, mod-eq_of_lt, mod_self}

-- Has place i had its turn when the round has come to r?
abbrev had_turn : ℕ → ℕ → ℕ
had_turn i r = if ltb i r then 1 else 0

-- One more for place r.
abbrev pub hit : ℕ → ℕ → ℕ
hit i r = if i == r then 1 else 0

next-mod : (idx n : ℕ) → suc idx % suc n ≡ (if idx % suc n == n then 0 else suc (idx % suc n))
next-mod idx n = elim (Bool-cases (idx % suc n == n)) [
  | inl last ↦
      rw last
        (suc-mod idx (suc n) ∙ ap (λ r. suc r % suc n) (ground (arith, last)) ∙ mod_self (suc n))
  | inr inside ↦ rw inside (
      suc-mod idx (suc n)
      ∙ mod-eq_of_lt {n = suc (idx % suc n)} {m = suc n}
          (ground (arith, inside, mod-lt idx {m = suc n} (omega arith))))
]

-- The numbers of turns that places i and j get from now on, when the round has come to r: with those
-- of this round, j has as many as i or one less.
abbrev pub Spread : ℕ → ℕ → ℕ → ℕ → ℕ → Type 0
Spread i j r na nb =
    (nb + had_turn j r ≤ na + had_turn i r) × (na + had_turn i r ≤ suc (nb + had_turn j r))

module _ (n i j : ℕ) (i-le : i ≤ n) (j-le : j ≤ n) (order : i ≤ j) where
  Spread-step :
      (r na nb : ℕ)
      → r ≤ n
      → Spread i j (if r == n then 0 else suc r) na nb
      → Spread i j r (hit i r + na) (hit j r + nb)
  Spread-step r na nb le h = ground (arith, h, le, i-le, j-le, order)

  -- One turn before.
  pub Spread-before :
      (idx na nb : ℕ)
      → Spread i j (suc idx % suc n) na nb
      → let r = idx % suc n in Spread i j r (hit i r + na) (hit j r + nb)
  Spread-before idx na nb h =
      Spread-step (idx % suc n) na nb (omega (arith, mod-lt idx {m = suc n} (omega arith)))
        (subst (λ r. Spread i j r na nb) (next-mod idx n) h)

-- No turn at all.
pub Spread-none : (i j r : ℕ) → i ≤ j → Spread i j r 0 0
Spread-none i j r order = ground (arith, order)
