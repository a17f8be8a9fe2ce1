-- ===== src/Workflow.antt =====
-- The edges of a submitted DAG, and how many parents still hold a task back: the abstract view of the
-- counters that the submitter writes and the script of `CompleteTask` counts down.
pub mod Progress
pub mod Runs
pub mod Unstuck
use distributed_task_system.Common.{
  ℕ, suc, ◌≤◌, ◌<◌, String, ◌≡◌, refl, Bool, true, false, not, ◌&&◌, ◌||◌, List, [], ◌∷◌, arith,
  str_eq, eq_iff, if◌then◌else◌, mem,
}

-- Parent and child, by task id.
abbrev pub Edge : Type 0
Edge = String × String

unfoldable pub has_edge : List Edge → String → String → Bool
has_edge [] p c = false
has_edge ((q, d) ∷ es) p c = (str_eq q p && str_eq d c) || has_edge es p c

-- No edge is given twice.
abbrev pub DistinctEdges : List Edge → Type 0
DistinctEdges [] = Unit
DistinctEdges ((p, c) ∷ es) = (has_edge es p c ≡ false) × DistinctEdges es

-- The edges into `c` whose parent has not completed.
unfoldable pub blocked : List Edge → List String → String → ℕ
blocked [] done c = 0
blocked ((p, d) ∷ es) done c =
    let rest = blocked es done c in if str_eq d c && not (mem p done) then suc rest else rest

blocked_absent :
    (es : List Edge) (done : List String) (p c : String)
    → has_edge es p c ≡ false
    → blocked es (p ∷ done) c ≡ blocked es done c
unfolding has_edge blocked mem
blocked_absent [] done p c h = refl
blocked_absent ((q, d) ∷ es) done p c h =
    ground (arith, blocked_absent es done p c, eq_iff q p, eq_iff p q)

-- The completion of `p` lets go of each of its children once.
pub blocked_complete :
    (es : List Edge) (done : List String) (p c : String)
    → DistinctEdges es
    → mem p done ≡ false
    → blocked es done c
      ≡ (if has_edge es p c then suc (blocked es (p ∷ done) c) else blocked es (p ∷ done) c)
unfolding has_edge blocked mem
blocked_complete [] done p c u new = refl
blocked_complete ((q, d) ∷ es) done p c u new = ground (
  arith,
  blocked_complete es done p c u.1,
  blocked_absent es done p c,
  eq_iff q p,
  eq_iff d c,
  eq_iff p q,
)

pub blocked_pos :
    (es : List Edge) (done : List String) (p c : String)
    → has_edge es p c ≡ true
    → mem p done ≡ false
    → 0 < blocked es done c
unfolding has_edge blocked mem
blocked_pos [] done p c h new = cc
blocked_pos ((q, d) ∷ es) done p c h new =
    ground (arith, blocked_pos es done p c, eq_iff q p, eq_iff d c)

-- A further completion holds nothing back.
blocked-le :
    (es : List Edge) (done : List String) (p c : String)
    → blocked es (p ∷ done) c ≤ blocked es done c
unfolding blocked mem
blocked-le [] done p c = omega arith
blocked-le ((q, d) ∷ es) done p c = ground (arith, blocked-le es done p c)

-- The tasks that have completed, the last one first.
abbrev pub after : List String → List String → List String
after [] done = done
after (p ∷ ps) done = after ps (p ∷ done)

pub blocked-after-le :
    (es : List Edge) (ps done : List String) (c : String)
    → blocked es (after ps done) c ≤ blocked es done c
blocked-after-le es [] done c = omega arith
blocked-after-le es (p ∷ ps) done c =
    omega (arith, blocked-after-le es ps (p ∷ done) c, blocked-le es done p c)

-- The completions `ps` are of different tasks of the job, and none of them is in `done`.
abbrev pub IsFresh : List String → List String → List String → Type 0
IsFresh tasks [] done = Unit
IsFresh tasks (p ∷ ps) done =
    (mem p tasks ≡ true) × (mem p done ≡ false) × IsFresh tasks ps (p ∷ done)
