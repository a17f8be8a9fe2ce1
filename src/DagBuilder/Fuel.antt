-- ===== src/DagBuilder/Fuel.antt =====
-- ValidateCycle ends: one call more than there are tasks is enough.
use distributed_task_system.Common.{
  ℕ, zero, suc, ◌>>=◌, ◌≤◌, ◌<◌, String, ◌≡◌, refl, sym, ◌∙◌, inl, inr, Bool, true, false, Option,
  some, List, [], ◌∷◌, arith, eq_iff, eq_refl, ◌==◌, if◌then◌else◌, Bool-cases, length, mem, Dict,
  find, put, keys,
}
use distributed_task_system.DagBuilder.{
  colour-put, Builder, children_in, build_adj, colour, scan, finish, has_cycle_dfs, search_all,
  all_white, validate_cycle,
}
use distributed_task_system.DagBuilder.Acyclic.{edge_in, build_adj_children}

-- The white names.
unfoldable whites : Dict ℕ → List String → ℕ
whites visited [] = 0
whites visited (u ∷ us) =
    let rest = whites visited us in if colour visited u == 0 then suc rest else rest

whites-put-le :
    (u : String) (n : ℕ) (visited : Dict ℕ) (us : List String)
    → whites (put u (suc n) visited) us ≤ whites visited us
unfolding whites
whites-put-le u n visited [] = omega arith
whites-put-le u n visited (x ∷ us) =
    ground (arith, colour-put u (suc n) visited x, whites-put-le u n visited us)

whites-put-lt :
    (u : String) (n : ℕ) (visited : Dict ℕ) (us : List String)
    → mem u us ≡ true
    → colour visited u ≡ 0
    → whites (put u (suc n) visited) us < whites visited us
unfolding whites mem
whites-put-lt u n visited [] h white = ground (arith, h)
whites-put-lt u n visited (x ∷ us) h white = ground (
  arith,
  colour-put u (suc n) visited x,
  whites-put-le u n visited us,
  whites-put-lt u n visited us,
  eq_iff u x,
  h,
  white,
)

whites-length-le : (visited : Dict ℕ) (us : List String) → whites visited us ≤ length us
unfolding whites
whites-length-le visited [] = omega arith
whites-length-le visited (u ∷ us) = ground (arith, whites-length-le visited us)

module _ (adj : Dict (List String)) (names : List String)
    (closed : (p c : String) → mem c (children_in adj p) ≡ true → mem c names ≡ true) where
  -- A search ends, and leaves no more white names than there were.
  abbrev Ends : Option (Bool × Dict ℕ) → Dict ℕ → Type 0
  Ends o visited = (r : Bool × Dict ℕ) × (o ≡ some r) × (whites r.1 names ≤ whites visited names)

  abbrev IsTotal : (String → Dict ℕ → Option (Bool × Dict ℕ)) → ℕ → Type 0
  IsTotal visit n =
      (u : String) (visited : Dict ℕ)
      → mem u names ≡ true
      → colour visited u ≡ 0
      → whites visited names ≤ n
      → Ends (visit u visited) visited

  tail_inside :
      (v : String) (vs : List String)
      → ((x : String) → mem x (v ∷ vs) ≡ true → mem x names ≡ true)
      → (x : String) → mem x vs ≡ true
      → mem x names ≡ true
  unfolding mem
  tail_inside v vs inside x h = inside x (ground (arith, h))

  -- What follows a call that ends.
  after_call :
      (o : Option (Bool × Dict ℕ)) (visited : Dict ℕ) (next : Dict ℕ → Option (Bool × Dict ℕ))
      → Ends o visited
      → ((w : Dict ℕ) → whites w names ≤ whites visited names → Ends (next w) w)
      → Ends (o >>= λ r. if r.0 then some (true, r.1) else next r.1) visited
  after_call o visited next (r, e, le) k = elim (Bool-cases r.0) [
    | inl y ↦ ((true, r.1), rw e (rw y refl), le)
    | inr z ↦ (let (q, eq, le') = k r.1 le in (q, rw e (rw z eq), omega (arith, le, le')))
  ]

  scan-IsTotal :
      (visit : String → Dict ℕ → Option (Bool × Dict ℕ)) (n : ℕ) (vs : List String)
      (visited : Dict ℕ)
      → IsTotal visit n
      → ((v : String) → mem v vs ≡ true → mem v names ≡ true)
      → whites visited names ≤ n
      → Ends (scan visit vs visited) visited
  unfolding scan
  scan-IsTotal visit n [] visited total inside le = ((false, visited), refl, omega arith)
  scan-IsTotal visit n (v ∷ vs) visited total inside le =
      let later = tail_inside v vs inside in
      elim (Bool-cases (colour visited v == 1)) [
        | inl grey ↦ ((true, visited), rw grey refl, omega arith)
        | inr g ↦ elim (Bool-cases (colour visited v == 0)) [
          | inl white ↦
              rw (g, white)
                (after_call (visit v visited) visited (scan visit vs)
                  (total v visited (inside v (unfold mem in ground (arith, eq_refl v)))
                    (ground (arith, white)) le)
                  (λ w k. scan-IsTotal visit n vs w total later (omega (arith, k, le))))
          | inr w ↦ rw (g, w) (scan-IsTotal visit n vs visited total later le)
        ]
      ]

  finish-le : (u : String) (r : Bool × Dict ℕ) → whites (finish u r).1 names ≤ whites r.1 names
  finish-le u (true, w) = omega arith
  finish-le u (false, w) = whites-put-le u 1 w names

  has_cycle_dfs-IsTotal : (fuel : ℕ) → IsTotal (has_cycle_dfs adj fuel) fuel
  unfolding has_cycle_dfs
  has_cycle_dfs-IsTotal zero u visited known white le =
      let lt = whites-put-lt u 0 visited names known white in absurd (omega (arith, lt, le))
  has_cycle_dfs-IsTotal (suc fuel) u visited known white le =
      let lt = whites-put-lt u 0 visited names known white in
      let (r, e, le') =
        scan-IsTotal (has_cycle_dfs adj fuel) fuel (children_in adj u) (put u 1 visited)
          (has_cycle_dfs-IsTotal fuel) (closed u) (omega (arith, lt, le)) in
      let down = finish-le u r in (finish u r, rw e refl, omega (arith, lt, le', down))

  search_all-IsTotal :
      (fuel : ℕ) (us : List String) (visited : Dict ℕ)
      → ((u : String) → mem u us ≡ true → mem u names ≡ true)
      → whites visited names ≤ fuel
      → Ends (search_all adj fuel us visited) visited
  unfolding search_all
  search_all-IsTotal fuel [] visited inside le = ((false, visited), refl, omega arith)
  search_all-IsTotal fuel (u ∷ us) visited inside le =
      let later = tail_inside u us inside in
      elim (Bool-cases (colour visited u == 0)) [
        | inl white ↦ rw white (
            after_call (has_cycle_dfs adj fuel u visited) visited (search_all adj fuel us)
              (has_cycle_dfs-IsTotal fuel u visited
                (inside u (unfold mem in ground (arith, eq_refl u))) (ground (arith, white)) le)
              (λ w k. search_all-IsTotal fuel us w later (omega (arith, k, le))))
        | inr w ↦ rw w (search_all-IsTotal fuel us visited later le)
      ]

-- A builder whose edges lead to tasks of it, as AddDependency makes them: ValidateCycle comes to an answer with
-- the fuel that it is given, which is one more than the number of tasks.
pub validate_cycle_ends :
    {Task : Type 0}
    → (b : Builder Task)
    → ((p c : String) → edge_in b.task_edges p c ≡ true → mem c (keys b.tasks_map) ≡ true)
    → (found : Bool) × (validate_cycle b ≡ some found)
unfolding validate_cycle
validate_cycle_ends b closed =
    let names = keys b.tasks_map in
    let adj = build_adj b.task_edges [] in
    let short = whites-length-le (all_white names) names in
    let (r, e, le) =
      search_all-IsTotal adj names
        (λ p c h.
          closed p c (sym (build_adj_children b.task_edges [] p c ∙ unfold find mem in refl) ∙ h))
        (suc (length names)) names (all_white names) (λ u h. h) (omega (arith, short)) in
    (r.0, rw e refl)
