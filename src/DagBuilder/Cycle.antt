-- ===== src/DagBuilder/Cycle.antt =====
-- What a search that reports a cycle has found, and that ValidateCycle decides whether there is one.
use distributed_task_system.Common.{
  ℕ, zero, suc, >>=-eq-some, eq_of_some-eq-some, ◌<◌, String, ◌≡◌, refl, sym, ap, subst, ◌∙◌, ◌⊎◌,
  inl, inr, Bool, true, false, some, List, [], ◌∷◌, arith, str_eq, eq_iff, eq_refl, ◌==◌,
  Bool-cases, length, mem, Dict, put, keys, mem-keys,
}
use distributed_task_system.DagBuilder.{
  TaskEdge, Builder, children_in, build_adj, colour, colour-put, scan, finish, has_cycle_dfs,
  search_all, all_white, validate_cycle,
}
use distributed_task_system.DagBuilder.Search.{
  IsFinished, IsSettled, Visit, IsSound, put-grey, has_cycle_dfs-IsSound,
}
use distributed_task_system.DagBuilder.Acyclic.{
  edge_in, Walk, one_edge, then_walk, colour-all_white, adj-edges, validate_cycle_acyclic,
  validate_cycle_levels,
}
use distributed_task_system.DagBuilder.Building.{IsClosed}
use distributed_task_system.DagBuilder.Fuel.{validate_cycle_ends}

module _ (es : List TaskEdge) where
  abbrev pub Cycle : Type 0
  Cycle = (x : String) × Walk es x x

  Walk-snoc : (x y z : String) → Walk es x y → edge_in es y z ≡ true → Walk es x z
  Walk-snoc x y z (one_edge e) k = then_walk e (one_edge k)
  Walk-snoc x y z (then_walk {c = c} e w) k = then_walk e (Walk-snoc c y z w k)

  -- The grey names lead to `u`, which may be one of them.
  abbrev Greys : Dict ℕ → String → Type 0
  Greys visited u = (x : String) → colour visited x ≡ 1 → (x ≡ u) ⊎ Walk es x u

  greys_step : (x u v : String) → (x ≡ u) ⊎ Walk es x u → edge_in es u v ≡ true → Walk es x v
  greys_step x u v (inl same) e = one_edge (subst (λ z. edge_in es z v ≡ true) (sym same) e)
  greys_step x u v (inr w) e = Walk-snoc x u v w e

  module _ (adj : Dict (List String)) where
    -- A call that reports a cycle, at a white name to which every grey one leads, is right.
    abbrev IsRight : Visit adj → Type 0
    IsRight visit =
        (u : String) (visited after : Dict ℕ) (l : List String)
        → colour visited u ≡ 0
        → IsSettled adj visited l
        → ((x : String) → colour visited x ≡ 1 → Walk es x u)
        → visit u visited ≡ some (true, after)
        → Cycle

    scan-IsRight :
        (visit : Visit adj) (u : String) (vs : List String) (visited after : Dict ℕ)
        (l : List String)
        → IsSound adj visit
        → IsRight visit
        → ((v : String) → mem v vs ≡ true → edge_in es u v ≡ true)
        → IsSettled adj visited l
        → Greys visited u
        → scan visit vs visited ≡ some (true, after)
        → Cycle
    unfolding scan mem
    scan-IsRight visit u [] visited after l sound right edges s greys h =
        let e = ap (λ x. x.0) (eq_of_some-eq-some (false, visited) (true, after) h) in
        absurd (ground (arith, e))
    scan-IsRight visit u (v ∷ vs) visited after l sound right edges s greys h =
        let edge = edges v (ground (arith, eq_refl v)) in
        let others = λ (w : String) (m : mem w vs ≡ true). edges w (ground (arith, m)) in
        elim (Bool-cases (colour visited v == 1)) [
          | inl grey ↦ (v, greys_step v u v (greys v (ground (arith, grey))) edge)
          | inr g ↦ elim (Bool-cases (colour visited v == 0)) [
            | inr w ↦
                scan-IsRight visit u vs visited after l sound right others s greys (rw (g, w) at h)
            | inl white ↦
                (let (r, er, h1) = >>=-eq-some (visit v visited) _ (rw (g, white) at h) in
                  elim (Bool-cases r.0) [
                    | inl found ↦
                        right v visited r.1 l (ground (arith, white)) s
                          (λ x k. greys_step x u v (greys x k) edge)
                          (er ∙ ap (λ b. some (b, r.1)) found)
                    | inr clear ↦
                        (let (g1, m1) =
                            sound v visited r.1 l (ground (arith, white)) s
                              (er ∙ ap (λ b. some (b, r.1)) clear) in
                          scan-IsRight visit u vs r.1 after g1.list sound right others g1.settled
                            (λ x k. greys x (g1.no_new x k)) (rw clear at h1))
                  ])
          ]
        ]

    finish_found :
        (u : String) (r : Bool × Dict ℕ) (after : Dict ℕ) → finish u r ≡ (true, after) → r.0 ≡ true
    finish_found u (true, w) after h = refl
    finish_found u (false, w) after h = ap (λ x. x.0) h

    module _ (same : (x y : String) → mem y (children_in adj x) ≡ edge_in es x y) where
      has_cycle_dfs-IsRight : (fuel : ℕ) → IsRight (has_cycle_dfs adj fuel)
      unfolding has_cycle_dfs
      has_cycle_dfs-IsRight zero u visited after l white s greys h = absurd (ground (arith, h))
      has_cycle_dfs-IsRight (suc fuel) u visited after l white s greys h =
          let (r, er, h1) =
            >>=-eq-some (scan (has_cycle_dfs adj fuel) (children_in adj u) (put u 1 visited)) _ h in
          let found = finish_found u r after (eq_of_some-eq-some (finish u r) (true, after) h1) in
          scan-IsRight (has_cycle_dfs adj fuel) u (children_in adj u) (put u 1 visited) r.1 l
            (has_cycle_dfs-IsSound adj fuel) (has_cycle_dfs-IsRight fuel)
            (λ v m. sym (same u v) ∙ m) (put-grey adj u visited l white s)
            (λ x k. elim (Bool-cases (str_eq u x)) [
              | inl y ↦ inl (sym ((eq_iff u x).0 y))
              | inr z ↦ inr (greys x (ground (arith, colour-put u 1 visited x, z, k)))
            ])
            (er ∙ ap (λ b. some (b, r.1)) found)

      search_all-IsRight :
          (fuel : ℕ) (us : List String) (visited after : Dict ℕ) (l : List String)
          → IsSettled adj visited l
          → ((u : String) → (colour visited u ≡ 1) → ⊥)
          → search_all adj fuel us visited ≡ some (true, after)
          → Cycle
      unfolding search_all
      search_all-IsRight fuel [] visited after l s none_grey h =
          let e = ap (λ x. x.0) (eq_of_some-eq-some (false, visited) (true, after) h) in
          absurd (ground (arith, e))
      search_all-IsRight fuel (u ∷ us) visited after l s none_grey h =
          elim (Bool-cases (colour visited u == 0)) [
            | inr w ↦ search_all-IsRight fuel us visited after l s none_grey (rw w at h)
            | inl white ↦
                (let (r, er, h1) =
                    >>=-eq-some (has_cycle_dfs adj fuel u visited) _ (rw white at h) in
                  elim (Bool-cases r.0) [
                    | inl found ↦
                        has_cycle_dfs-IsRight fuel u visited r.1 l (ground (arith, white)) s
                          (λ x k. absurd (none_grey x k)) (er ∙ ap (λ b. some (b, r.1)) found)
                    | inr clear ↦
                        (let (g1, m1) =
                            has_cycle_dfs-IsSound adj fuel u visited r.1 l (ground (arith, white)) s
                              (er ∙ ap (λ b. some (b, r.1)) clear) in
                          search_all-IsRight fuel us r.1 after g1.list g1.settled
                            (λ x k. none_grey x (g1.no_new x k)) (rw clear at h1))
                  ])
          ]

-- A report of ValidateCycle is right.
validate_cycle_found :
    {Task : Type 0} → (b : Builder Task) → validate_cycle b ≡ some true → Cycle b.task_edges
unfolding validate_cycle
validate_cycle_found b h =
    let names = keys b.tasks_map in
    let adj = build_adj b.task_edges [] in
    let (r, er, h1) =
      >>=-eq-some (search_all adj (suc (length names)) names (all_white names)) _ h in
    let white = colour-all_white names in
    search_all-IsRight b.task_edges adj (adj-edges b.task_edges) (suc (length names)) names
      (all_white names) r.1 []
      (record {
        order = unfold IsFinished in tt;
        black = λ y. unfold mem in ground (arith, white y);
      })
      (λ y e. ground (arith, white y, e))
      (er ∙ ap (λ f. some (f, r.1)) (eq_of_some-eq-some r.0 true h1))

first_edge :
    (es : List TaskEdge) (x y : String) → Walk es x y → (c : String) × (edge_in es x c ≡ true)
first_edge es x y (one_edge e) = (y, e)
first_edge es x y (then_walk {c = c} e w) = (c, e)

-- On a builder whose edges join tasks of it, as AddTask and AddDependency leave it, ValidateCycle decides:
-- it either reports a cycle, and then a name is reached from itself along the edges, or it
-- reports none, and then no name is, and the edges go up from level to level.
pub validate_cycle_decides :
    {Task : Type 0}
    → (b : Builder Task) → IsClosed b
    → ((validate_cycle b ≡ some true) × ((x : String) × Walk b.task_edges x x))
      ⊎ ((validate_cycle b ≡ some false)
          × ((x : String) → ¬ Walk b.task_edges x x)
          × ((level : String → ℕ) × ((p c : String)
                → edge_in b.task_edges p c ≡ true
                → level p < level c)))
validate_cycle_decides b closed =
    let (found, e) = validate_cycle_ends b (λ p c h. mem-keys c b.tasks_map ∙ (closed p c h).1) in
    let parent = λ (p c : String) (h : edge_in b.task_edges p c ≡ true).
      mem-keys p b.tasks_map ∙ (closed p c h).0 in
    elim (Bool-cases found) [
      | inl y ↦ (let e' = e ∙ ap some y in inl (e', validate_cycle_found b e'))
      | inr n ↦
          (let e' = e ∙ ap some n in
            let (level, up) = validate_cycle_levels b e' in
            inr (
              e',
              λ x w.
                  let (c, edge) = first_edge b.task_edges x x w in
                  validate_cycle_acyclic b x e' (parent x c edge) w,
              (level, λ p c h. up p c (parent p c h) h),
            ))
    ]
