-- ===== src/DagBuilder/Acyclic.antt =====
-- A request that ValidateCycle lets through has no cycle.
use distributed_task_system.Common.{
  ℕ, suc, >>=-eq-some, eq_of_some-eq-some, ◌-◌, ◌≤◌, ◌<◌, String, ◌≡◌, refl, sym, ap, subst, ◌∙◌,
  inl, inr, Bool, true, false, ◌&&◌, ◌||◌, some, List, [], ◌∷◌, ◌++◌, arith, str_eq, eq_iff,
  if◌then◌else◌, Bool-cases, length, mem, mem-append, Dict, find, put, keys, find-put,
}
use distributed_task_system.DagBuilder.{
  TaskEdge, Builder, children_in, build_adj, colour, search_all, all_white, validate_cycle,
}
use distributed_task_system.DagBuilder.Search.{IsFinished, search_all-IsSound}

unfoldable pub edge_in : List TaskEdge → String → String → Bool
edge_in [] p c = false
edge_in (e ∷ es) p c =
    (str_eq e.parent_natural_id p && str_eq e.child_natural_id c) || edge_in es p c

-- One or more edges from the first name to the second.
pub data Walk (es : List TaskEdge) : String → String → Type 0 where
  one_edge : {p c : String} → edge_in es p c ≡ true → Walk es p c
  then_walk : {p c d : String} → edge_in es p c ≡ true → Walk es c d → Walk es p d

pub build_adj_children :
    (es : List TaskEdge) (adj : Dict (List String)) (p c : String)
    → mem c (children_in (build_adj es adj) p) ≡ (mem c (children_in adj p) || edge_in es p c)
unfolding build_adj edge_in
build_adj_children [] adj p c = ground arith
build_adj_children (e ∷ es) adj p c =
    let old = children_in adj e.parent_natural_id in
    build_adj_children es (put e.parent_natural_id (old ++ e.child_natural_id ∷ []) adj) p c
    ∙ added e.parent_natural_id e.child_natural_id
  where
    pushed :
        (d : String) (xs ys : List String) (b : Bool)
        → xs ≡ ys
        → (mem c (xs ++ d ∷ []) || b) ≡ (mem c ys || (str_eq d c || b))
    pushed d xs ys b e =
        rw (mem-append c xs (d ∷ []), e) (unfold mem in ground (arith, eq_iff d c, eq_iff c d))

    added :
        (q d : String)
        → (mem c (children_in (put q (children_in adj q ++ d ∷ []) adj) p) || edge_in es p c)
          ≡ (mem c (children_in adj p) || ((str_eq q p && str_eq d c) || edge_in es p c))
    added q d = elim (Bool-cases (str_eq q p)) [
      | inl y ↦
          rw (find-put q p (children_in adj q ++ d ∷ []) adj, y)
            (pushed d (children_in adj q) (children_in adj p) (edge_in es p c)
              (ap (children_in adj) ((eq_iff q p).0 y)))
      | inr z ↦ rw (find-put q p (children_in adj q ++ d ∷ []) adj, z) refl
    ]

pub colour-all_white : (us : List String) (x : String) → colour (all_white us) x ≡ 0
unfolding all_white
colour-all_white [] x = unfold find in refl
colour-all_white (u ∷ us) x = ground (arith, find-put u x 0 (all_white us), colour-all_white us x)

-- The place of a name from the end.
unfoldable rank : String → List String → ℕ
rank x [] = 0
rank x (u ∷ l) = if str_eq u x then suc (length l) else rank x l

rank-le : (x : String) (l : List String) → rank x l ≤ length l
unfolding rank
rank-le x [] = omega arith
rank-le x (u ∷ l) = ground (arith, rank-le x l)

module _ (adj : Dict (List String)) where
  edge_sinks :
      (l : List String) (x y : String)
      → IsFinished adj l
      → mem x l ≡ true
      → mem y (children_in adj x) ≡ true
      → (mem y l ≡ true) × (rank y l < rank x l)
  unfolding rank mem IsFinished
  edge_sinks [] x y o h e = ground (arith, h)
  edge_sinks (u ∷ l) x y o h e = elim (Bool-cases (str_eq u x)) [
    | inl same ↦
        (let inside =
            o.1 y (subst (λ z. mem y (children_in adj z) ≡ true) (sym ((eq_iff u x).0 same)) e) in
          (ground (arith, inside), ground (arith, inside, rank-le y l, o.0, eq_iff u y, same)))
    | inr other ↦
        (let (inside, below) =
            edge_sinks l x y o.2 (ground (arith, h, other, eq_iff u x, eq_iff x u)) e in
          (ground (arith, inside), ground (arith, inside, below, other, o.0, eq_iff u y)))
  ]

  sink_along :
      (es : List TaskEdge) (l : List String)
      → ((x y : String) → mem y (children_in adj x) ≡ edge_in es x y)
      → IsFinished adj l
      → (x y : String) → Walk es x y
      → mem x l ≡ true
      → rank y l < rank x l
  sink_along es l same o x y (one_edge e) h = (edge_sinks l x y o h (same x y ∙ e)).1
  sink_along es l same o x y (then_walk {c = c} e w) h =
      let (inside, below) = edge_sinks l x c o h (same x c ∙ e) in
      let further = sink_along es l same o c y w inside in omega (arith, below, further)

-- The order in which a search that reports no cycle finishes the tasks.
pub record Order {Task : Type 0} (b : Builder Task) : Type 0 where
  pub list : List String
  pub finished : IsFinished (build_adj b.task_edges []) list
  pub whole : (x : String) → mem x (keys b.tasks_map) ≡ true → mem x list ≡ true

pub adj-edges :
    (es : List TaskEdge) (x y : String) → mem y (children_in (build_adj es []) x) ≡ edge_in es x y
adj-edges es x y = build_adj_children es [] x y ∙ unfold find mem in refl

pub validate_cycle-Order :
    {Task : Type 0} → (b : Builder Task) → validate_cycle b ≡ some false → Order b
unfolding validate_cycle
validate_cycle-Order b h =
    let names = keys b.tasks_map in
    let adj = build_adj b.task_edges [] in
    let (r, er, h1) =
      >>=-eq-some (search_all adj (suc (length names)) names (all_white names)) _ h in
    let white = colour-all_white names in
    let (g, m) =
      search_all-IsSound adj (suc (length names)) names (all_white names) r.1 []
        (record {
          order = unfold IsFinished in tt;
          black = λ y. unfold mem in ground (arith, white y);
        })
        (λ y e. ground (arith, white y, e))
        (er ∙ ap (λ f. some (f, r.1)) (eq_of_some-eq-some r.0 false h1)) in
    record { list = g.list; finished = g.settled.order; whole = m }

-- Where ValidateCycle finds no cycle, no task is reached from itself along the edges of the builder.
pub validate_cycle_acyclic :
    {Task : Type 0}
    → (b : Builder Task) (x : String) → validate_cycle b ≡ some false
    → mem x (keys b.tasks_map) ≡ true
    → ¬ Walk b.task_edges x x
validate_cycle_acyclic b x h known w =
    let o = validate_cycle-Order b h in
    let down =
      sink_along (build_adj b.task_edges []) b.task_edges o.list (adj-edges b.task_edges) o.finished
        x x w (o.whole x known) in
    omega (arith, down)

-- Where ValidateCycle finds no cycle, every edge from a task goes up from level to level.
pub validate_cycle_levels :
    {Task : Type 0}
    → (b : Builder Task) → validate_cycle b ≡ some false
    → (level : String → ℕ) × ((p c : String)
        → mem p (keys b.tasks_map) ≡ true
        → edge_in b.task_edges p c ≡ true
        → level p < level c)
validate_cycle_levels b h =
    let o = validate_cycle-Order b h in
    (
      λ x. length o.list - rank x o.list,
      λ p c known e.
          let (_, below) =
            edge_sinks (build_adj b.task_edges []) o.list p c o.finished (o.whole p known)
              (adj-edges b.task_edges p c ∙ e) in
          omega (arith, below, rank-le p o.list),
    )
