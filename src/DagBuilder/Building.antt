-- ===== src/DagBuilder/Building.antt =====
-- What AddTask and AddDependency keep of a builder.
use distributed_task_system.Common.{
  String, ◌≡◌, subst, inl, inr, true, false, ◌&&◌, ◌||◌, List, [], ◌∷◌, ◌++◌, arith, str_eq, eq_iff,
  Bool-cases, is_some, Dict, find, put, find-put,
}
use distributed_task_system.DagBuilder.{
  TaskEdge, Builder, Result, fine, error, add_task, add_dependency,
}
use distributed_task_system.DagBuilder.Acyclic.{edge_in}

edge_in-append :
    (es : List TaskEdge) (q d p c : String)
    → edge_in (es ++ record { parent_natural_id = q; child_natural_id = d } ∷ []) p c
      ≡ (edge_in es p c || (str_eq q p && str_eq d c))
unfolding edge_in
edge_in-append [] q d p c = ground arith
edge_in-append (e ∷ es) q d p c = ground (arith, edge_in-append es q d p c)

-- The calls on a builder; one that throws leaves it as it was.
pub data Call (Task : Type 0) : Type 0 where
  task_added : String → Task → Call Task
  dependency_added : String → String → Call Task

module _ {Task : Type 0} where
  abbrev pub kept_or : Builder Task → Result (Builder Task) → Builder Task
  kept_or b (fine c) = c
  kept_or b (error f) = b

  abbrev apply : Call Task → Builder Task → Builder Task
  apply (task_added id t) b = kept_or b (add_task id t b)
  apply (dependency_added p c) b = kept_or b (add_dependency p c b)

  unfoldable pub apply_all : List (Call Task) → Builder Task → Builder Task
  apply_all [] b = b
  apply_all (c ∷ cs) b = apply_all cs (apply c b)

  -- Every edge joins two different tasks of the builder.
  abbrev pub IsClosed : Builder Task → Type 0
  IsClosed b =
      (p c : String)
      → edge_in b.task_edges p c ≡ true
      → (is_some (find p b.tasks_map) ≡ true)
        × (is_some (find c b.tasks_map) ≡ true)
        × (str_eq p c ≡ false)

  pub found_after :
      (k j : String) (t : Task) (m : Dict Task)
      → is_some (find j m) ≡ true
      → is_some (find j (put k t m)) ≡ true
  found_after k j t m h = ground (arith, find-put k j t m, h)

  pub add_task-IsClosed :
      (id : String) (t : Task) (b : Builder Task)
      → IsClosed b
      → IsClosed (kept_or b (add_task id t b))
  unfolding add_task
  add_task-IsClosed id t b k = elim (Bool-cases (is_some (find id b.tasks_map))) [
    | inl y ↦ rw y k
    | inr z ↦ rw z (λ p c h.
        let (x, y, n) = k p c h in
        (found_after id p t b.tasks_map x, found_after id c t b.tasks_map y, n))
  ]

  pub add_dependency-IsClosed :
      (p c : String) (b : Builder Task) → IsClosed b → IsClosed (kept_or b (add_dependency p c b))
  unfolding add_dependency
  add_dependency-IsClosed p c b k = elim (Bool-cases (str_eq p c)) [
    | inl y ↦ rw y k
    | inr e ↦ elim (Bool-cases (is_some (find p b.tasks_map))) [
      | inr y ↦ rw (e, y) k
      | inl x ↦ elim (Bool-cases (is_some (find c b.tasks_map))) [
        | inr y ↦ rw (e, x, y) k
        | inl y ↦ rw (e, x, y) (new_edge e x y)
      ]
    ]
  ]
    where
      new_edge :
          str_eq p c ≡ false
          → is_some (find p b.tasks_map) ≡ true
          → is_some (find c b.tasks_map) ≡ true
          → (q d : String)
          → edge_in
              (b.task_edges ++ record { parent_natural_id = p; child_natural_id = c } ∷ [])
              q
              d
            ≡ true
          → (is_some (find q b.tasks_map) ≡ true)
            × (is_some (find d b.tasks_map) ≡ true)
            × (str_eq q d ≡ false)
      new_edge e x y q d h = elim (Bool-cases (edge_in b.task_edges q d)) [
        | inl old ↦ k q d old
        | inr new ↦
            (let a = edge_in-append b.task_edges p c q d in
              let same_p = eq_iff p q in
              let same_c = eq_iff c d in
              let both : (p ≡ q) × (c ≡ d) =
                (ground (arith, a, h, new, same_p), ground (arith, a, h, new, same_c)) in
              (
                subst (λ z. is_some (find z b.tasks_map) ≡ true) both.0 x,
                subst (λ z. is_some (find z b.tasks_map) ≡ true) both.1 y,
                subst (λ z. str_eq z d ≡ false) both.0 (subst (λ z. str_eq p z ≡ false) both.1 e),
              ))
      ]

  apply-IsClosed : (c : Call Task) (b : Builder Task) → IsClosed b → IsClosed (apply c b)
  apply-IsClosed (task_added id t) b k = add_task-IsClosed id t b k
  apply-IsClosed (dependency_added p c) b k = add_dependency-IsClosed p c b k

  -- Whatever calls of AddTask and AddDependency are made on a builder whose edges join different
  -- tasks of it, as those of a new one do, and whichever of them throw: its edges still do.
  pub apply_all-IsClosed :
      (cs : List (Call Task)) (b : Builder Task) → IsClosed b → IsClosed (apply_all cs b)
  unfolding apply_all
  apply_all-IsClosed [] b k = k
  apply_all-IsClosed (c ∷ cs) b k = apply_all-IsClosed cs (apply c b) (apply-IsClosed c b k)
