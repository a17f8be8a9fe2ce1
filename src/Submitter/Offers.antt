-- ===== src/Submitter/Offers.antt =====
-- The names behind task ids and edges by id, and the messages that offer a task.
use distributed_task_system.Common.{
  ℕ, >>=-eq-some, eq_of_some-eq-some, ◌<◌, String, ◌≡◌, refl, sym, ap, subst, ◌∙◌, ◌⊎◌, inl, inr,
  true, ◌&&◌, some, List, [], ◌∷◌, ◌++◌, map, arith, str_eq, eq_iff, eq_refl, Bool-cases,
  Option-cases, get_or, is_some, All, mem, count, Dict,
}
use mathlib.Core.List.{append_assoc}
use distributed_task_system.Redis.{Fields}
use distributed_task_system.CompleteTask.{ready_entry}
use distributed_task_system.Workflow.{Edge, has_edge}
use distributed_task_system.Submitter.{
  PbTask, PbTaskEdge, DagCommitContext, uuid_of, dependency_count,
}
use distributed_task_system.Submitter.Pipeline.{x_add_fields}
use distributed_task_system.Submitter.Pipeline.Effect.{resolve_edges}
use distributed_task_system.Submitter.Pipeline.OneTask.{names, message}
use distributed_task_system.Submitter.Pipeline.Tasks.{messages}
use distributed_task_system.Submitter.Pipeline.Tracked.{task_ids}

-- The message stands in the list.
abbrev pub Holds : List Fields → Fields → Type 0
Holds l m = (before : List Fields) × (behind : List Fields) × (l ≡ before ++ m ∷ behind)

pub Holds-right : (l k : List Fields) (m : Fields) → Holds k m → Holds (l ++ k) m
Holds-right l k m (before, behind, e) =
    (l ++ before, behind, ap (λ x. l ++ x) e ∙ sym (append_assoc l before (m ∷ behind)))

pub Holds-left : (l k : List Fields) (m : Fields) → Holds l m → Holds (l ++ k) m
Holds-left l k m (before, behind, e) =
    (before, behind ++ k, ap (λ x. x ++ k) e ∙ append_assoc before (m ∷ behind) k)

-- The two messages by which a task is offered: that of its submission, and that of its release.
abbrev pub IsOffered : List Fields → String → String → Type 0
IsOffered l job y = Holds l (x_add_fields y job) ⊎ Holds l (ready_entry job y)

-- Every edge of the request goes up from its parent to its child.
abbrev pub GoesUp : (String → ℕ) → List PbTaskEdge → Type 0
GoesUp level es = All (λ e. level e.parent_natural_id < level e.child_natural_id) es

pub Holds-map :
    (job : String) (rs : List String) (y : String)
    → 0 < count y rs
    → Holds (map (ready_entry job) rs) (ready_entry job y)
unfolding count
Holds-map job [] y h = absurd (omega (arith, h))
Holds-map job (x ∷ rs) y h = elim (Bool-cases (str_eq y x)) [
  | inl e ↦ (
    [],
    map (ready_entry job) rs,
    ap (λ z. ready_entry job z ∷ map (ready_entry job) rs) (sym ((eq_iff y x).0 e)),
  )
  | inr n ↦ Holds-right (ready_entry job x ∷ []) _ _ (Holds-map job rs y (rw n at h))
]

-- Where the name of a task stands for its id.
module _ (ctx : DagCommitContext) where
  -- A task by its id has a name of the request.
  pub task-named :
      (ts : List PbTask) (y : String)
      → ((n : String) → names n ts ≡ true → is_some (uuid_of ctx n) ≡ true)
      → mem y (task_ids ctx ts) ≡ true
      → (n : String) × (names n ts ≡ true) × (uuid_of ctx n ≡ some y)
  unfolding mem names
  task-named [] y all h = absurd (ground (arith, h))
  task-named (t ∷ ts) y all h = elim (Option-cases (uuid_of ctx t.natural_id)) [
    | inl e ↦ absurd (ground (arith, all t.natural_id (ground (arith, eq_refl t.natural_id)), e))
    | inr (c, e) ↦ elim (Bool-cases (str_eq y c)) [
      | inl same ↦ (
        t.natural_id,
        ground (arith, eq_refl t.natural_id),
        e ∙ ap some (sym ((eq_iff y c).0 same)),
      )
      | inr other ↦
          (let (n, listed, is) =
              task-named ts y (λ m k. all m (ground (arith, k)))
                (ground (arith, rw e at h, other)) in
            (n, ground (arith, listed), is))
    ]
  ]

  pub named-listed :
      (ts : List PbTask) (n y : String)
      → names n ts ≡ true
      → uuid_of ctx n ≡ some y
      → mem y (task_ids ctx ts) ≡ true
  unfolding mem names
  named-listed [] n y h e = absurd (ground (arith, h))
  named-listed (t ∷ ts) n y h e = elim (Bool-cases (str_eq t.natural_id n)) [
    | inl same ↦ rw ((eq_iff t.natural_id n).0 same, e) (ground (arith, eq_refl y))
    | inr other ↦ ground (arith, named-listed ts n y (rw other at h) e)
  ]

  -- The names of an edge by id.
  pub edge-names :
      (es : List PbTaskEdge) (us : List Edge) (level : String → ℕ) (p c : String)
      → resolve_edges ctx es ≡ some us
      → GoesUp level es
      → has_edge us p c ≡ true
      → (m : String) × (n : String) × (uuid_of ctx m ≡ some p)
        × (uuid_of ctx n ≡ some c)
        × (level m < level n)
  unfolding resolve_edges has_edge
  edge-names [] us level p c h up e =
      absurd
        (ground (arith, subst (λ l. has_edge l p c ≡ true) (sym (eq_of_some-eq-some [] us h)) e))
  edge-names (x ∷ es) us level p c h up e =
      let (q, eq, h1) = >>=-eq-some (uuid_of ctx x.parent_natural_id) _ h in
      let (d, ed, h2) = >>=-eq-some (uuid_of ctx x.child_natural_id) _ h1 in
      let (rest, er, h3) = >>=-eq-some (resolve_edges ctx es) _ h2 in
      let e' : has_edge ((q, d) ∷ rest) p c ≡ true =
        subst (λ l. has_edge l p c ≡ true) (sym (eq_of_some-eq-some _ us h3)) e in
      elim (Bool-cases (str_eq q p && str_eq d c)) [
        | inl y ↦ (
          x.parent_natural_id,
          x.child_natural_id,
          eq ∙ ap some ((eq_iff q p).0 (ground (arith, y))),
          ed ∙ ap some ((eq_iff d c).0 (ground (arith, y))),
          up.0,
        )
        | inr z ↦ edge-names es rest level p c er up.1 (rw z at e')
      ]

  -- The message of a task without parents.
  pub messages-Holds :
      (counts : Dict ℕ) (ts : List PbTask) (n y : String)
      → names n ts ≡ true
      → uuid_of ctx n ≡ some y
      → dependency_count counts n ≡ 0
      → Holds (messages counts ctx ts) (x_add_fields y ctx.job_id)
  unfolding messages names
  messages-Holds counts [] n y h e z = absurd (ground (arith, h))
  messages-Holds counts (t ∷ ts) n y h e z = elim (Bool-cases (str_eq t.natural_id n)) [
    | inl same ↦ rw ((eq_iff t.natural_id n).0 same, e, z) ([], messages counts ctx ts, refl)
    | inr other ↦
        Holds-right
          (message counts ctx (get_or (uuid_of ctx t.natural_id) "")
            (dependency_count counts t.natural_id))
          _ _ (messages-Holds counts ts n y (rw other at h) e z)
  ]
