-- ===== src/Submitter/Database/Commit.antt =====
-- What a committed transaction of FlushDBBatch has checked of a request, and what it refuses.
use distributed_task_system.Common.{
  ℕ, >>=-eq-some, eq_of_some-eq-some, String, ◌≡◌, refl, sym, ap, subst, ◌∙◌, inl, inr, true, false,
  not, ◌&&◌, ◌||◌, some, List, [], ◌∷◌, arith, str_eq, eq_iff, eq_refl, Bool-cases, Dict,
}
use distributed_task_system.Workflow.{Edge, has_edge, DistinctEdges}
use distributed_task_system.Submitter.{PbTask, PbTaskEdge, DagCommitContext, BatchItem, uuid_of}
use distributed_task_system.Submitter.Pipeline.Effect.{resolve_edges}
use distributed_task_system.Submitter.Database.{
  Database, has_edge_row, has_task, insert_task, insert_edge, flush_jobs, flush_item_tasks,
  flush_tasks, flush_item_edges, flush_edges, flush_db_batch,
}

-- A new edge was not there before, and is there afterwards.
insert_edge-new :
    (p c : String) (db db' : Database)
    → insert_edge p c db ≡ some db'
    → (has_edge_row p c db.edges ≡ false)
      × ((q d : String)
          → has_edge_row q d db'.edges ≡ ((str_eq p q && str_eq c d) || has_edge_row q d db.edges))
unfolding insert_edge has_edge_row
insert_edge-new p c db db' h =
    elim (Bool-cases
      (has_edge_row p c db.edges || not (has_task p db.tasks) || not (has_task c db.tasks))) [
        | inl y ↦ (let h' = rw y at h in ground (arith, h'))
        | inr z ↦ (
          ground (arith, z),
          λ q d.
              subst
                (λ b.
                  has_edge_row q d b.edges
                  ≡ ((str_eq p q && str_eq c d) || has_edge_row q d db.edges))
                (eq_of_some-eq-some _ db' (rw z at h)) refl,
        )
      ]

-- The edges that have been written are all different, and none of them was in the table.
pub record Written (ctx : DagCommitContext) (es : List PbTaskEdge) (db : Database) : Type 0 where
  pub edges : List Edge
  pub resolved : resolve_edges ctx es ≡ some edges
  pub different : DistinctEdges edges
  pub unwritten : (p c : String) → has_edge_row p c db.edges ≡ true → has_edge edges p c ≡ false

resolve_one :
    (ctx : DagCommitContext) (x : PbTaskEdge) (es : List PbTaskEdge) (p c : String) (us : List Edge)
    → uuid_of ctx x.parent_natural_id ≡ some p
    → uuid_of ctx x.child_natural_id ≡ some c
    → resolve_edges ctx es ≡ some us
    → resolve_edges ctx (x ∷ es) ≡ some ((p, c) ∷ us)
unfolding resolve_edges
resolve_one ctx x es p c us ep ec eu = rw (ep, ec, eu) refl

Written-cons :
    (ctx : DagCommitContext) (x : PbTaskEdge) (es : List PbTaskEdge) (p c : String)
    (db db1 : Database)
    → uuid_of ctx x.parent_natural_id ≡ some p
    → uuid_of ctx x.child_natural_id ≡ some c
    → insert_edge p c db ≡ some db1
    → Written ctx es db1
    → Written ctx (x ∷ es) db
Written-cons ctx x es p c db db1 ep ec h w =
    let (new, now) = insert_edge-new p c db db1 h in
    record {
      edges = (p, c) ∷ w.edges;
      resolved = resolve_one ctx x es p c w.edges ep ec w.resolved;
      different = (w.unwritten p c (now p c ∙ ground (arith, eq_refl p, eq_refl c)), w.different);
      unwritten = λ q d e.
          unfold has_edge in
          ground (arith, w.unwritten q d, now q d, eq_iff p q, eq_iff c d, new, e);
    }

pub flush_item_edges-Written :
    (ctx : DagCommitContext) (es : List PbTaskEdge) (db db' : Database)
    → flush_item_edges ctx es db ≡ some db'
    → Written ctx es db
unfolding flush_item_edges
flush_item_edges-Written ctx [] db db' h = record {
  edges = [];
  resolved = unfold resolve_edges in refl;
  different = tt;
  unwritten = λ p c e. unfold has_edge in refl;
}
flush_item_edges-Written ctx (x ∷ es) db db' h =
    let (p, ep, h1) = >>=-eq-some (uuid_of ctx x.parent_natural_id) _ h in
    let (c, ec, h2) = >>=-eq-some (uuid_of ctx x.child_natural_id) _ h1 in
    let (db1, e, h3) = >>=-eq-some (insert_edge p c db) _ h2 in
    Written-cons ctx x es p c db db1 ep ec e (flush_item_edges-Written ctx es db1 db' h3)

-- The tasks only note entry tasks in the context.
pub flush_item_tasks_context :
    (counts : Dict ℕ) (now : ℕ) (ts : List PbTask) (ctx ctx' : DagCommitContext) (db db' : Database)
    → flush_item_tasks counts now ctx ts db ≡ some (ctx', db')
    → (l : List String) × (ctx' ≡ record ctx { entry_task_ids = l })
unfolding flush_item_tasks
flush_item_tasks_context counts now [] ctx ctx' db db' h =
    (ctx.entry_task_ids, ap (λ x. x.0) (sym (eq_of_some-eq-some (ctx, db) (ctx', db') h)))
flush_item_tasks_context counts now (t ∷ ts) ctx ctx' db db' h =
    let (uuid, e, h1) = >>=-eq-some (uuid_of ctx t.natural_id) _ h in
    let (db1, e1, h2) = >>=-eq-some (insert_task _ db) _ h1 in
    flush_item_tasks_context counts now ts _ ctx' db1 db' h2

-- A batch of one item that is committed: what goes on to Redis is the item with its entry tasks noted,
-- and its edges by task id are all different.
pub flush_one :
    (now : ℕ) (i : BatchItem) (items : List BatchItem) (db db' : Database)
    → flush_db_batch now (i ∷ []) db ≡ some (items, db')
    → (l : List String) × (items
        ≡ record { req = i.req; ctx = record i.ctx { entry_task_ids = l } } ∷ [])
      × ((us : List Edge) × (resolve_edges (record i.ctx { entry_task_ids = l }) i.req.edges
            ≡ some us)
          × DistinctEdges us)
unfolding flush_db_batch flush_tasks flush_edges
flush_one now i items db db' h =
    let (db1, e1, h1) = >>=-eq-some (flush_jobs (i ∷ []) db) _ h in
    let ((its, db2), e2, h2) = >>=-eq-some (flush_tasks now (i ∷ []) db1) _ h1 in
    let (db3, e3, h3) = >>=-eq-some (flush_edges its db2) _ h2 in
    let ((ctx, db4), e4, h4) = >>=-eq-some (flush_item_tasks _ now i.ctx i.req.tasks db1) _ e2 in
    let same =
      ap (λ x. x.0)
        (eq_of_some-eq-some (record { req = i.req; ctx = ctx } ∷ [], db4) (its, db2) h4) in
    let (l, is_ctx) = flush_item_tasks_context _ now i.req.tasks i.ctx ctx db1 db4 e4 in
    let all_same = sym same ∙ ap (λ c. record { req = i.req; ctx = c } ∷ []) is_ctx in
    let e5 = subst (λ k. flush_edges k db2 ≡ some db3) all_same e3 in
    let (db5, e6, h6) =
      >>=-eq-some (flush_item_edges (record i.ctx { entry_task_ids = l }) i.req.edges db2) _ e5 in
    let w = flush_item_edges-Written (record i.ctx { entry_task_ids = l }) i.req.edges db2 db5 e6 in
    (
      l,
      sym (ap (λ x. x.0) (eq_of_some-eq-some (its, db3) (items, db') h3)) ∙ all_same,
      (w.edges, w.resolved, w.different),
    )
