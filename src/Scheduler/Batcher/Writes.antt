-- ===== src/Scheduler/Batcher/Writes.antt =====
-- What the flushes of FlushBatch, one after the other, leave in the table task.
use distributed_task_system.Common.{
  ℕ, zero, suc, eq_of_some-eq-some, String, ◌≡◌, refl, sym, ap, subst, ◌∙◌, ◌≢◌, ◌⊎◌, inl, inr,
  Bool, true, false, some, List, [], ◌∷◌, ◌++◌, map, arith, str_eq, eq_iff, eq_refl, if◌then◌else◌,
  Bool-cases, get_elem?, All,
}
use distributed_task_system.Scheduler.{code, Row}
use distributed_task_system.Scheduler.Batcher.{TaskUpdateOp, ops_for, join_row, flush_batch}

-- A call of FlushBatch: does the transaction run, the time of the server, and the batch.
pub record Flush : Type 0 where
  pub connected : Bool
  pub now : ℕ
  pub batch : List TaskUpdateOp

-- A row with the columns that an update sets: an empty result is stored as an empty object.
abbrev pub updated : ℕ → TaskUpdateOp → Row → Row
updated now op r = record r {
  state = code op.state;
  result = some (if str_eq op.result_json "" then "{}" else op.result_json);
  error_msg = some op.error_msg;
  worker_id = some op.worker_id;
  finish_ts = some now;
}

-- The flush does not run, or has no update for the task.
abbrev pub Silent : String → Flush → Type 0
Silent id f = (f.connected ≡ false) ⊎ All (λ op. op.task_id ≢ id) f.batch

-- An update that the flush writes for the task.
pub record Writes (f : Flush) (id : String) (op : TaskUpdateOp) : Type 0 where
  pub ran : f.connected ≡ true
  pub place : ℕ
  pub in_batch : get_elem? f.batch place ≡ some op
  pub for_task : op.task_id ≡ id

-- A row before and after some flushes: as it was where all are silent, and otherwise with an update of
-- the last one that is not.
pub data LastWrite : List Flush → Row → Row → Type 0 where
  unwritten : (fs : List Flush) (r : Row) → All (Silent r.task_id) fs → LastWrite fs r r
  written :
      (before after : List Flush) (f : Flush) (op : TaskUpdateOp) (r : Row)
      → Writes f r.task_id op
      → All (Silent r.task_id) after
      → LastWrite (before ++ f ∷ after) r (updated f.now op r)

-- A relation of each row of a table to the row in its place.
pub data Each (P : Row → Row → Type 0) : List Row → List Row → Type 0 where
  no_rows : Each P [] []
  one_row : (r s : Row) (rs ss : List Row) → P r s → Each P rs ss → Each P (r ∷ rs) (s ∷ ss)

-- What PostgreSQL promises of UPDATE ... FROM where several values join a row: it uses one of them.
abbrev pub IsChoice : (TaskUpdateOp → List TaskUpdateOp → TaskUpdateOp) → Type 0
IsChoice choose =
    (op : TaskUpdateOp) (ops : List TaskUpdateOp)
    → (i : ℕ) × (get_elem? (op ∷ ops) i ≡ some (choose op ops))

-- One flush of one row.
abbrev Once : Flush → Row → Row → Type 0
Once f r s =
    (Silent r.task_id f × (s ≡ r))
    ⊎ ((op : TaskUpdateOp) × Writes f r.task_id op × (s ≡ updated f.now op r))

none_for :
    (id : String) (batch : List TaskUpdateOp)
    → ops_for id batch ≡ []
    → All (λ op. op.task_id ≢ id) batch
unfolding ops_for
none_for id [] h = tt
none_for id (op ∷ ops) h = elim (Bool-cases (str_eq op.task_id id)) [
  | inl same ↦ (let k = rw same at h in cc)
  | inr other ↦ (
    (λ e. (let same = eq_refl id in ground (arith, other, same, e, eq_iff op.task_id id))),
    none_for id ops (rw other at h),
  )
]

some_for :
    (id : String) (batch : List TaskUpdateOp) (i : ℕ) (op : TaskUpdateOp)
    → get_elem? (ops_for id batch) i ≡ some op
    → (j : ℕ) × (get_elem? batch j ≡ some op) × (op.task_id ≡ id)
unfolding ops_for
some_for id [] i op h = cc
some_for id (o ∷ ops) i op h = elim (Bool-cases (str_eq o.task_id id)) [
  | inl same ↦ here (λ k. some_for id ops k op) i (rw same at h) same
  | inr other ↦ (let (j, at, e) = some_for id ops i op (rw other at h) in (suc j, at, e))
]
  where
    here :
        ((i : ℕ)
          → get_elem? (ops_for id ops) i ≡ some op
          → (j : ℕ) × (get_elem? ops j ≡ some op) × (op.task_id ≡ id))
        → (i : ℕ) → get_elem? (o ∷ ops_for id ops) i ≡ some op
        → str_eq o.task_id id ≡ true
        → (j : ℕ) × (get_elem? (o ∷ ops) j ≡ some op) × (op.task_id ≡ id)
    here rest zero h same =
        let is = eq_of_some-eq-some o op h in
        (0, h, sym (ap (λ (x : TaskUpdateOp). x.task_id) is) ∙ (eq_iff o.task_id id).0 same)
    here rest (suc i) h same = let (j, at, e) = rest i h in (suc j, at, e)

module _ (choose : TaskUpdateOp → List TaskUpdateOp → TaskUpdateOp)
    (chooses : IsChoice choose) where
  join_row-Once :
      (f : Flush) (r : Row) (ops : List TaskUpdateOp)
      → f.connected ≡ true
      → ops_for r.task_id f.batch ≡ ops
      → Once f r (join_row choose f.now ops r)
  unfolding join_row
  join_row-Once f r [] ran e = inl (inr (none_for r.task_id f.batch e), refl)
  join_row-Once f r (op ∷ ops) ran e =
      let (i, chosen) = chooses op ops in
      let (j, at, same) =
        some_for r.task_id f.batch i (choose op ops) (ap (λ l. get_elem? l i) e ∙ chosen) in
      inr (choose op ops, record { ran = ran; place = j; in_batch = at; for_task = same }, refl)

  rows-Once :
      (f : Flush) (rows : List Row)
      → f.connected ≡ true
      → Each (Once f) rows (map (λ r. join_row choose f.now (ops_for r.task_id f.batch) r) rows)
  rows-Once f [] ran = no_rows
  rows-Once f (r ∷ rows) ran =
      one_row r _ rows _ (join_row-Once f r _ ran refl) (rows-Once f rows ran)

same_rows : (f : Flush) (rows : List Row) → f.connected ≡ false → Each (Once f) rows rows
same_rows f [] down = no_rows
same_rows f (r ∷ rows) down = one_row r r rows rows (inl (inl down, refl)) (same_rows f rows down)

LastWrite-cons :
    (f : Flush) (fs : List Flush) (r s t : Row)
    → Once f r s
    → LastWrite fs s t
    → LastWrite (f ∷ fs) r t
LastWrite-cons f fs r s t (inl (quiet, same)) w =
    kept fs r t quiet (subst (λ x. LastWrite fs x t) same w)
  where
    kept :
        (fs : List Flush) (r t : Row)
        → Silent r.task_id f
        → LastWrite fs r t
        → LastWrite (f ∷ fs) r t
    kept fs r t quiet (unwritten _ _ all) = unwritten (f ∷ fs) r (quiet, all)
    kept _ _ _ quiet (written before after g op r by all) = written (f ∷ before) after g op r by all
LastWrite-cons f fs r s t (inr (op, by, is)) w =
    over fs t op by (subst (λ x. LastWrite fs x t) is w)
  where
    over :
        (fs : List Flush) (t : Row) (op : TaskUpdateOp)
        → Writes f r.task_id op
        → LastWrite fs (updated f.now op r) t
        → LastWrite (f ∷ fs) r t
    over fs t op by (unwritten _ _ all) = written [] fs f op r by all
    over _ _ op by (written before after g o _ by_g all) = written (f ∷ before) after g o r by_g all

Each-cons :
    (f : Flush) (fs : List Flush) (rows between after : List Row)
    → Each (Once f) rows between
    → Each (LastWrite fs) between after
    → Each (LastWrite (f ∷ fs)) rows after
Each-cons f fs _ _ _ no_rows no_rows = no_rows
Each-cons f fs _ _ _ (one_row r s rs ss p ps) (one_row _ t _ ts q qs) =
    one_row r t rs ts (LastWrite-cons f fs r s t p q) (Each-cons f fs rs ss ts ps qs)

unwritten_rows : (rows : List Row) → Each (LastWrite []) rows rows
unwritten_rows [] = no_rows
unwritten_rows (r ∷ rows) = one_row r r rows rows (unwritten [] r tt) (unwritten_rows rows)

module _ (choose : TaskUpdateOp → List TaskUpdateOp → TaskUpdateOp) where
  unfoldable pub flush_each : List Flush → List Row → List Row
  flush_each [] rows = rows
  flush_each (f ∷ fs) rows = flush_each fs (flush_batch choose f.connected f.now f.batch rows)

  flushed :
      (f : Flush) (rows : List Row) (b : Bool)
      → f.connected ≡ b
      → IsChoice choose
      → Each
          (Once f)
          rows
          (if b then map (λ r. join_row choose f.now (ops_for r.task_id f.batch) r) rows else rows)
  flushed f rows true up chooses = rows-Once choose chooses f rows up
  flushed f rows false down chooses = same_rows f rows down

  flush_batch-Once :
      IsChoice choose
      → (f : Flush) (rows : List Row)
      → Each (Once f) rows (flush_batch choose f.connected f.now f.batch rows)
  unfolding flush_batch
  flush_batch-Once chooses f rows = flushed f rows f.connected refl chooses

  -- Batches are flushed one after the other, some of them without success, and where a batch has several
  -- updates for a task the server uses one of them. Every row then either is as it was, and no flush
  -- that ran had an update for its task; or it is the old row with the state, the result (an empty
  -- object for an empty text), the error and the worker of an update for its task, and the time of the
  -- flush, from a flush that ran, after which none that ran had an update for the task.
  pub flush_each-LastWrite :
      IsChoice choose
      → (fs : List Flush) (rows : List Row) → Each (LastWrite fs) rows (flush_each fs rows)
  unfolding flush_each
  flush_each-LastWrite chooses [] rows = unwritten_rows rows
  flush_each-LastWrite chooses (f ∷ fs) rows =
      Each-cons f fs rows _ _ (flush_batch-Once chooses f rows)
        (flush_each-LastWrite chooses fs (flush_batch choose f.connected f.now f.batch rows))
