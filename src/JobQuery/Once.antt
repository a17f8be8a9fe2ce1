-- ===== src/JobQuery/Once.antt =====
-- Every task of a job is reported once, from Redis or from the table.
use distributed_task_system.Common.{
  String, ◌≡◌, refl, ap, ◌∙◌, ◌⊎◌, inl, inr, Bool, true, false, not, ◌&&◌, ◌||◌, Option, none, some,
  List, [], ◌∷◌, ◌++◌, map, arith, eq_iff, if◌then◌else◌, Bool-cases, is_empty, select, mem,
  Distinct, count, count-append, count-select, ℤ, Dict,
}
use mathlib.Core.List.{map-append}
use distributed_task_system.JobQuery.{
  TaskDetail, DetailRow, detail_of_row, from_redis, from_table, read_replies, fetch_task_details,
}

abbrev pub ids_of_details : List TaskDetail → List String
ids_of_details ds = map (λ d. d.task_id) ds

abbrev pub ids_of_rows : List DetailRow → List String
ids_of_rows rs = map (λ r. r.task_id) rs

-- Does the pipeline answer with a hash that is not empty?
abbrev pub has_hash : Option (String → Dict String) → String → Bool
has_hash none x = false
has_hash (some reply) x = not (is_empty (reply x))

-- SELECT ... WHERE task_id = ANY(...) over a table with the keys `in_table`: where it works, a row for each
-- of the keys, in any order, and else an exception.
abbrev pub Answers : (List String → Option (List DetailRow)) → Bool → (String → Bool) → Type 0
Answers query works in_table =
    (ids : List String)
    → ((works ≡ false) × (query ids ≡ none))
      ⊎ ((works ≡ true)
          × (rows : List DetailRow) × (query ids ≡ some rows)
          × ((x : String)
              → count x (ids_of_rows rows) ≡ (if mem x ids && in_table x then 1 else 0)))

read_replies-select :
    (from_chars : String → Option ℤ) (need_payload : Bool) (reply : String → Dict String)
    (ids : List String)
    → let (details, missed) =
        read_replies from_chars need_payload (map (λ id. (id, reply id)) ids) in
      (ids_of_details details ≡ select (λ id. not (is_empty (reply id))) ids)
      × (missed ≡ select (λ id. is_empty (reply id)) ids)
unfolding read_replies select
read_replies-select fc np reply [] = (refl, refl)
read_replies-select fc np reply (id ∷ ids) =
    let (a, b) = read_replies-select fc np reply ids in
    elim (Bool-cases (is_empty (reply id))) [
      | inl e ↦ rw e (a, ap (λ l. id ∷ l) b)
      | inr n ↦ rw n (ap (λ l. id ∷ l) a, b)
    ]

mem-select :
    (p : String → Bool) (xs : List String) (x : String) → mem x (select p xs) ≡ (mem x xs && p x)
unfolding select mem
mem-select p [] x = refl
mem-select p (y ∷ xs) x = ground (arith, mem-select p xs x, eq_iff x y)

-- The ids in details that are read from rows.
rows-ids :
    (np : Bool) (rows : List DetailRow)
    → ids_of_details (map (detail_of_row np) rows) ≡ ids_of_rows rows
rows-ids np [] = refl
rows-ids np (r ∷ rows) = ap (λ l. r.task_id ∷ l) (rows-ids np rows)

-- The details from Redis, and the ids that it misses.
record Halves (h : String → Bool) (ids : List String) (details : List TaskDetail)
    (missed : List String) : Type 0 where
  found : (x : String) → count x (ids_of_details details) ≡ (if mem x ids && h x then 1 else 0)
  others : (x : String) → mem x missed ≡ (mem x ids && not (h x))

read_replies-Halves :
    (fc : String → Option ℤ) (np : Bool) (reply : String → Dict String) (ids : List String)
    → Distinct ids
    → let (details, missed) = read_replies fc np (map (λ id. (id, reply id)) ids) in
      Halves (has_hash (some reply)) ids details missed
read_replies-Halves fc np reply ids distinct =
    let (a, b) = read_replies-select fc np reply ids in
    record {
      found = λ x. rw a (count-select (λ id. not (is_empty (reply id))) ids x distinct);
      others = λ x. rw b (mem-select (λ id. is_empty (reply id)) ids x ∙ ground arith);
    }

all_missed : (ids : List String) → Halves (has_hash none) ids [] ids
unfolding count
all_missed ids = record { found = λ x. ground arith; others = λ x. ground arith }

module _ (np : Bool) (query : List String → Option (List DetailRow)) (works : Bool)
    (in_table : String → Bool) (answers : Answers query works in_table) where
  -- What the table adds to the details.
  abbrev added : List String → List TaskDetail
  added missed = if is_empty missed then [] else from_table np (query missed)

  added-count :
      (missed : List String) (x : String)
      → count x (ids_of_details (added missed))
        ≡ (if mem x missed && (works && in_table x) then 1 else 0)
  unfolding mem count
  added-count [] x = refl
  added-count (y ∷ missed) x = elim (answers (y ∷ missed)) [
    | inl (fails, e) ↦ rw e (ground (arith, fails))
    | inr (fine, rows, e, once) ↦ rw e (rw (rows-ids np rows, fine) (once x))
  ]

  whole-count :
      (h : String → Bool) (ids missed : List String) (details : List TaskDetail) (x : String)
      → Halves h ids details missed
      → count x (ids_of_details (details ++ added missed))
        ≡ (if mem x ids && (h x || (works && in_table x)) then 1 else 0)
  whole-count h ids missed details x k =
      rw
        (
          map-append (λ (d : TaskDetail). d.task_id) details (added missed),
          count-append x (ids_of_details details) (ids_of_details (added missed)),
        )
        (ground (arith, k.found x, k.others x, added-count missed x))

from_redis-Halves :
    (fc : String → Option ℤ) (np : Bool) (pipe : Option (String → Dict String)) (ids : List String)
    → Distinct ids
    → let (details, missed) = from_redis fc np ids pipe in Halves (has_hash pipe) ids details missed
from_redis-Halves fc np none ids distinct = all_missed ids
from_redis-Halves fc np (some reply) ids distinct = read_replies-Halves fc np reply ids distinct

-- FetchTaskDetails for different ids, whether or not the pipeline and the query work, over a table
-- that answers a query that works with one row for each id that is in it: a task that is asked for
-- and has a hash in the answer of the pipeline, or a row in the answer of the query, is reported once, and no other task is.
pub fetch_reports_once :
    (from_chars : String → Option ℤ) (pipe : Option (String → Dict String))
    (query : List String → Option (List DetailRow)) (works : Bool) (in_table : String → Bool)
    (need_payload : Bool) (ids : List String) (x : String)
    → Answers query works in_table
    → Distinct ids
    → count x (ids_of_details (fetch_task_details from_chars pipe query need_payload ids))
      ≡ (if mem x ids && (has_hash pipe x || (works && in_table x)) then 1 else 0)
unfolding fetch_task_details
fetch_reports_once fc pipe query works in_table np ids x answers distinct =
    let (details, missed) = from_redis fc np ids pipe in
    whole-count np query works in_table answers (has_hash pipe) ids missed details x
      (from_redis-Halves fc np pipe ids distinct)
