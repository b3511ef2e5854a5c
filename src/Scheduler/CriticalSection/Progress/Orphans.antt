-- ===== src/Scheduler/CriticalSection/Progress/Orphans.antt =====
-- Scheduled task instances whose DAG is missing, in `_executable_task_instances_to_queued`
-- (lambdas/scheduler/scheduler_job.py, under src/python/beeflow).
use beeflow.Prelude.{
  ℕ, zero, suc, ◌≤◌, ◌≡◌, refl, ap, ◌∙◌, Bool, true, false, not, ◌&&◌, Option, none, some, List, [],
  ◌∷◌, if◌then◌else◌, arith, string_eq, pair_eq, nat_eq, length, take, filter, count, All, In,
  Bool-cases, Option-cases, inl, inr, ◌⊎◌,
}
use beeflow.Scheduler.Tables.{TaskInstance, DagRun, DagModel, Dag, Database, is_scheduled}
use beeflow.Scheduler.Query.{
  Row, Starved, join_row, rows, precedes, insert_row, order_rows, admits, candidates, select,
}
use beeflow.Scheduler.World.{World}
use beeflow.Scheduler.Examine.Table.{Changes, Lost}
use beeflow.Scheduler.Query.Facts.{join_row-IsJoined}

abbrev is_missing : Option Dag → Bool
is_missing none = true
is_missing (some dag) = false

-- A scheduled task instance whose DAG is missing.
abbrev pub is_orphan : World → TaskInstance → Bool
is_orphan w ti = is_scheduled ti.state && is_missing (w.get_dag ti.dag_id)

pub missing-orphan :
    (w : World) (ti : TaskInstance)
    → is_scheduled ti.state ≡ true
    → w.get_dag ti.dag_id ≡ none
    → is_orphan w ti ≡ true
missing-orphan w ti scheduled missing =
    ap (λ b. b && is_missing (w.get_dag ti.dag_id)) scheduled ∙ ap is_missing missing

-- How many rows have a task instance that passes a test.
abbrev of_rows : (TaskInstance → Bool) → List Row → ℕ
of_rows p = count (λ (row : Row). p row.ti)

module _ {A : Type 0} (p : A → Bool) where
  count-filter-le : (q : A → Bool) (xs : List A) → count p (filter q xs) ≤ count p xs
  count-filter-le q [] = omega arith
  count-filter-le q (x ∷ xs) = ground (arith, count-filter-le q xs)

  count-take-le : (n : ℕ) (xs : List A) → count p (take n xs) ≤ count p xs
  count-take-le zero xs = omega arith
  count-take-le (suc n) [] = omega arith
  count-take-le (suc n) (x ∷ xs) = omega (arith, count-take-le n xs)

  count-All : (xs : List A) → All (λ x. p x ≡ true) xs → count p xs ≡ length xs
  count-All [] h = refl
  count-All (x ∷ xs) h = omega (arith, ap {B = ℕ} (λ b. if b then 1 else 0) h.0, count-All xs h.1)

module _ (p : TaskInstance → Bool) where
  insert_row-count : (r : Row) (rs : List Row) → of_rows p (insert_row r rs) ≡ of_rows p (r ∷ rs)
  unfolding insert_row
  insert_row-count r [] = refl
  insert_row-count r (s ∷ rs) = elim (Bool-cases (precedes r s)) [
    | inl t ↦ rw (t, insert_row) refl
    | inr f ↦ rw (f, insert_row) (omega (arith, insert_row-count r rs))
  ]

  order_rows-count : (rs : List Row) → of_rows p (order_rows rs) ≡ of_rows p rs
  unfolding order_rows
  order_rows-count [] = refl
  order_rows-count (r ∷ rs) = omega (arith, insert_row-count r (order_rows rs), order_rows-count rs)

  rows-count :
      (runs : List DagRun) (models : List DagModel) (tis : List TaskInstance)
      → of_rows p (rows runs models tis) ≤ count p tis
  unfolding rows
  rows-count runs models [] = omega arith
  rows-count runs models (ti ∷ tis) = elim (Option-cases (join_row runs models ti)) [
    | inl gone ↦ rw (gone, rows) (omega (arith, rows-count runs models tis))
    | inr (row, found) ↦
        let same = (join_row-IsJoined runs models ti row found).1 in
        rw (found, rows)
          (omega (arith, ap {B = ℕ} (λ t. if p t then 1 else 0) same, rows-count runs models tis))
  ]

  select-count :
      (row_locked : TaskInstance → Bool) (n : ℕ) (db : Database) (s : Starved)
      → of_rows p (select row_locked n db s) ≤ count p db.task_instances
  unfolding select candidates
  select-count row_locked n db s =
      let all = rows db.dag_runs db.dag_models db.task_instances in
      let kept = filter (λ row. admits s row.ti) all in
      omega (
        arith,
        count-take-le (λ (row : Row). p row.ti) n
            (filter (λ row. not (row_locked row.ti)) (order_rows kept)),
        count-filter-le (λ (row : Row). p row.ti) (λ row. not (row_locked row.ti))
            (order_rows kept),
        order_rows-count kept,
        count-filter-le (λ (row : Row). p row.ti) (λ row. admits s row.ti) all,
        rows-count db.dag_runs db.dag_models db.task_instances,
      )

module _ (w : World) where
  Lost-orphan : (x y : TaskInstance) → Lost w x y → is_orphan w y ≡ false
  Lost-orphan x y lost = ap (λ (t : TaskInstance). is_orphan w t) lost.now_failed

  -- The loop makes no orphans.
  orphans-Changes :
      (xs ys : List TaskInstance)
      → Changes w xs ys
      → count (is_orphan w) ys ≤ count (is_orphan w) xs
  orphans-Changes [] [] h = omega arith
  orphans-Changes [] (y ∷ ys) h = absurd h
  orphans-Changes (x ∷ xs) [] h = absurd h
  orphans-Changes (x ∷ xs) (y ∷ ys) (inl same, rest) =
      omega
        (arith, ap {B = ℕ} (λ t. if is_orphan w t then 1 else 0) same, orphans-Changes xs ys rest)
  orphans-Changes (x ∷ xs) (y ∷ ys) (inr lost, rest) = omega (
    arith,
    ap {B = ℕ} (λ b. if b then 1 else 0) (Lost-orphan x y lost),
    orphans-Changes xs ys rest,
  )

  -- A query that returns orphans alone returns no more than the first table has.
  pub select-orphans :
      (db : Database) (s : Starved) (n : ℕ) (tis : List TaskInstance)
      → Changes w tis db.task_instances
      → All (λ (row : Row). is_orphan w row.ti ≡ true) (select w.row_locked n db s)
      → length (select w.row_locked n db s) ≤ count (is_orphan w) tis
  select-orphans db s n tis changed orphans = omega (
    arith,
    count-All (λ (row : Row). is_orphan w row.ti) (select w.row_locked n db s) orphans,
    select-count (is_orphan w) w.row_locked n db s,
    orphans-Changes tis db.task_instances changed,
  )

  -- A row of the first table is still there, or its DAG is missing.
  pub In-Changes :
      (ti : TaskInstance) (xs ys : List TaskInstance)
      → Changes w xs ys
      → In ti xs
      → In ti ys ⊎ (w.get_dag ti.dag_id ≡ none)
  In-Changes ti [] ys h m = absurd m
  In-Changes ti (x ∷ xs) [] h m = absurd h
  In-Changes ti (x ∷ xs) (y ∷ ys) (inl same, rest) (inl e) = inl (inl (e ∙ same))
  In-Changes ti (x ∷ xs) (y ∷ ys) (inr lost, rest) (inl e) =
      inr (ap (λ (t : TaskInstance). w.get_dag t.dag_id) e ∙ lost.no_dag)
  In-Changes ti (x ∷ xs) (y ∷ ys) (h, rest) (inr m) = elim (In-Changes ti xs ys rest m) [
    | inl there ↦ inl (inr there)
    | inr missing ↦ inr missing
  ]
