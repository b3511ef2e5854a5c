-- ===== src/Scheduler/CriticalSection/Progress/Queried.antt =====
-- The query of `_executable_task_instances_to_queued` (lambdas/scheduler/scheduler_job.py, under
-- src/python/beeflow) leaves out nothing but what its filters say, unless it comes to its limit.
use beeflow.Prelude.{
  ℕ, zero, suc, ◌<◌, ◌≡◌, refl, sym, ap, ◌∙◌, Bool, true, false, not, some, List, [], ◌∷◌, arith,
  string_eq, pair_eq, nat_eq, length, take, filter, In, Bool-cases, Option-cases, inl, inr,
}
use mathlib.Core.Path.{subst}
use beeflow.Scheduler.Tables.{TaskInstance, DagRun, DagModel, Database}
use beeflow.Scheduler.Query.{
  Row, Starved, find_dag_run, find_dag_model, runnable, join_with, join_row, rows, precedes,
  insert_row, order_rows, admits, candidates, select,
}

module _ {A : Type 0} where
  In-filter : (p : A → Bool) (x : A) (xs : List A) → In x xs → p x ≡ true → In x (filter p xs)
  In-filter p x [] m h = m
  In-filter p x (y ∷ ys) (inl e) h = let passes : p y ≡ true = ap p (sym e) ∙ h in rw passes (inl e)
  In-filter p x (y ∷ ys) (inr m) h = elim (Bool-cases (p y)) [
    | inl t ↦ rw t (inr (In-filter p x ys m h))
    | inr f ↦ rw f (In-filter p x ys m h)
  ]

  take-all : (n : ℕ) (xs : List A) → length (take n xs) < n → take n xs ≡ xs
  take-all zero xs h = absurd (omega (arith, h))
  take-all (suc n) [] h = refl
  take-all (suc n) (x ∷ xs) h = ap (λ ys. x ∷ ys) (take-all n xs (omega (arith, h)))

insert_row-In : (row r : Row) (rs : List Row) → In row (r ∷ rs) → In row (insert_row r rs)
unfolding insert_row
insert_row-In row r [] m = m
insert_row-In row r (s ∷ rs) m = elim (Bool-cases (precedes r s)) [
  | inl t ↦ rw (t, insert_row) m
  | inr f ↦
      rw (f, insert_row)
        (elim m [
          | inl e ↦ inr (insert_row-In row r rs (inl e))
          | inr later ↦ elim later [
            | inl e ↦ inl e
            | inr deeper ↦ inr (insert_row-In row r rs (inr deeper))
          ]
        ])
]

order_rows-In : (row : Row) (rs : List Row) → In row rs → In row (order_rows rs)
unfolding order_rows
order_rows-In row [] m = m
order_rows-In row (r ∷ rs) (inl e) = insert_row-In row r (order_rows rs) (inl e)
order_rows-In row (r ∷ rs) (inr m) =
    insert_row-In row r (order_rows rs) (inr (order_rows-In row rs m))

module _ (runs : List DagRun) (models : List DagModel) where
  -- The row of a task instance whose run and DAG pass the filters.
  pub join_row-found :
      (ti : TaskInstance) (run : DagRun) (model : DagModel)
      → find_dag_run runs ti ≡ some run
      → find_dag_model models ti.dag_id ≡ some model
      → runnable run model ti ≡ true
      → join_row runs models ti
        ≡ some (record { ti = ti; execution_date = run.execution_date; dag_model = model })
  unfolding join_row join_with
  join_row-found ti run model found_run found_model holds =
      rw (found_run, found_model, join_with, holds) refl

  rows-In :
      (ti : TaskInstance) (row : Row) (tis : List TaskInstance)
      → join_row runs models ti ≡ some row
      → In ti tis
      → In row (rows runs models tis)
  unfolding rows
  rows-In ti row [] joined m = absurd m
  rows-In ti row (t ∷ tis) joined (inl e) =
      let here : join_row runs models t ≡ some row = ap (join_row runs models) (sym e) ∙ joined in
      rw (here, rows) (inl refl)
  rows-In ti row (t ∷ tis) joined (inr m) = elim (Option-cases (join_row runs models t)) [
    | inl gone ↦ rw (gone, rows) (rows-In ti row tis joined m)
    | inr (other, found) ↦ rw (found, rows) (inr (rows-In ti row tis joined m))
  ]

-- A query that returns fewer rows than its limit returns every row that passes its filters.
pub select-In :
    (row_locked : TaskInstance → Bool) (max_tis : ℕ) (db : Database) (s : Starved)
    (ti : TaskInstance) (row : Row)
    → length (select row_locked max_tis db s) < max_tis
    → join_row db.dag_runs db.dag_models ti ≡ some row
    → In ti db.task_instances
    → admits s row.ti ≡ true
    → row_locked row.ti ≡ false
    → In row (select row_locked max_tis db s)
unfolding select candidates
select-In row_locked max_tis db s ti row few joined listed admitted unlocked =
    let all = rows db.dag_runs db.dag_models db.task_instances in
    let kept = filter (λ r. admits s r.ti) all in
    let free = filter (λ r. not (row_locked r.ti)) (order_rows kept) in
    subst (In row) (sym (take-all max_tis free few)) (
      In-filter (λ r. not (row_locked r.ti)) row (order_rows kept)
        (order_rows-In row kept (
          In-filter (λ r. admits s r.ti) row all
            (rows-In db.dag_runs db.dag_models ti row db.task_instances joined listed) admitted))
        (ap not unlocked))
