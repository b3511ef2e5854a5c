-- ===== src/Scheduler/Query/Facts.antt =====
-- What the rows of the query of `_executable_task_instances_to_queued` satisfy.
use beeflow.Prelude.{
  ℕ, ◌≡◌, refl, sym, ap, Bool, true, false, not, Option, none, some, List, [], ◌∷◌, string_eq,
  pair_eq, nat_eq, All, All-take, All-filter_test, All-imp, Bool-cases, inl, inr, Option-cases, In,
}
use beeflow.Scheduler.Tables.{TaskInstance, DagRun, DagModel, Database}
use beeflow.Scheduler.Query.{
  Row, Starved, find_dag_run, find_dag_model, runnable, join_with, join_row, rows, precedes,
  insert_row, order_rows, admits, candidates, select,
}
use beeflow.Prelude.{some_inj, not-eq-true}
use mathlib.Core.Path.{subst}

-- The filters of the query hold at a row, whose DAG is the one of its task instance.
pub record IsJoined (runs : List DagRun) (models : List DagModel) (row : Row) : Type 0 where
  pub run : DagRun
  pub found_run : find_dag_run runs row.ti ≡ some run
  pub found_model : find_dag_model models row.ti.dag_id ≡ some row.dag_model
  pub holds : runnable run row.dag_model row.ti ≡ true

join_with_inv :
    (found_run : Option DagRun) (found_model : Option DagModel) (ti : TaskInstance) (row : Row)
    → join_with found_run found_model ti ≡ some row
    → (run : DagRun) × (found_run ≡ some run)
      × (found_model ≡ some row.dag_model)
      × (runnable run row.dag_model row.ti ≡ true)
      × (row.ti ≡ ti)
unfolding join_with
join_with_inv none m ti row e = cc
join_with_inv (some run) none ti row e = cc
join_with_inv (some run) (some model) ti row e = elim (Bool-cases (runnable run model ti)) [
  | inl t ↦
      let row' : Row = record { ti = ti; execution_date = run.execution_date; dag_model = model } in
      let same : row' ≡ row = some_inj (rw t at e) in
      (
        run,
        refl,
        ap (λ (r : Row). some r.dag_model) same,
        subst (λ (r : Row). runnable run r.dag_model r.ti ≡ true) same t,
        sym (ap (λ (r : Row). r.ti) same),
      )
  | inr f ↦ cc (rw f at e)
]

module _ (runs : List DagRun) (models : List DagModel) where
  pub join_row-IsJoined :
      (ti : TaskInstance) (row : Row)
      → join_row runs models ti ≡ some row
      → IsJoined runs models row × (row.ti ≡ ti)
  unfolding join_row
  join_row-IsJoined ti row e =
      let (run, a, b, c, d) = join_with_inv _ _ ti row e in
      (record { run = run; found_run = rw d a; found_model = rw d b; holds = c }, d)

  rows-IsJoined :
      (tis : List TaskInstance)
      → All (λ row. IsJoined runs models row × In row.ti tis) (rows runs models tis)
  unfolding rows
  rows-IsJoined [] = tt
  rows-IsJoined (ti ∷ tis) =
      let later =
        All-imp (λ row. IsJoined runs models row × In row.ti tis)
          (λ row. IsJoined runs models row × In row.ti (ti ∷ tis)) (λ row h. (h.0, inr h.1))
          (rows runs models tis) (rows-IsJoined tis) in
      elim (Option-cases (join_row runs models ti)) [
        | inl gone ↦ rw (gone, rows) later
        | inr (row, found) ↦
            let (joined, same) = join_row-IsJoined ti row found in
            rw (found, rows) ((joined, inl same), later)
      ]

module _ {κ} (P : Row → Type κ) where
  insert_row-All : (r : Row) (rs : List Row) → P r → All P rs → All P (insert_row r rs)
  unfolding insert_row
  insert_row-All r [] p h = (p, tt)
  insert_row-All r (s ∷ rs) p h = elim (Bool-cases (precedes r s)) [
    | inl t ↦ rw (t, insert_row) (p, h)
    | inr f ↦ rw (f, insert_row) (h.0, insert_row-All r rs p h.1)
  ]

  order_rows-All : (rs : List Row) → All P rs → All P (order_rows rs)
  unfolding order_rows
  order_rows-All [] h = tt
  order_rows-All (r ∷ rs) h = insert_row-All r (order_rows rs) h.0 (order_rows-All rs h.1)

-- What the query promises of each row that it returns.
pub record IsSelected (row_locked : TaskInstance → Bool) (db : Database) (s : Starved) (row : Row)
    : Type 0 where
  pub joined : IsJoined db.dag_runs db.dag_models row
  pub occurs : In row.ti db.task_instances
  pub admitted : admits s row.ti ≡ true
  pub unlocked : row_locked row.ti ≡ false

pub select-IsSelected :
    (row_locked : TaskInstance → Bool) (max_tis : ℕ) (db : Database) (s : Starved)
    → All (IsSelected row_locked db s) (select row_locked max_tis db s)
unfolding select candidates
select-IsSelected row_locked max_tis db s = All-take _ max_tis _ (
    All-imp _ _
      (λ row (h, u). record {
        joined = h.0.0;
        occurs = h.0.1;
        admitted = h.1;
        unlocked = not-eq-true u;
      })
      _
      (All-filter_test _ (λ row. not (row_locked row.ti)) _
        (order_rows-All _ _
          (All-filter_test _ (λ row. admits s row.ti) _ (rows-IsJoined _ _ db.task_instances)))))
