-- ===== src/Scheduler/Query.antt =====
-- The query of `_executable_task_instances_to_queued`: scheduled task instances, joined with their
-- DAG run and DAG, of running runs of DAGs that are not paused, less what is starved, in order.
pub mod Facts
use beeflow.Prelude.{
  ℕ, Bool, not, ◌&&◌, ◌||◌, Option, none, some, List, [], ◌∷◌, String, if◌then◌else◌, leb, ◌==◌,
  string_eq, pair_eq, filter, take, contains,
}
use beeflow.Prelude.Int.{ltb_ℤ, leb_ℤ}
use beeflow.Scheduler.Tables.{
  TaskInstance, DagRun, DagModel, Database, task_of, is_scheduled, is_running_run, is_backfill,
}

-- A row of the join: the task instance with its run's execution date and its DAG.
pub record Row : Type 0 where
  pub ti : TaskInstance
  pub execution_date : ℕ
  pub dag_model : DagModel

unfoldable pub find_dag_run : List DagRun → TaskInstance → Option DagRun
find_dag_run [] ti = none
find_dag_run (r ∷ runs) ti =
    if r.dag_id == ti.dag_id && r.run_id == ti.run_id then some r else find_dag_run runs ti

unfoldable pub find_dag_model : List DagModel → String → Option DagModel
find_dag_model [] dag_id = none
find_dag_model (m ∷ models) dag_id =
    if m.dag_id == dag_id then some m else find_dag_model models dag_id

abbrev pub runnable : DagRun → DagModel → TaskInstance → Bool
runnable run model ti =
    not (is_backfill run.run_type)
    && is_running_run run.state
    && not model.is_paused
    && is_scheduled ti.state

-- The join of a task instance with its run and its DAG, and the filters on the three.
unfoldable pub join_with : Option DagRun → Option DagModel → TaskInstance → Option Row
join_with (some run) (some model) ti =
    if runnable run model ti
    then some (record { ti = ti; execution_date = run.execution_date; dag_model = model })
    else none
join_with _ _ ti = none

unfoldable pub join_row : List DagRun → List DagModel → TaskInstance → Option Row
unfolding join_with
join_row runs models ti = join_with (find_dag_run runs ti) (find_dag_model models ti.dag_id) ti

unfoldable pub rows : List DagRun → List DagModel → List TaskInstance → List Row
rows runs models [] = []
rows runs models (ti ∷ tis) = elim (join_row runs models ti) [
  | none ↦ rows runs models tis
  | some row ↦ row ∷ rows runs models tis
]

-- `order_by(-TI.priority_weight, DR.execution_date)`
unfoldable pub precedes : Row → Row → Bool
precedes a b =
    ltb_ℤ b.ti.priority_weight a.ti.priority_weight
    || (leb_ℤ b.ti.priority_weight a.ti.priority_weight && leb a.execution_date b.execution_date)

unfoldable pub insert_row : Row → List Row → List Row
insert_row r [] = r ∷ []
insert_row r (s ∷ rs) = if precedes r s then r ∷ s ∷ rs else s ∷ insert_row r rs

unfoldable pub order_rows : List Row → List Row
unfolding insert_row
order_rows [] = []
order_rows (r ∷ rs) = insert_row r (order_rows rs)

-- What the loop has found to be starved so far. The three sets only grow.
pub record Starved : Type 0 where
  pub pools : List String
  pub dags : List String
  pub tasks : List (String × String)

unfoldable pub admits : Starved → TaskInstance → Bool
admits s ti =
    not (contains ti.pool s.pools)
    && not (contains ti.dag_id s.dags)
    && not (contains (task_of ti) s.tasks)

-- The rows that the filters leave, before the order, the row locks and the limit.
unfoldable pub candidates : Database → Starved → List Row
candidates db s = filter (λ row. admits s row.ti) (rows db.dag_runs db.dag_models db.task_instances)

-- `.limit(max_tis)` under `SKIP LOCKED`: rows that another session holds are passed over.
unfoldable pub select : (TaskInstance → Bool) → ℕ → Database → Starved → List Row
select row_locked max_tis db s =
    take max_tis (filter (λ row. not (row_locked row.ti)) (order_rows (candidates db s)))
