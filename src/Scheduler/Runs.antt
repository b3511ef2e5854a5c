-- ===== src/Scheduler/Runs.antt =====
-- DAG runs in lambdas/scheduler/scheduler_job.py (under src/python/beeflow): `_create_dag_runs`,
-- `_should_update_dag_next_dagruns` and `_start_queued_dagruns`.
pub mod Start
pub mod Create
pub mod Datasets
use beeflow.Prelude.{
  ℕ, ◌+◌, Bool, not, ◌&&◌, ◌||◌, Option, none, some, List, [], ◌∷◌, ◌++◌, String, if◌then◌else◌,
  leb, nat_beq, ◌==◌, string_eq, nat_eq, update, filter, map,
}
use beeflow.Scheduler.Tables.{DagRun, DagModel, Dag, RunState, RunType}

-- What these functions take from Airflow.
pub record Airflow : Type 0 where
  pub now : ℕ
  -- `DagBag.get_dag` and `DagBag.dags_hash`
  pub get_dag : String → Option Dag
  pub dags_hash : String → Option String
  -- `DagRun.active_runs_of_dags`, without and with `only_running`
  pub active_runs_of_dags : List DagRun → String → ℕ
  pub running_runs_of_dags : List DagRun → String → ℕ
  -- `dag.create_dagrun`, with its run type, execution date, state and hash
  pub create_dagrun : Dag → RunType → ℕ → RunState → Option String → DagRun
  -- `DagModel.calculate_dagrun_date_fields`, for the DAG's next data interval
  pub calculate_dagrun_date_fields : Dag → DagModel → DagModel

-- `_should_update_dag_next_dagruns`, and the update of the model that depends on it.
unfoldable pub update_next_dagruns : (DagModel → DagModel) → Dag → DagModel → ℕ → DagModel
update_next_dagruns calculate_dagrun_date_fields dag model total_active_runs =
    if leb dag.max_active_runs total_active_runs
    then record model { next_dagrun_create_after = none }
    else calculate_dagrun_date_fields model

abbrev pub is_at : String → ℕ → String × ℕ → Bool
is_at dag_id date key = key.0 == dag_id && key.1 == date

-- `(dag_id, date) in keys`
unfoldable pub among : String → ℕ → List (String × ℕ) → Bool
among dag_id date [] = Bool.false
among dag_id date (key ∷ keys) = is_at dag_id date key || among dag_id date keys

abbrev pub key_of : DagRun → String × ℕ
key_of run = (run.dag_id, run.execution_date)

-- `existing_dagruns`
unfoldable pub existing_dagruns : List DagModel → List DagRun → List (String × ℕ)
unfolding among
existing_dagruns models runs =
    let wanted = map (λ (m : DagModel). (m.dag_id, m.next_dagrun)) models in
    filter (λ (key : String × ℕ). among key.0 key.1 wanted) (map key_of runs)

-- The rows, and the variables of the loop of `_create_dag_runs`.
pub record Creation : Type 0 where
  pub dag_runs : List DagRun
  pub dag_models : List DagModel
  pub active_runs : String → ℕ

-- The creation of a run, unless there is one.
unfoldable pub create_missing : Airflow → List (String × ℕ) → Dag → DagModel → Creation → Creation
create_missing a existing dag model s =
    if among dag.dag_id model.next_dagrun existing then s else record s {
      dag_runs =
          s.dag_runs
          ++ a.create_dagrun dag RunType.scheduled model.next_dagrun RunState.queued
              (a.dags_hash dag.dag_id)
            ∷ [];
      active_runs = update s.active_runs dag.dag_id (s.active_runs dag.dag_id + 1);
    }

-- The end of the loop's body.
unfoldable pub keep_model : Airflow → Dag → DagModel → Creation → Creation
unfolding update_next_dagruns
keep_model a dag model s = record s {
  dag_models =
      s.dag_models
      ++ update_next_dagruns (a.calculate_dagrun_date_fields dag) dag model
          (s.active_runs dag.dag_id)
        ∷ [];
}

-- The loop's body, once the DAG has been looked up.
unfoldable pub create_for :
    Airflow → List (String × ℕ) → Option Dag → DagModel → Creation → Creation
unfolding create_missing keep_model
create_for a existing none model s = record s { dag_models = s.dag_models ++ model ∷ [] }
create_for a existing (some dag) model s =
    keep_model a dag model (create_missing a existing dag model s)

unfoldable pub create_all : Airflow → List (String × ℕ) → List DagModel → Creation → Creation
unfolding create_for
create_all a existing [] s = s
create_all a existing (model ∷ models) s =
    create_all a existing models (create_for a existing (a.get_dag model.dag_id) model s)

-- `_create_dag_runs`: the rows after it, the models in their order.
unfoldable pub create_dag_runs : Airflow → List DagModel → List DagRun → Creation
unfolding create_all existing_dagruns
create_dag_runs a models runs =
    create_all a (existing_dagruns models runs) models
      (record { dag_runs = runs; dag_models = []; active_runs = a.active_runs_of_dags runs })

-- `_update_state`, less the metric.
abbrev pub update_state : Airflow → DagRun → DagRun
update_state a run = record run { state = RunState.running; start_date = some a.now }

-- `dag.max_active_runs and active_runs >= dag.max_active_runs`
abbrev pub is_full : Dag → ℕ → Bool
is_full dag active_runs = not (nat_beq dag.max_active_runs 0) && leb dag.max_active_runs active_runs

-- The loop's body of `_start_queued_dagruns`: the run after it, and the counts.
unfoldable pub start_run : Airflow → Option Dag → DagRun → (String → ℕ) → DagRun × (String → ℕ)
start_run a none run active = (run, active)
start_run a (some dag) run active =
    if is_full dag (active run.dag_id)
    then (run, active)
    else (update_state a run, update active run.dag_id (active run.dag_id + 1))

unfoldable pub start_runs : Airflow → List DagRun → (String → ℕ) → List DagRun
unfolding start_run
start_runs a [] active = []
start_runs a (run ∷ runs) active =
    let (run', active') = start_run a (a.get_dag run.dag_id) run active in
    run' ∷ start_runs a runs active'

-- `_start_queued_dagruns`, for the runs that `_get_next_dagruns_to_examine` returned.
unfoldable pub start_queued_dagruns : Airflow → List DagRun → List DagRun
unfolding start_runs
start_queued_dagruns a runs = start_runs a runs (a.running_runs_of_dags runs)
