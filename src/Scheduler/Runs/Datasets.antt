-- ===== src/Scheduler/Runs/Datasets.antt =====
-- `_create_dag_runs_dataset_triggered` of lambdas/scheduler/scheduler_job.py (under
-- src/python/beeflow).
pub mod Consumed
pub mod Kept
use beeflow.Prelude.{
  ℕ, Bool, true, false, not, ◌&&◌, ◌||◌, Option, none, some, List, [], ◌∷◌, ◌++◌, String,
  if◌then◌else◌, ltb, leb, nat_beq, ◌==◌, string_eq, nat_eq, lookup, filter, map,
}
use beeflow.Prelude.Result.{Result, ok, err, ◌>>=◌}
use beeflow.Scheduler.Tables.{DagRun, DagModel, Dag, RunState, RunType}
use beeflow.Scheduler.Runs.{among, key_of}

pub record DatasetEvent : Type 0 where
  pub dataset_id : ℕ
  pub timestamp : ℕ
  pub source_dag_id : String
  pub source_run_id : String

-- A row of DagScheduleDatasetReference, and one of DatasetDagRunQueue.
pub record DatasetReference : Type 0 where
  pub dataset_id : ℕ
  pub dag_id : String

pub record QueueRow : Type 0 where
  pub dataset_id : ℕ
  pub target_dag_id : String

-- The rows of `consumed_dataset_events` of one run.
pub record Consumption : Type 0 where
  pub dag_id : String
  pub execution_date : ℕ
  pub events : List DatasetEvent

-- What the function takes from Airflow, and the tables that it only reads.
pub record Datasets : Type 0 where
  pub get_dag : String → Option Dag
  pub dags_hash : String → Option String
  pub coerce_datetime : ℕ → ℕ
  -- `isinstance(dag.timetable, DatasetTriggeredTimetable)`
  pub has_dataset_timetable : Dag → Bool
  -- `.join(DatasetEvent.source_dag_run)`: whether the run is the event's source
  pub is_source : DatasetEvent → DagRun → Bool
  -- `dag.create_dagrun`; the timetable makes the run's id and interval of the date and the events
  pub create_dagrun : Dag → List DatasetEvent → RunType → ℕ → RunState → Option String → DagRun
  pub dataset_events : List DatasetEvent
  pub references : List DatasetReference

-- What the function writes; the newest consumption first.
pub record Tables : Type 0 where
  pub dag_runs : List DagRun
  pub consumed : List Consumption
  pub queue : List QueueRow

-- `dataset_triggered_dag_info`: the first and the last time of each DAG's queue.
abbrev pub DagInfo : Type 0
DagInfo = List (String × (ℕ × ℕ))

-- `exec_dates`
unfoldable pub exec_dates : Datasets → DagInfo → List (String × ℕ)
exec_dates d [] = []
exec_dates d ((dag_id, times) ∷ info) = (dag_id, d.coerce_datetime times.1) ∷ exec_dates d info

abbrev pub existing_keys : List (String × ℕ) → List DagRun → List (String × ℕ)
existing_keys wanted runs =
    filter (λ (key : String × ℕ). among key.0 key.1 wanted) (map key_of runs)

abbrev pub is_dataset_triggered : RunType → Bool
is_dataset_triggered RunType.dataset_triggered = true
is_dataset_triggered _ = false

abbrev pub is_earlier : String → ℕ → DagRun → Bool
is_earlier dag_id exec_date run =
    run.dag_id == dag_id && ltb run.execution_date exec_date && is_dataset_triggered run.run_type

abbrev pub later_run : DagRun → Option DagRun → DagRun
later_run run none = run
later_run run (some other) = if ltb run.execution_date other.execution_date then other else run

-- `previous_dag_run`
unfoldable pub previous_dag_run : String → ℕ → List DagRun → Option DagRun
previous_dag_run dag_id exec_date [] = none
previous_dag_run dag_id exec_date (run ∷ runs) =
    let rest = previous_dag_run dag_id exec_date runs in
    if is_earlier dag_id exec_date run then some (later_run run rest) else rest

-- `DatasetEvent.timestamp > previous_dag_run.execution_date`, where there is one.
abbrev pub is_after : Option DagRun → DatasetEvent → Bool
is_after none e = true
is_after (some run) e = ltb run.execution_date e.timestamp

unfoldable pub is_referenced : String → DatasetEvent → List DatasetReference → Bool
is_referenced dag_id e [] = false
is_referenced dag_id e (r ∷ references) =
    (r.dag_id == dag_id && r.dataset_id == e.dataset_id) || is_referenced dag_id e references

unfoldable pub has_source : Datasets → DatasetEvent → List DagRun → Bool
has_source d e [] = false
has_source d e (run ∷ runs) = d.is_source e run || has_source d e runs

-- `dataset_event_filters` and the joins.
abbrev pub is_selected : Datasets → String → ℕ → List DagRun → DatasetEvent → Bool
is_selected d dag_id exec_date runs e =
    leb e.timestamp exec_date
    && is_after (previous_dag_run dag_id exec_date runs) e
    && is_referenced dag_id e d.references
    && has_source d e runs

abbrev pub events_for : Datasets → String → ℕ → List DagRun → List DatasetEvent
events_for d dag_id exec_date runs = filter (is_selected d dag_id exec_date runs) d.dataset_events

-- The body of the loop, for a DAG that has no run at the date.
unfoldable pub create_run : Datasets → Dag → ℕ → Tables → Tables
create_run d dag exec_date s =
    let events = events_for d dag.dag_id exec_date s.dag_runs in
    let run =
      d.create_dagrun dag events RunType.dataset_triggered exec_date RunState.queued
        (d.dags_hash dag.dag_id) in
    record {
      dag_runs = s.dag_runs ++ run ∷ [];
      consumed =
          record { dag_id = run.dag_id; execution_date = run.execution_date; events = events }
          ∷ s.consumed;
      queue = filter (λ (row : QueueRow). not (row.target_dag_id == run.dag_id)) s.queue;
    }

unfoldable pub create_unless : Datasets → List (String × ℕ) → Dag → ℕ → Tables → Tables
unfolding create_run
create_unless d existing dag exec_date s =
    if among dag.dag_id exec_date existing then s else create_run d dag exec_date s

pub data DatasetError : Type 0 where
  key_error : DatasetError

-- The dates' entry `exec_dates[dag.dag_id]`, and the run at it.
unfoldable pub create_at :
    Datasets → List (String × ℕ) → Dag → Option ℕ → Tables → Result DatasetError Tables
unfolding create_unless
create_at d existing dag none s = err key_error
create_at d existing dag (some exec_date) s = ok (create_unless d existing dag exec_date s)

unfoldable pub create_for_model :
    Datasets
    → List (String × ℕ)
    → List (String × ℕ)
    → Option Dag
    → Tables
    → Result DatasetError Tables
unfolding create_at
create_for_model d dates existing none s = ok s
create_for_model d dates existing (some dag) s =
    if d.has_dataset_timetable dag
    then create_at d existing dag (lookup dag.dag_id dates) s
    else ok s

unfoldable pub create_for_models :
    Datasets
    → List (String × ℕ)
    → List (String × ℕ)
    → List DagModel
    → Tables
    → Result DatasetError Tables
unfolding create_for_model
create_for_models d dates existing [] s = ok s
create_for_models d dates existing (model ∷ models) s = do
  next ← create_for_model d dates existing (d.get_dag model.dag_id) s
  create_for_models d dates existing models next

-- `_create_dag_runs_dataset_triggered`
unfoldable pub create_dag_runs_dataset_triggered :
    Datasets → List DagModel → DagInfo → Tables → Result DatasetError Tables
unfolding create_for_models exec_dates
create_dag_runs_dataset_triggered d models info s =
    let dates = exec_dates d info in
    create_for_models d dates (existing_keys dates s.dag_runs) models s
