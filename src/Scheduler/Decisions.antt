-- ===== src/Scheduler/Decisions.antt =====
-- `_schedule_dag_run` and `_verify_integrity_if_dag_changed` of lambdas/scheduler/scheduler_job.py
-- (under src/python/beeflow).
pub mod TimedOut
use beeflow.Prelude.{
  ℕ, ◌-◌, Bool, true, false, not, ◌&&◌, Option, none, some, List, [], ◌∷◌, String, if◌then◌else◌,
  ltb, nat_beq, ◌==◌, string_eq, map,
}
use beeflow.Scheduler.Tables.{TaskInstance, TaskState, DagRun, DagModel, Dag, RunState}
use beeflow.Scheduler.Runs.{update_next_dagruns}

-- A run with its task instances' table and the model of its DAG.
pub record Examined : Type 0 where
  pub run : DagRun
  pub tis : List TaskInstance
  pub model : DagModel

pub record DagCallbackRequest : Type 0 where
  pub full_filepath : String
  pub dag_id : String
  pub run_id : String
  pub is_failure_callback : Bool
  pub processor_subdir : Option String
  pub msg : String

-- What `dag_run.update_state` returns and leaves.
pub record Updated : Type 0 where
  pub examined : Examined
  pub schedulable_tis : List TaskInstance
  pub callback : Option DagCallbackRequest

-- What these functions take from Airflow.
pub record Airflow : Type 0 where
  pub now : ℕ
  pub get_dag : String → Option Dag
  -- whether `State.unfinished` has a state; it has None too, which no row of a query matches
  pub is_unfinished : TaskState → Bool
  -- `SerializedDagModel.get_latest_version_hash`
  pub latest_version : String → Option String
  -- `dag.get_num_active_runs(only_running=False)`
  pub get_num_active_runs : Dag → Examined → ℕ
  -- `calculate_dagrun_date_fields`, for the data interval of the run
  pub calculate_dagrun_date_fields : Dag → DagRun → DagModel → DagModel
  pub verify_integrity : Examined → Examined
  pub update_state : Examined → Updated
  pub schedule_tis : List TaskInstance → Examined → Examined

-- The two conditions on the timeout; a timeout of no time counts as none.
abbrev pub has_timed_out : ℕ → Option ℕ → Option ℕ → Bool
has_timed_out now (some start) (some timeout) = not (nat_beq timeout 0) && ltb start (now - timeout)
has_timed_out now _ _ = false

-- `TI.state.in_(...)`, which does not hold of NULL.
abbrev pub is_in : (TaskState → Bool) → Option TaskState → Bool
is_in states none = false
is_in states (some state) = states state

abbrev pub is_unfinished_of : Airflow → DagRun → TaskInstance → Bool
is_unfinished_of a run ti =
    ti.dag_id == run.dag_id && ti.run_id == run.run_id && is_in a.is_unfinished ti.state

unfoldable pub skip_unfinished : Airflow → DagRun → List TaskInstance → List TaskInstance
skip_unfinished a run [] = []
skip_unfinished a run (ti ∷ tis) =
    (if is_unfinished_of a run ti then record ti { state = some TaskState.skipped } else ti)
    ∷ skip_unfinished a run tis

-- The model, once a run of the DAG has ended.
unfoldable pub allow_next_run : Airflow → Dag → Examined → Examined
unfolding update_next_dagruns
allow_next_run a dag s = record s {
  model =
      update_next_dagruns (a.calculate_dagrun_date_fields dag s.run) dag s.model
        (a.get_num_active_runs dag s);
}

-- The branch of a run that has timed out, up to the callback.
unfoldable pub time_out : Airflow → Dag → Examined → Examined
unfolding skip_unfinished allow_next_run
time_out a dag s = allow_next_run a dag (record s {
  run = record s.run { state = RunState.failed };
  tis = skip_unfinished a s.run s.tis;
})

abbrev pub timed_out_callback : Dag → Examined → DagCallbackRequest
timed_out_callback dag s = record {
  full_filepath = dag.fileloc;
  dag_id = dag.dag_id;
  run_id = s.run.run_id;
  is_failure_callback = true;
  processor_subdir = s.model.processor_subdir;
  msg = "timed_out";
}

-- `dag_run.dag_hash == latest_version`
abbrev pub same_hash : Option String → Option String → Bool
same_hash none none = true
same_hash (some h) (some latest) = h == latest
same_hash _ _ = false

-- `_verify_integrity_if_dag_changed`
unfoldable pub verify_integrity_if_dag_changed : Airflow → Examined → Examined
verify_integrity_if_dag_changed a s =
    if same_hash s.run.dag_hash (a.latest_version s.run.dag_id)
    then s
    else a.verify_integrity
        (record s { run = record s.run { dag_hash = a.latest_version s.run.dag_id } })

-- `dag_run.state in State.finished`
abbrev pub is_finished_run : RunState → Bool
is_finished_run RunState.success = true
is_finished_run RunState.failed = true
is_finished_run _ = false

-- The end of the function, after `update_state`.
unfoldable pub progress : Airflow → Dag → Updated → Examined × Option DagCallbackRequest
unfolding allow_next_run
progress a dag u =
    let s =
      if is_finished_run u.examined.run.state
      then allow_next_run a dag u.examined
      else u.examined in
    (a.schedule_tis u.schedulable_tis s, u.callback)

-- The body, for a DAG that is found.
unfoldable pub schedule_found : Airflow → Dag → Examined → Examined × Option DagCallbackRequest
unfolding time_out verify_integrity_if_dag_changed progress
schedule_found a dag s =
    if has_timed_out a.now s.run.start_date dag.dagrun_timeout
    then (time_out a dag s, some (timed_out_callback dag s))
    else if ltb a.now s.run.execution_date && not dag.allow_future_exec_dates
    then (s, none)
    else progress a dag (a.update_state (verify_integrity_if_dag_changed a s))

unfoldable pub schedule_at : Airflow → Option Dag → Examined → Examined × Option DagCallbackRequest
unfolding schedule_found
schedule_at a none s = (s, none)
schedule_at a (some dag) s = schedule_found a dag s

-- `_schedule_dag_run`: what it leaves, and the callback that it returns.
unfoldable pub schedule_dag_run : Airflow → Examined → Examined × Option DagCallbackRequest
unfolding schedule_at
schedule_dag_run a s = schedule_at a (a.get_dag s.run.dag_id) s
