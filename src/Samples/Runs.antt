-- ===== src/Samples/Runs.antt =====
-- Samples of the DAG runs and the checks of lambdas/scheduler/scheduler_job.py (under
-- src/python/beeflow).
use beeflow.Prelude.{
  ℕ, ◌-◌, ◌≡◌, refl, min, max, Bool, true, false, Option, none, some, List, [], ◌∷◌, String,
  if◌then◌else◌, ◌==◌, string_eq, count, arith,
}
use beeflow.Prelude.Int.{pos}
use text.Mathlib.TextEquality.{eq_iff}
use beeflow.Scheduler.Tables.{TaskState, TaskInstance, DagRun, DagModel, Dag, RunState, RunType}
use beeflow.Scheduler.Runs as Runs
use beeflow.Scheduler.Runs.Start.{started, start_queued_dagruns-started}
use beeflow.Scheduler.Runs.Create.{runs_at, wanted_at, IsKeyed, create_dag_runs-runs_at}
use beeflow.Scheduler.Upkeep.{check_trigger_timeouts}
use beeflow.Scheduler.Upkeep.Settled.{Updates, check_trigger_timeouts_lem}
use beeflow.Scheduler.Decisions as Decisions

abbrev etl : Dag
etl = record {
  dag_id = "etl";
  tasks = [];
  max_active_runs = 2;
  dagrun_timeout = some 50;
  allow_future_exec_dates = false;
  fileloc = "etl.py";
}

abbrev find : String → Option Dag
find dag_id = if dag_id == "etl" then some etl else none

abbrev made : Dag → RunType → ℕ → RunState → Option String → DagRun
made dag type date state hash = record {
  dag_id = dag.dag_id;
  run_id = "scheduled";
  execution_date = date;
  state = state;
  run_type = type;
  start_date = none;
  dag_hash = hash;
}

abbrev airflow : Runs.Airflow
airflow = record {
  now = 100;
  get_dag = find;
  dags_hash = λ dag_id. none;
  active_runs_of_dags = λ runs dag_id. count (λ run. run.dag_id == dag_id) runs;
  running_runs_of_dags = λ runs dag_id. 1;
  create_dagrun = made;
  calculate_dagrun_date_fields = λ dag model. model;
}

abbrev queued_at : ℕ → DagRun
queued_at date = made etl RunType.scheduled date RunState.queued none

-- One run is running, so one of these two is started.
start_queued_dagruns-started_example :
    started "etl" (Runs.start_queued_dagruns airflow (queued_at 1 ∷ queued_at 2 ∷ []))
    ≡ min 2 (2 - 1)
start_queued_dagruns-started_example =
    start_queued_dagruns-started airflow (queued_at 1 ∷ queued_at 2 ∷ []) "etl" etl
      (refl, (refl, tt)) refl (omega arith)

found_keyed : (dag_id : String) (dag : Dag) → find dag_id ≡ some dag → dag.dag_id ≡ dag_id
found_keyed dag_id dag h = ground (arith, eq_iff dag_id "etl")

airflow-IsKeyed : IsKeyed airflow
airflow-IsKeyed = record { dag_keyed = found_keyed; run_keyed = λ dag type date state hash. refl }

abbrev model_at : ℕ → DagModel
model_at date = record {
  dag_id = "etl";
  is_paused = false;
  is_active = true;
  max_active_tasks = 3;
  has_task_concurrency_limits = true;
  next_dagrun = date;
  next_dagrun_create_after = some date;
  last_parsed_time = 5;
  fileloc = "etl.py";
  processor_subdir = none;
}

create_dag_runs-runs_at_example :
    runs_at "etl" 2 (Runs.create_dag_runs airflow (model_at 2 ∷ []) (queued_at 1 ∷ [])).dag_runs
    ≡ max (runs_at "etl" 2 (queued_at 1 ∷ [])) (wanted_at "etl" 2 (model_at 2 ∷ []))
create_dag_runs-runs_at_example =
    create_dag_runs-runs_at airflow (model_at 2 ∷ []) (queued_at 1 ∷ []) "etl" 2 etl airflow-IsKeyed
      refl (omega arith)

abbrev task_in : TaskState → TaskInstance
task_in state = record {
  dag_id = "etl";
  task_id = "load";
  run_id = "scheduled";
  map_index = pos 0;
  state = some state;
  pool = "default_pool";
  pool_slots = 1;
  priority_weight = pos 1;
  try_number = 1;
  queued_dttm = none;
  queued_by_job_id = none;
  external_executor_id = none;
  job_id = none;
  trigger_timeout = some 30;
  trigger_id = some 4;
  next_method = none;
  next_kwargs = [];
  hostname = "";
}

abbrev tasks : List TaskInstance
tasks = task_in TaskState.deferred ∷ task_in TaskState.running ∷ []

check_trigger_timeouts_lem_example :
    Updates 100 tasks (check_trigger_timeouts 100 tasks).0 (check_trigger_timeouts 100 tasks).1
    × (check_trigger_timeouts 100 (check_trigger_timeouts 100 tasks).1
        ≡ (0, (check_trigger_timeouts 100 tasks).1))
check_trigger_timeouts_lem_example = check_trigger_timeouts_lem 100 tasks

abbrev unfinished : TaskState → Bool
unfinished TaskState.skipped = false
unfinished _ = true

abbrev decides : Decisions.Airflow
decides = record {
  now = 100;
  get_dag = find;
  is_unfinished = unfinished;
  latest_version = λ dag_id. none;
  get_num_active_runs = λ dag s. 0;
  calculate_dagrun_date_fields = λ dag run model. model;
  verify_integrity = λ s. s;
  update_state = λ s. record { examined = s; schedulable_tis = []; callback = none };
  schedule_tis = λ tis s. s;
}

abbrev late : Decisions.Examined
late = record {
  run = record (queued_at 1) { state = RunState.running; start_date = some 2 };
  tis = tasks;
  model = model_at 2;
}
