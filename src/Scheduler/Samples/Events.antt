-- ===== src/Scheduler/Samples/Events.antt =====
-- Samples of the executor's events, the datasets and the callbacks of
-- lambdas/scheduler/scheduler_job.py (under src/python/beeflow).
use beeflow.Prelude.{
  ℕ, ◌+◌, ◌≡◌, refl, Bool, true, false, Option, none, some, List, [], ◌∷◌, String, if◌then◌else◌,
  ◌==◌, string_eq, length, count, All,
}
use beeflow.Prelude.Result.{ok}
use beeflow.Scheduler.Tables.{TaskState, TaskInstance, DagRun, Dag, RunState, RunType}
use beeflow.Scheduler.Query.{find_dag_model}
use beeflow.Scheduler.Samples.{etl, run, model, instance_of}
use beeflow.Scheduler.ExecutorEvents.{
  EventBuffer, ExecutorWorld, Processed, key_of, is_examined, tis_with_right_state,
  process_executor_events,
}
use beeflow.Scheduler.ExecutorEvents.Handled.{IsKeyed, HasModel, process_executor_events_total}
use beeflow.Scheduler.Runs.Datasets.{
  DatasetEvent, Datasets, Tables, DagInfo, create_dag_runs_dataset_triggered,
}
use beeflow.Scheduler.Runs.Datasets.Consumed.{MakesRuns, is_consistent}
use beeflow.Scheduler.Runs.Datasets.Kept.{create_dag_runs_dataset_triggered-is_consistent}
use beeflow.Scheduler.Decisions.{DagCallbackRequest}
use beeflow.Scheduler.Callbacks.{Callback, Callbacks, send_all}
use beeflow.Scheduler.Callbacks.Sent.{dag_requests, found_requests, send_all-requests}

abbrev pub executor : ExecutorWorld
executor = record {
  job_id = 7;
  row_locked = λ ti. false;
  has_task = λ ti. false;
  get_task = λ dag_id task_id. some true;
  handle_failure = λ report ti. ti;
}

abbrev killed : TaskInstance
killed = record (instance_of "load" 0 TaskState.queued) { queued_by_job_id = some 7 }

abbrev reported : EventBuffer
reported =
    (key_of killed 1, record { state = TaskState.failed; info = none })
    ∷ (
      key_of (instance_of "gone" 0 TaskState.queued) 1,
      record { state = TaskState.success; info = none },
    )
    ∷ []

abbrev rows : List TaskInstance
rows = killed ∷ instance_of "load" 1 TaskState.running ∷ []

rows-IsKeyed : IsKeyed rows
rows-IsKeyed = ((refl, tt), (tt, tt))

models_of_rows : All (HasModel (model ∷ [])) rows
unfolding find_dag_model
models_of_rows = ((λ e. cc), ((λ e. cc), tt))

process_executor_events_total_example :
    (n : ℕ) × (p : Processed) × (process_executor_events executor (model ∷ []) rows reported
      ≡ ok (n, p))
    × (n + count (is_examined executor (tis_with_right_state reported)) rows ≡ length reported)
process_executor_events_total_example =
    process_executor_events_total executor (model ∷ []) rows reported rows-IsKeyed models_of_rows

abbrev created : Dag → List DatasetEvent → RunType → ℕ → RunState → Option String → DagRun
created dag events type date state hash = record {
  dag_id = dag.dag_id;
  run_id = "dataset_triggered";
  execution_date = date;
  state = state;
  run_type = type;
  start_date = none;
  dag_hash = hash;
}

abbrev event_at : ℕ → DatasetEvent
event_at date = record {
  dataset_id = 1;
  timestamp = date;
  source_dag_id = "etl";
  source_run_id = "r1";
}

abbrev pub datasets : Datasets
datasets = record {
  get_dag = λ dag_id. some etl;
  dags_hash = λ dag_id. none;
  coerce_datetime = λ date. date;
  has_dataset_timetable = λ dag. true;
  is_source = λ e run. e.source_run_id == run.run_id;
  create_dagrun = created;
  dataset_events = event_at 12 ∷ event_at 20 ∷ [];
  references = record { dataset_id = 1; dag_id = "etl" } ∷ [];
}

-- A run at 15 has taken the first event.
abbrev first_run : DagRun
first_run = created etl [] RunType.dataset_triggered 15 RunState.queued none

abbrev taken : Tables
taken = record {
  dag_runs = run ∷ first_run ∷ [];
  consumed = record { dag_id = "etl"; execution_date = 15; events = event_at 12 ∷ [] } ∷ [];
  queue = record { dataset_id = 1; target_dag_id = "etl" } ∷ [];
}

abbrev info : DagInfo
info = ("etl", (20, 21)) ∷ []

-- The run at 21 takes the second.
abbrev taken_again : Tables
taken_again = record {
  dag_runs =
      run ∷ first_run ∷ created etl [] RunType.dataset_triggered 21 RunState.queued none ∷ [];
  consumed =
      record { dag_id = "etl"; execution_date = 21; events = event_at 20 ∷ [] }
      ∷ record { dag_id = "etl"; execution_date = 15; events = event_at 12 ∷ [] }
      ∷ [];
  queue = [];
}

second_run : create_dag_runs_dataset_triggered datasets (model ∷ []) info taken ≡ ok taken_again
unfolding create_dag_runs_dataset_triggered beeflow.Scheduler.Runs.Datasets.create_for_models
    beeflow.Scheduler.Runs.Datasets.create_for_model beeflow.Scheduler.Runs.Datasets.create_at
    beeflow.Scheduler.Runs.Datasets.create_unless beeflow.Scheduler.Runs.Datasets.create_run
    beeflow.Scheduler.Runs.Datasets.exec_dates beeflow.Scheduler.Runs.Datasets.previous_dag_run
    beeflow.Scheduler.Runs.Datasets.is_referenced beeflow.Scheduler.Runs.Datasets.has_source
    beeflow.Scheduler.Runs.among beeflow.Prelude.lookup
second_run = refl

created-MakesRuns : MakesRuns datasets
created-MakesRuns = record {
  made_dag = λ dag events type date state hash. refl;
  made_date = λ dag events type date state hash. refl;
  made_type = λ dag events type date state hash. refl;
}

create_dag_runs_dataset_triggered-is_consistent_example :
    (after : Tables) × (create_dag_runs_dataset_triggered datasets (model ∷ []) info taken
      ≡ ok after)
    × (is_consistent after.dag_runs after.consumed ≡ true)
unfolding beeflow.Scheduler.Runs.Datasets.exec_dates beeflow.Prelude.lookup
create_dag_runs_dataset_triggered-is_consistent_example =
    create_dag_runs_dataset_triggered-is_consistent datasets (model ∷ []) info taken
      created-MakesRuns refl (refl, tt)

abbrev pub callbacks : Callbacks
callbacks = record {
  check_slas = true;
  has_sla = λ dag. true;
  is_periodic = λ dag. true;
  get_dag = λ dag_id. if dag_id == "etl" then some etl else none;
}

abbrev failed_run : DagCallbackRequest
failed_run = record {
  full_filepath = "etl.py";
  dag_id = "etl";
  run_id = "r1";
  is_failure_callback = true;
  processor_subdir = none;
  msg = "timed_out";
}

abbrev tuples : List (DagRun × Option DagCallbackRequest)
tuples = (run, some failed_run) ∷ (record run { dag_id = "gone" }, some failed_run) ∷ []

send_all-requests_example :
    (sent : List Callback) × (send_all callbacks (model ∷ []) tuples ≡ ok sent)
    × (dag_requests sent ≡ found_requests callbacks tuples)
unfolding find_dag_model
send_all-requests_example = send_all-requests callbacks (model ∷ []) tuples (refl, (refl, tt))
