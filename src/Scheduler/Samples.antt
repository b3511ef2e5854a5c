-- ===== src/Scheduler/Samples.antt =====
-- A small database, and the critical section of lambdas/scheduler/scheduler_job.py (under
-- src/python/beeflow) at work on it.
mod Events
mod Turns
mod Capacity
mod Progress
use beeflow.Prelude.{
  ℕ, ◌≡◌, refl, ◌≤◌, ◌+◌, Bool, true, false, ◌||◌, ◌⊎◌, Option, none, some, List, [], ◌∷◌, String,
  if◌then◌else◌, ◌==◌, string_eq, length, All,
}
use beeflow.Prelude.Int.{pos}
use beeflow.Prelude.Result.{Result, ok}
use beeflow.Scheduler.Tables.{
  TaskState, TaskInstance, DagRun, DagModel, Dag, Database, RunState, RunType, is_queued,
  is_running,
}
use beeflow.Scheduler.World.{World, Error}
use beeflow.Scheduler.Query.{find_dag_model}
use beeflow.Scheduler.Concurrency.{get_concurrency_maps}
use beeflow.Scheduler.Concurrency.Counts.{
  active_of_dag, active_of_task, get_concurrency_maps_counts,
}
use beeflow.Scheduler.Examine.{task_concurrency_limit}
use beeflow.Scheduler.Examine.Limits.{of_dag, of_task}
use beeflow.Scheduler.CriticalSection.{
  Gauge, Outcome, pool_slots_free, executable_task_instances_to_queued, mark_queued,
}
use beeflow.Scheduler.CriticalSection.Slots.{used, open_of}
use beeflow.Scheduler.CriticalSection.Effect.{IsEligible, chosen-IsEligible}
use beeflow.Scheduler.CriticalSection.Bounds.{
  chosen_within_pool, chosen_within_dag, chosen_within_task, length-chosen-le,
}
use beeflow.Scheduler.CriticalSection.Termination.{executable_task_instances_to_queued_total}

abbrev pub etl : Dag
etl = record {
  dag_id = "etl";
  tasks = ("load", some 2) ∷ ("extract", none) ∷ [];
  max_active_runs = 2;
  dagrun_timeout = some 50;
  allow_future_exec_dates = false;
  fileloc = "etl.py";
}

abbrev active : Option TaskState → Bool
active state = is_queued state || is_running state

abbrev pub world : World
world = record {
  job_id = 7;
  now = 100;
  is_postgresql = true;
  lock_acquired = true;
  pools_locked = false;
  row_locked = λ ti. false;
  slots_stats = λ db. ("default_pool", record { total = 3; open_slots = pos 2 }) ∷ [];
  get_dag = λ dag_id. if dag_id == "etl" then some etl else none;
  in_execution_states = active;
}

abbrev pub instance_of : String → ℕ → TaskState → TaskInstance
instance_of task_id map_index state = record {
  dag_id = "etl";
  task_id = task_id;
  run_id = "r1";
  map_index = pos map_index;
  state = some state;
  pool = "default_pool";
  pool_slots = 1;
  priority_weight = pos 1;
  try_number = 1;
  queued_dttm = none;
  queued_by_job_id = none;
  external_executor_id = none;
  job_id = none;
  trigger_timeout = none;
  trigger_id = none;
  next_method = none;
  next_kwargs = [];
  hostname = "";
}

abbrev pub run : DagRun
run = record {
  dag_id = "etl";
  run_id = "r1";
  execution_date = 10;
  state = RunState.running;
  run_type = RunType.scheduled;
  start_date = some 11;
  dag_hash = none;
}

abbrev pub model : DagModel
model = record {
  dag_id = "etl";
  is_paused = false;
  is_active = true;
  max_active_tasks = 3;
  has_task_concurrency_limits = true;
  next_dagrun = 20;
  next_dagrun_create_after = some 30;
  last_parsed_time = 5;
  fileloc = "etl.py";
  processor_subdir = none;
}

-- One `load` runs, of at most two; the second of the others has to wait.
abbrev pub db : Database
db = record {
  task_instances =
      instance_of "load" 0 TaskState.running
      ∷ instance_of "load" 1 TaskState.scheduled
      ∷ instance_of "load" 2 TaskState.scheduled
      ∷ instance_of "extract" 0 TaskState.scheduled
      ∷ [];
  dag_runs = run ∷ [];
  dag_models = model ∷ [];
}

abbrev queued_now : TaskInstance → TaskInstance
queued_now ti = record ti {
  state = some TaskState.queued;
  queued_dttm = some 100;
  queued_by_job_id = some 7;
}

abbrev pub outcome : Outcome
outcome = record {
  chosen = instance_of "load" 1 TaskState.scheduled ∷ [];
  db = record db {
    task_instances =
        instance_of "load" 0 TaskState.running
        ∷ queued_now (instance_of "load" 1 TaskState.scheduled)
        ∷ instance_of "load" 2 TaskState.scheduled
        ∷ instance_of "extract" 0 TaskState.scheduled
        ∷ [];
  };
  gauges =
      Gauge.pool_starving_tasks "default_pool" 0
      ∷ Gauge.tasks_starving 0
      ∷ Gauge.tasks_running 0
      ∷ Gauge.tasks_executable 1
      ∷ [];
}

pub outcome_of_db : executable_task_instances_to_queued world 5 db ≡ some (ok outcome)
unfolding executable_task_instances_to_queued beeflow.Scheduler.CriticalSection.loop
    beeflow.Scheduler.Query.select beeflow.Scheduler.Query.order_rows
    beeflow.Scheduler.Query.candidates beeflow.Scheduler.Query.rows beeflow.Scheduler.Query.join_row
    beeflow.Scheduler.Query.find_dag_run find_dag_model beeflow.Scheduler.Query.admits
    beeflow.Prelude.contains beeflow.Scheduler.Query.precedes beeflow.Scheduler.Examine.examine_all
    beeflow.Prelude.lookup get_concurrency_maps beeflow.Prelude.update beeflow.Prelude.insert
    beeflow.Prelude.add beeflow.Scheduler.Concurrency.bump_group
    beeflow.Scheduler.Concurrency.group_by_task beeflow.Scheduler.Concurrency.set_tasks
    beeflow.Scheduler.Concurrency.sum_dags beeflow.Scheduler.CriticalSection.finish
    beeflow.Scheduler.CriticalSection.finish_loop
    beeflow.Scheduler.CriticalSection.found_new_filters beeflow.Scheduler.CriticalSection.full_pools
    beeflow.Scheduler.CriticalSection.is_among beeflow.Scheduler.CriticalSection.is_finished
    mark_queued pool_slots_free beeflow.Scheduler.CriticalSection.set_queued
    beeflow.Scheduler.CriticalSection.start_round beeflow.Scheduler.Examine.bump_starving
    beeflow.Scheduler.Examine.examine beeflow.Scheduler.Examine.examine_concurrency
    beeflow.Scheduler.Examine.examine_dag beeflow.Scheduler.Examine.examine_limit
    beeflow.Scheduler.Examine.examine_pool beeflow.Scheduler.Examine.fail_scheduled
    beeflow.Scheduler.Examine.set_default beeflow.Scheduler.Examine.take_ti task_concurrency_limit
    beeflow.Scheduler.Query.insert_row beeflow.Scheduler.Query.join_with beeflow.Prelude.Int.◌-ℤ◌
outcome_of_db = refl

executable_task_instances_to_queued_total_example :
    (result : Result Error Outcome) × (executable_task_instances_to_queued world 5 db ≡ some result)
executable_task_instances_to_queued_total_example =
    executable_task_instances_to_queued_total world 5 db

chosen_within_pool_example :
    used "default_pool" outcome.chosen ≤ open_of (world.slots_stats db) "default_pool"
chosen_within_pool_example = chosen_within_pool world 5 db outcome "default_pool" outcome_of_db

model_of_etl : find_dag_model db.dag_models "etl" ≡ some model
unfolding find_dag_model
model_of_etl = refl

chosen_within_dag_example :
    (of_dag "etl" outcome.chosen ≡ 0)
    ⊎ (active_of_dag active db.task_instances "etl" + of_dag "etl" outcome.chosen ≤ 3)
chosen_within_dag_example =
    chosen_within_dag world 5 db outcome "etl" model outcome_of_db model_of_etl

limit_of_load : task_concurrency_limit etl "load" ≡ some 2
unfolding task_concurrency_limit beeflow.Prelude.lookup
limit_of_load = refl

chosen_within_task_example :
    (of_task ("etl", "load") outcome.chosen ≡ 0)
    ⊎ (active_of_task active db.task_instances ("etl", "load")
          + of_task ("etl", "load") outcome.chosen
        ≤ 2)
chosen_within_task_example =
    chosen_within_task world 5 db outcome ("etl", "load") model etl 2 outcome_of_db model_of_etl
      refl refl limit_of_load

length-chosen-le_example :
    (length outcome.chosen ≤ 5) × (length outcome.chosen ≤ pool_slots_free (world.slots_stats db))
length-chosen-le_example = length-chosen-le world 5 db outcome outcome_of_db

chosen-IsEligible_example : All (IsEligible world db) outcome.chosen
chosen-IsEligible_example = chosen-IsEligible world 5 db outcome outcome_of_db

get_concurrency_maps_counts_example :
    ((get_concurrency_maps active db.task_instances).0 "etl"
      ≡ active_of_dag active db.task_instances "etl")
    × ((get_concurrency_maps active db.task_instances).1 ("etl", "load")
        ≡ active_of_task active db.task_instances ("etl", "load"))
get_concurrency_maps_counts_example =
    get_concurrency_maps_counts active db.task_instances "etl" ("etl", "load")
