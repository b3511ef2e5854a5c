-- ===== src/Scheduler/Samples/Turns.antt =====
-- Samples of the scheduler's turns in lambdas/scheduler/scheduler_job.py and of its handler in
-- lambdas/scheduler/scheduler_runner.py (under src/python/beeflow).
use beeflow.Prelude.{ℕ, ◌≡◌, ◌≤◌, refl, true, false, none, some, [], ◌∷◌, String, length}
use beeflow.Prelude.Int.{pos}
use beeflow.Prelude.Result.{Result, ok}
use beeflow.Scheduler.CriticalSection.{Outcome, executable_task_instances_to_queued}
use beeflow.Scheduler.Enqueue.{max_tis, critical_section_enqueue_task_instances}
use beeflow.Scheduler.Enqueue.Queued.{critical_section_enqueue_task_instances_lem}
use beeflow.Scheduler.Runs
use beeflow.Scheduler.Decisions
use beeflow.Scheduler.Callbacks.{Paused}
use beeflow.Scheduler.Scheduling.{Setting, State, Failure, before_critical, do_scheduling}
use beeflow.Scheduler.Loop as Loop
use beeflow.Scheduler.Loop.{
  TurnSetting, JobState, LoopError, run_scheduler_loop, without_sleep, handler,
}
use beeflow.Scheduler.Loop.Turns.{turns, run_scheduler_loop-turns, handler_never}
use beeflow.Scheduler.Samples.{world, run, model, db, outcome, outcome_of_db}
use beeflow.Scheduler.Samples.Events.{executor, datasets, callbacks}

pub queued_in_db : critical_section_enqueue_task_instances world 5 9 db ≡ some (ok (1, outcome.db))
unfolding critical_section_enqueue_task_instances beeflow.Scheduler.Enqueue.after_selection
    beeflow.Scheduler.Enqueue.enqueued
    beeflow.Scheduler.Enqueue.enqueue_task_instances_with_queued_state
    beeflow.Scheduler.CriticalSection.is_among beeflow.Scheduler.Query.find_dag_run
queued_in_db = rw outcome_of_db refl

critical_section_enqueue_task_instances_lem_example :
    (out : Outcome) × (executable_task_instances_to_queued world (max_tis 5 9) db ≡ some (ok out))
    × (outcome.db ≡ out.db)
    × (1 ≡ length out.chosen)
    × (1 ≤ 9)
critical_section_enqueue_task_instances_lem_example =
    critical_section_enqueue_task_instances_lem world 5 9 db 1 outcome.db queued_in_db

abbrev airflow : Runs.Airflow
airflow = record {
  now = 100;
  get_dag = world.get_dag;
  dags_hash = λ dag_id. none;
  active_runs_of_dags = λ runs dag_id. 1;
  running_runs_of_dags = λ runs dag_id. 1;
  create_dagrun = λ dag type date state hash. run;
  calculate_dagrun_date_fields = λ dag model. model;
}

abbrev decisions : Decisions.Airflow
decisions = record {
  now = 100;
  get_dag = world.get_dag;
  is_unfinished = λ state. true;
  latest_version = λ dag_id. none;
  get_num_active_runs = λ dag s. 0;
  calculate_dagrun_date_fields = λ dag run model. model;
  verify_integrity = λ s. s;
  update_state = λ s. record { examined = s; schedulable_tis = []; callback = none };
  schedule_tis = λ tis s. s;
}

-- No run is due for a decision.
abbrev pub setting : ℕ → Setting
setting slots = record {
  use_job_schedule = false;
  max_tis_per_query = 5;
  slots_available = slots;
  world = world;
  runs = airflow;
  datasets = datasets;
  decisions = decisions;
  callbacks = callbacks;
  dags_needing_dagruns = λ db. ([], []);
  next_dagruns_to_examine = λ state runs. [];
  get_dagmodel = λ models dag_id. model;
  is_lock_not_available_error = λ e. true;
}

abbrev pub state : State
state = record { db = db; consumed = []; queue = []; sent = [] }

pub committed : before_critical (setting 9) state ≡ ok state
unfolding before_critical beeflow.Scheduler.Scheduling.start_queued
    beeflow.Scheduler.Scheduling.decide beeflow.Scheduler.Scheduling.schedule_all_dag_runs
    beeflow.Scheduler.Scheduling.after_callbacks beeflow.Scheduler.Callbacks.send_all
    beeflow.Scheduler.Scheduling.store_runs beeflow.Scheduler.Runs.start_queued_dagruns
    beeflow.Scheduler.Runs.start_runs
committed = refl

pub scheduled : do_scheduling (setting 9) state ≡ some (ok (1, record state { db = outcome.db }))
unfolding do_scheduling beeflow.Scheduler.Scheduling.then_critical
    beeflow.Scheduler.Scheduling.critical beeflow.Scheduler.Scheduling.after_critical
scheduled = rw (committed, queued_in_db) refl

-- The executor is full, and reports nothing.
abbrev pub turn_setting : ℕ → TurnSetting
turn_setting loop_count = record {
  setting = setting 0;
  executor = executor;
  get_event_buffer = λ s. [];
  due = ([], some 5);
  now = 100;
  zombie_threshold_secs = 30;
  jobs = [];
  show_map_index = λ i. "";
  paused = record {
    get_dag = λ dag_id. none;
    update_state = λ dag run tis. record { run = run; task_instances = tis; callback = none };
  };
  paused_dag_ids = λ s. [];
  is_unit_test = false;
  scheduler_idle_sleep_time = 1;
}

abbrev pub job : JobState
job = record { state = state; killed = []; zombies = []; without_running = []; naps = [] }

run_scheduler_loop-turns_example :
    (run_scheduler_loop turn_setting (pos 2) 2 job ≡ turns turn_setting 2 1 job)
    × ((result : Result LoopError JobState) × (turns turn_setting 2 1 job ≡ some result))
run_scheduler_loop-turns_example = run_scheduler_loop-turns turn_setting 1 0 job

idle_turn : turns (without_sleep turn_setting) 1 1 job ≡ some (ok (record job { naps = 0 ∷ [] }))
unfolding turns Loop.turn do_scheduling before_critical beeflow.Scheduler.Scheduling.start_queued
    beeflow.Scheduler.Scheduling.decide beeflow.Scheduler.Scheduling.schedule_all_dag_runs
    beeflow.Scheduler.Scheduling.after_callbacks beeflow.Scheduler.Callbacks.send_all
    beeflow.Scheduler.Scheduling.store_runs beeflow.Scheduler.Runs.start_queued_dagruns
    beeflow.Scheduler.Runs.start_runs beeflow.Scheduler.Scheduling.then_critical
    beeflow.Scheduler.Scheduling.critical Loop.after_scheduling Loop.after_events Loop.next_turn
    Loop.run_timers Loop.sleep_if_idle beeflow.Scheduler.ExecutorEvents.process_executor_events
    beeflow.Scheduler.ExecutorEvents.tis_with_right_state
idle_turn = refl

handler_never_example : handler {Record = String} turn_setting [] 1 job ≡ none
handler_never_example =
    handler_never String turn_setting 1 job (record job { naps = 0 ∷ [] }) idle_turn
