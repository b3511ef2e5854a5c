-- ===== src/Scheduler/Samples/Progress.antt =====
-- A sample in which `_executable_task_instances_to_queued` (lambdas/scheduler/scheduler_job.py, under
-- src/python/beeflow) queues nothing.
use beeflow.Prelude.{◌≡◌, refl, ◌⊎◌, inl, inr, some, [], ◌∷◌, arith}
use beeflow.Prelude.Result.{ok}
use beeflow.Scheduler.Tables.{TaskState, TaskInstance, DagModel, Database}
use beeflow.Scheduler.CriticalSection.{Gauge, Outcome, executable_task_instances_to_queued}
use beeflow.Scheduler.CriticalSection.Rounds.{room}
use beeflow.Scheduler.CriticalSection.Effect.{IsEligible}
use beeflow.Scheduler.CriticalSection.Progress.{Blocked}
use beeflow.Scheduler.CriticalSection.Progress.Waits.{IsCrowded}
use beeflow.Scheduler.CriticalSection.Progress.Ends.{none_queued-Blocked}
use beeflow.Scheduler.Samples.{world, run, model, db, instance_of}

-- The DAG may have one active task instance, and has one.
abbrev narrow : DagModel
narrow = record model { max_active_tasks = 1 }

abbrev narrow_db : Database
narrow_db = record db { dag_models = narrow ∷ [] }

abbrev waiting : TaskInstance
waiting = instance_of "load" 1 TaskState.scheduled

abbrev idle_outcome : Outcome
idle_outcome = record {
  chosen = [];
  db = narrow_db;
  gauges =
      Gauge.pool_starving_tasks "default_pool" 0
      ∷ Gauge.tasks_starving 0
      ∷ Gauge.tasks_running 0
      ∷ Gauge.tasks_executable 0
      ∷ [];
}

outcome_of_narrow_db :
    executable_task_instances_to_queued world 5 narrow_db ≡ some (ok idle_outcome)
unfolding executable_task_instances_to_queued beeflow.Scheduler.CriticalSection.loop
    beeflow.Scheduler.Query.select beeflow.Scheduler.Query.order_rows
    beeflow.Scheduler.Query.candidates beeflow.Scheduler.Query.rows beeflow.Scheduler.Query.join_row
    beeflow.Scheduler.Query.find_dag_run beeflow.Scheduler.Query.find_dag_model
    beeflow.Scheduler.Query.admits beeflow.Prelude.contains beeflow.Scheduler.Query.precedes
    beeflow.Scheduler.Examine.examine_all beeflow.Prelude.lookup
    beeflow.Scheduler.Concurrency.get_concurrency_maps beeflow.Prelude.update beeflow.Prelude.insert
    beeflow.Prelude.add beeflow.Scheduler.Concurrency.bump_group
    beeflow.Scheduler.Concurrency.group_by_task beeflow.Scheduler.Concurrency.set_tasks
    beeflow.Scheduler.Concurrency.sum_dags beeflow.Scheduler.CriticalSection.finish
    beeflow.Scheduler.CriticalSection.finish_loop
    beeflow.Scheduler.CriticalSection.found_new_filters beeflow.Scheduler.CriticalSection.full_pools
    beeflow.Scheduler.CriticalSection.is_among beeflow.Scheduler.CriticalSection.is_finished
    beeflow.Scheduler.CriticalSection.mark_queued beeflow.Scheduler.CriticalSection.pool_slots_free
    beeflow.Scheduler.CriticalSection.set_queued beeflow.Scheduler.CriticalSection.start_round
    beeflow.Scheduler.Examine.bump_starving beeflow.Scheduler.Examine.examine
    beeflow.Scheduler.Examine.examine_concurrency beeflow.Scheduler.Examine.examine_dag
    beeflow.Scheduler.Examine.examine_limit beeflow.Scheduler.Examine.examine_pool
    beeflow.Scheduler.Examine.fail_scheduled beeflow.Scheduler.Examine.set_default
    beeflow.Scheduler.Examine.take_ti beeflow.Scheduler.Examine.task_concurrency_limit
    beeflow.Scheduler.Query.insert_row beeflow.Scheduler.Query.join_with beeflow.Prelude.Int.◌-ℤ◌
outcome_of_narrow_db = refl

waiting-IsEligible : IsEligible world narrow_db waiting
unfolding beeflow.Scheduler.Query.find_dag_run beeflow.Scheduler.Query.find_dag_model
waiting-IsEligible = record {
  listed = inr (inl refl);
  run = run;
  model = narrow;
  found_run = refl;
  found_model = refl;
  holds = refl;
  unlocked = refl;
}

none_queued-Blocked_example :
    Blocked world narrow_db waiting ⊎ IsCrowded world (room world 5 narrow_db) narrow_db
none_queued-Blocked_example =
    none_queued-Blocked world 5 narrow_db idle_outcome waiting outcome_of_narrow_db refl
      (omega arith) waiting-IsEligible

-- A query of one row that returns a task instance of a missing DAG ends the loop, although the next
-- row could be queued.
abbrev lost : TaskInstance
lost = record (instance_of "load" 0 TaskState.scheduled) { dag_id = "gone" }

abbrev crowded_db : Database
crowded_db = record {
  task_instances = lost ∷ instance_of "extract" 0 TaskState.scheduled ∷ [];
  dag_runs = record run { dag_id = "gone" } ∷ run ∷ [];
  dag_models = record model { dag_id = "gone" } ∷ model ∷ [];
}

abbrev crowded_outcome : Outcome
crowded_outcome = record idle_outcome {
  db = record crowded_db {
    task_instances =
        record lost { state = some TaskState.failed }
        ∷ instance_of "extract" 0 TaskState.scheduled
        ∷ [];
  };
}

crowded_out : executable_task_instances_to_queued world 1 crowded_db ≡ some (ok crowded_outcome)
unfolding executable_task_instances_to_queued beeflow.Scheduler.CriticalSection.loop
    beeflow.Scheduler.Query.select beeflow.Scheduler.Query.order_rows
    beeflow.Scheduler.Query.candidates beeflow.Scheduler.Query.rows beeflow.Scheduler.Query.join_row
    beeflow.Scheduler.Query.find_dag_run beeflow.Scheduler.Query.find_dag_model
    beeflow.Scheduler.Query.admits beeflow.Prelude.contains beeflow.Scheduler.Query.precedes
    beeflow.Scheduler.Examine.examine_all beeflow.Prelude.lookup
    beeflow.Scheduler.Concurrency.get_concurrency_maps beeflow.Prelude.update beeflow.Prelude.insert
    beeflow.Prelude.add beeflow.Scheduler.Concurrency.bump_group
    beeflow.Scheduler.Concurrency.group_by_task beeflow.Scheduler.Concurrency.set_tasks
    beeflow.Scheduler.Concurrency.sum_dags beeflow.Scheduler.CriticalSection.finish
    beeflow.Scheduler.CriticalSection.finish_loop
    beeflow.Scheduler.CriticalSection.found_new_filters beeflow.Scheduler.CriticalSection.full_pools
    beeflow.Scheduler.CriticalSection.is_among beeflow.Scheduler.CriticalSection.is_finished
    beeflow.Scheduler.CriticalSection.mark_queued beeflow.Scheduler.CriticalSection.pool_slots_free
    beeflow.Scheduler.CriticalSection.set_queued beeflow.Scheduler.CriticalSection.start_round
    beeflow.Scheduler.Examine.bump_starving beeflow.Scheduler.Examine.examine
    beeflow.Scheduler.Examine.examine_concurrency beeflow.Scheduler.Examine.examine_dag
    beeflow.Scheduler.Examine.examine_limit beeflow.Scheduler.Examine.examine_pool
    beeflow.Scheduler.Examine.fail_scheduled beeflow.Scheduler.Examine.set_default
    beeflow.Scheduler.Examine.take_ti beeflow.Scheduler.Examine.task_concurrency_limit
    beeflow.Scheduler.Query.insert_row beeflow.Scheduler.Query.join_with beeflow.Prelude.Int.◌-ℤ◌
crowded_out = refl
