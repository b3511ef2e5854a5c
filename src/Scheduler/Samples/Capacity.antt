-- ===== src/Scheduler/Samples/Capacity.antt =====
-- Samples of what executes in a pool, of a DAG and of a task, through turns of
-- lambdas/scheduler/scheduler_job.py (under src/python/beeflow).
use beeflow.Prelude.{
  ℕ, ◌-◌, ◌≡◌, refl, sym, ap, ◌∙◌, true, false, Option, none, some, List, [], ◌∷◌, String,
  if◌then◌else◌, ◌==◌, string_eq, pair_eq, arith, inl, inr, Bool-cases, some_inj, pair_beq_iff,
}
use mathlib.Core.Path.{subst}
use beeflow.Prelude.Result.{ok, ok_inj}
use beeflow.Scheduler.Tables.{TaskState, TaskInstance, DagModel}
use beeflow.Scheduler.Query.{find_dag_model}
use beeflow.Scheduler.Examine.{task_concurrency_limit}
use beeflow.Scheduler.CriticalSection.Slots.{open_of}
use beeflow.Scheduler.ExecutorEvents.Handled.{IsKeyed}
use beeflow.Scheduler.Loop.{TurnSetting, JobState, turn}
use beeflow.Scheduler.Capacity.{is_executing, slots_of, tasks_of, weight, load, done, change}
use beeflow.Scheduler.Capacity.Limits.{Limits, IsLimited, IsFaithful}
use beeflow.Scheduler.Capacity.Steps.{queue, evolve, Reach, start, later, IsWithin, Reach-IsWithin}
use beeflow.Scheduler.Capacity.Scheduling.{Tame-refl}
use beeflow.Prelude.Int.{pos}
use beeflow.Scheduler.Loop.{run_scheduler_loop}
use beeflow.Scheduler.Capacity.Runs.{run_scheduler_loop-IsWithin}
use beeflow.Scheduler.Capacity.Turns.{IsTrusted, turn-Reach}
use beeflow.Scheduler.Scheduling.{State}
use beeflow.Scheduler.Samples.{world, etl, model, db, outcome, instance_of}
use beeflow.Scheduler.Samples.Turns.{
  queued_in_db, committed, scheduled, setting, state, turn_setting, job,
}

abbrev limits : Limits
limits = record {
  pool_total = λ name. if "default_pool" == name then 3 else 0;
  max_active_tasks = λ dag_id. 3;
  max_active_tis = λ task. if task == ("etl", "load") then some 2 else none;
}

open_in_db :
    (name : String)
    → open_of (world.slots_stats db) name
      ≡ limits.pool_total name - load (weight (slots_of name)) db.task_instances
unfolding beeflow.Prelude.lookup
open_in_db name = elim (Bool-cases ("default_pool" == name)) [
  | inl same ↦ rw same refl
  | inr other ↦ rw other refl
]

only_model :
    (dag_id : String) (m : DagModel) → find_dag_model db.dag_models dag_id ≡ some m → model ≡ m
unfolding find_dag_model
only_model dag_id m h = elim (Bool-cases ("etl" == dag_id)) [
  | inl same ↦ some_inj (rw same at h)
  | inr other ↦ cc (rw other at h)
]

limit_of_task :
    (task : String × String) (limit : ℕ)
    → limits.max_active_tis task ≡ some limit
    → IsLimited world model task limit
unfolding task_concurrency_limit beeflow.Prelude.lookup
limit_of_task task limit h = elim (Bool-cases (task == ("etl", "load"))) [
  | inl same ↦
      let two : 2 ≡ limit = some_inj (rw same at h) in
      let is_load = sym ((pair_beq_iff task ("etl", "load")).0 same) in
      subst (λ t. IsLimited world model t limit) is_load
        (subst (IsLimited world model ("etl", "load")) two
          (record { has_limits = refl; dag = etl; found = refl; limited = refl }))
  | inr other ↦ cc (rw other at h)
]

active-is_executing :
    (state : Option TaskState) → world.in_execution_states state ≡ is_executing state
active-is_executing none = refl
active-is_executing (some s) = ground arith

db-IsFaithful : IsFaithful limits world db
db-IsFaithful = record {
  executing = active-is_executing;
  pools = open_in_db;
  dags =
      λ dag_id m known. ap (λ (d : DagModel). d.max_active_tasks) (sym (only_model dag_id m known));
  tasks = λ task limit m limited known.
      subst (λ d. IsLimited world d task limit) (only_model task.0 m known)
        (limit_of_task task limit limited);
}

abbrev finished : TaskInstance → TaskInstance
finished ti = record ti { state = some TaskState.success }

-- The task instance that runs ends, and the queued one begins to run.
abbrev worked : List TaskInstance
worked =
    finished (instance_of "load" 0 TaskState.running)
    ∷ record (instance_of "load" 1 TaskState.running) {
      queued_dttm = some 100;
      queued_by_job_id = some 7;
    }
    ∷ instance_of "load" 2 TaskState.scheduled
    ∷ instance_of "extract" 0 TaskState.scheduled
    ∷ []

apart : IsKeyed db.task_instances
apart = ((refl, (refl, (refl, tt))), ((refl, (refl, tt)), ((refl, tt), (tt, tt))))

worked-IsKeyed : IsKeyed worked
worked-IsKeyed = ((refl, (refl, (refl, tt))), ((refl, (refl, tt)), ((refl, tt), (tt, tt))))

worked-Reach : Reach limits db (record outcome.db { task_instances = worked })
worked-Reach = later (later start (queue world 5 9 1 db-IsFaithful queued_in_db)) (
    evolve
      (change (λ h. cc)
        (change (λ h. (refl, refl)) (change (λ h. (h, refl)) (change (λ h. (h, refl)) done))))
      worked-IsKeyed)

Reach-IsWithin_example :
    IsWithin (tasks_of ("etl", "load")) 2 (record outcome.db { task_instances = worked })
Reach-IsWithin_example =
    Reach-IsWithin limits (tasks_of ("etl", "load")) 2 2 refl (omega arith) worked-Reach
      (record { keyed = apart; within = omega arith })

abbrev busy_turn : TurnSetting
busy_turn = record (turn_setting 1) { setting = setting 9 }

turned : turn busy_turn job ≡ some (ok (record job { state = record state { db = outcome.db } }))
unfolding turn beeflow.Scheduler.Loop.after_scheduling beeflow.Scheduler.Loop.after_events
    beeflow.Scheduler.Loop.run_timers beeflow.Scheduler.Loop.sleep_if_idle
    beeflow.Scheduler.ExecutorEvents.process_executor_events
    beeflow.Scheduler.ExecutorEvents.tis_with_right_state
turned = rw scheduled refl

busy_turn-IsTrusted : IsTrusted limits busy_turn job
busy_turn-IsTrusted = record {
  faithful = λ before returned.
      subst (λ (s : State). IsFaithful limits world s.db) (ok_inj (sym committed ∙ returned))
        db-IsFaithful;
  tame = record {
    verifies = λ s. Tame-refl s.tis;
    updates = λ s. Tame-refl s.tis;
    schedules = λ tis s. Tame-refl s.tis;
  };
  keeps = λ r ti. refl;
  paused_tame = λ dag run tis. Tame-refl tis;
}

turn-Reach_example : Reach limits db outcome.db
turn-Reach_example =
    turn-Reach limits busy_turn job (record job { state = record state { db = outcome.db } })
      busy_turn-IsTrusted apart turned

one_run :
    run_scheduler_loop (λ loop_count. busy_turn) (pos 1) 1 job
    ≡ some (ok (record job { state = record state { db = outcome.db } }))
unfolding run_scheduler_loop beeflow.Scheduler.Loop.loop_from beeflow.Scheduler.Loop.next_turn
one_run = rw turned refl

run_scheduler_loop-IsWithin_example : IsWithin (slots_of "default_pool") 3 outcome.db
run_scheduler_loop-IsWithin_example =
    run_scheduler_loop-IsWithin limits (slots_of "default_pool") 3 3 (λ loop_count. busy_turn) 0 0
      job (record job { state = record state { db = outcome.db } }) refl (omega arith)
      (busy_turn-IsTrusted, λ next e. tt) (record { keyed = apart; within = omega arith }) one_run
