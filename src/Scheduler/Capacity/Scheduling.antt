-- ===== src/Scheduler/Capacity/Scheduling.antt =====
-- What `_schedule_dag_run` and the part of `_do_scheduling` before the critical section
-- (lambdas/scheduler/scheduler_job.py, under src/python/beeflow) do to the table of task instances.
use beeflow.Prelude.{
  ◌≡◌, sym, ap, not, ◌&&◌, Option, none, some, List, [], ◌∷◌, ltb, inl, inr, Bool-cases,
}
use mathlib.Core.Path.{subst}
use beeflow.Prelude.Result.{Result, ok, err, ok_inj, Result-cases}
use beeflow.Scheduler.Tables.{TaskInstance, DagRun, Dag, Database, RunState}
use beeflow.Scheduler.Decisions
use beeflow.Scheduler.Decisions.{
  Examined, Updated, DagCallbackRequest, has_timed_out, same_hash, verify_integrity_if_dag_changed,
  time_out, allow_next_run, is_finished_run, progress, schedule_found, schedule_at,
  schedule_dag_run,
}
use beeflow.Scheduler.ExecutorEvents.Handled.{IsKeyed}
use beeflow.Scheduler.Scheduling.{
  Setting, State, schedule_one, schedule_all_dag_runs, after_callbacks, decide, create_scheduled,
  after_datasets, create_dagruns_for_dags, start_queued, before_critical,
}
use beeflow.Scheduler.Callbacks.{send_all}
use beeflow.Scheduler.Tables.{DagModel}
use beeflow.Prelude.{filter}
use beeflow.Scheduler.CriticalSection.{is_nil}
use beeflow.Scheduler.Runs.Datasets.{DatasetError}
use beeflow.Scheduler.Runs.Datasets
use beeflow.Scheduler.Scheduling.{has_info}
use beeflow.Scheduler.Capacity.{Evolves}
use beeflow.Scheduler.Capacity.Evolution.{Evolves-refl, Evolves-trans, IsKeyed-jobs}
use beeflow.Scheduler.Capacity.Operations.{Advances, skip_unfinished-Advances}

-- A change of the table outside the critical section that keeps the keys apart.
pub record Tame (xs ys : List TaskInstance) : Type 0 where
  pub evolves : Evolves xs ys
  pub keyed : IsKeyed xs → IsKeyed ys

pub Tame-refl : (tis : List TaskInstance) → Tame tis tis
Tame-refl tis = record { evolves = Evolves-refl tis; keyed = λ h. h }

pub Tame-trans : (xs ys zs : List TaskInstance) → Tame xs ys → Tame ys zs → Tame xs zs
Tame-trans xs ys zs a b = record {
  evolves = Evolves-trans xs ys zs a.evolves b.evolves;
  keyed = λ h. b.keyed (a.keyed h);
}

pub Advances-Tame : (xs ys : List TaskInstance) → Advances xs ys → Tame xs ys
Advances-Tame xs ys a = record { evolves = a.evolves; keyed = IsKeyed-jobs xs ys a.same_jobs }

-- What Airflow does to the task instances of a run starts none of them: its `verify_integrity` adds and
-- removes rows, and `update_state` and `schedule_tis` set states that do not execute; the rows that go on
-- executing keep their key, pool and slots, and the keys stay apart.
pub record IsTame (a : Decisions.Airflow) : Type 0 where
  pub verifies : (s : Examined) → Tame s.tis (a.verify_integrity s).tis
  pub updates : (s : Examined) → Tame s.tis (a.update_state s).examined.tis
  pub schedules : (tis : List TaskInstance) (s : Examined) → Tame s.tis (a.schedule_tis tis s).tis

module _ (a : Decisions.Airflow) (tame : IsTame a) where
  verify_integrity_if_dag_changed-Tame :
      (s : Examined) → Tame s.tis (verify_integrity_if_dag_changed a s).tis
  unfolding verify_integrity_if_dag_changed
  verify_integrity_if_dag_changed-Tame s =
      elim (Bool-cases (same_hash s.run.dag_hash (a.latest_version s.run.dag_id))) [
        | inl same ↦ rw same (Tame-refl s.tis)
        | inr changed ↦ rw changed (tame.verifies _)
      ]

  progress-Tame : (dag : Dag) (u : Updated) → Tame u.examined.tis (progress a dag u).0.tis
  unfolding progress allow_next_run
  progress-Tame dag u = elim (Bool-cases (is_finished_run u.examined.run.state)) [
    | inl over ↦ rw over (tame.schedules u.schedulable_tis (allow_next_run a dag u.examined))
    | inr on ↦ rw on (tame.schedules u.schedulable_tis u.examined)
  ]

  schedule_at-Tame : (dag : Option Dag) (s : Examined) → Tame s.tis (schedule_at a dag s).0.tis
  unfolding schedule_at schedule_found time_out allow_next_run
  schedule_at-Tame none s = Tame-refl s.tis
  schedule_at-Tame (some dag) s =
      elim (Bool-cases (has_timed_out a.now s.run.start_date dag.dagrun_timeout)) [
        | inl late ↦ rw late (Advances-Tame s.tis _ (skip_unfinished-Advances a s.run s.tis))
        | inr in_time ↦
            elim (Bool-cases (ltb a.now s.run.execution_date && not dag.allow_future_exec_dates)) [
              | inl future ↦ rw (in_time, future) (Tame-refl s.tis)
              | inr due ↦
                  let verified = verify_integrity_if_dag_changed a s in
                  rw (in_time, due)
                    (Tame-trans s.tis verified.tis _ (verify_integrity_if_dag_changed-Tame s) (
                      Tame-trans verified.tis _ _ (tame.updates verified)
                        (progress-Tame dag (a.update_state verified))))
            ]
      ]

  -- A decision on a run starts no task instance.
  schedule_dag_run-Tame : (s : Examined) → Tame s.tis (schedule_dag_run a s).0.tis
  unfolding schedule_dag_run
  schedule_dag_run-Tame s = schedule_at-Tame (a.get_dag s.run.dag_id) s

module _ (x : Setting) (tame : IsTame x.decisions) where
  schedule_one-Tame :
      (run : DagRun) (db : Database)
      → Tame db.task_instances (schedule_one x run db).0.task_instances
  unfolding schedule_one
  schedule_one-Tame run db = schedule_dag_run-Tame x.decisions tame (record {
    run = run;
    tis = db.task_instances;
    model = x.get_dagmodel db.dag_models run.dag_id;
  })

  schedule_all_dag_runs-Tame :
      (runs : List DagRun) (db : Database)
      → Tame db.task_instances (schedule_all_dag_runs x runs db).0.task_instances
  unfolding schedule_all_dag_runs
  schedule_all_dag_runs-Tame [] db = Tame-refl db.task_instances
  schedule_all_dag_runs-Tame (run ∷ runs) db =
      Tame-trans db.task_instances _ _ (schedule_one-Tame run db)
        (schedule_all_dag_runs-Tame runs (schedule_one x run db).0)

  abbrev TameState : State → State → Type 0
  TameState s after = Tame s.db.task_instances after.db.task_instances

  same_table-Tame :
      (s after : State) → after.db.task_instances ≡ s.db.task_instances → TameState s after
  same_table-Tame s after same =
      subst (Tame s.db.task_instances) (sym same) (Tame-refl s.db.task_instances)

  decide-Tame : (s after : State) → decide x s ≡ ok after → TameState s after
  unfolding decide after_callbacks
  decide-Tame s after e =
      let examined = x.next_dagruns_to_examine RunState.running s.db.dag_runs in
      let decided = schedule_all_dag_runs x examined s.db in
      elim (Result-cases (send_all x.callbacks decided.0.dag_models decided.1)) [
        | inr (raised, failed) ↦ cc (rw failed at e)
        | inl (sent, returned) ↦
            subst (TameState s) (ok_inj (rw returned at e))
              (schedule_all_dag_runs-Tame examined s.db)
      ]

  after_datasets-table :
      (s after : State) (r : Result DatasetError Datasets.Tables)
      → after_datasets s r ≡ ok after
      → after.db.task_instances ≡ s.db.task_instances
  unfolding after_datasets
  after_datasets-table s after (err raised) e = cc
  after_datasets-table s after (ok t) e = sym (ap (λ (t : State). t.db.task_instances) (ok_inj e))

  create_dagruns_for_dags-table :
      (s after : State)
      → create_dagruns_for_dags x s ≡ ok after
      → after.db.task_instances ≡ s.db.task_instances
  unfolding create_dagruns_for_dags create_scheduled after_datasets
  create_dagruns_for_dags-table s after e =
      let (models, info) = x.dags_needing_dagruns s.db in
      let triggered = filter (has_info info) models in
      let created =
        create_scheduled x.runs (filter (λ (m : DagModel). not (has_info info m)) models) s in
      let table = λ (t : State). t.db.task_instances in
      elim (Bool-cases (is_nil triggered)) [
        | inl none_triggered ↦ sym (ap table (ok_inj (rw none_triggered at e)))
        | inr some_triggered ↦ after_datasets-table created after _ (rw some_triggered at e)
      ]

  -- What is committed before the critical section has started no task instance.
  pub before_critical-Tame : (s after : State) → before_critical x s ≡ ok after → TameState s after
  unfolding before_critical start_queued
  before_critical-Tame s after e = elim (Bool-cases x.use_job_schedule) [
    | inl scheduled ↦ elim (Result-cases (create_dagruns_for_dags x s)) [
      | inr (raised, failed) ↦ cc (rw (scheduled, failed) at e)
      | inl (created, returned) ↦
          Tame-trans s.db.task_instances created.db.task_instances _
            (same_table-Tame s created (create_dagruns_for_dags-table s created returned))
            (decide-Tame (start_queued x created) after (rw (scheduled, returned) at e))
    ]
    | inr other ↦ decide-Tame (start_queued x s) after (rw other at e)
  ]
