-- ===== src/Scheduler/Enqueue.antt =====
-- `_critical_section_enqueue_task_instances` and `_enqueue_task_instances_with_queued_state` of
-- lambdas/scheduler/scheduler_job.py (under src/python/beeflow).
pub mod Queued
use beeflow.Prelude.{
  ℕ, Bool, false, ◌&&◌, Option, none, some, List, [], ◌∷◌, if◌then◌else◌, nat_beq, min, length,
}
use beeflow.Prelude.Result.{Result, ok, err}
use beeflow.Scheduler.Tables.{TaskInstance, DagRun, Database}
use beeflow.Scheduler.Query.{find_dag_run}
use beeflow.Scheduler.World.{World, Error}
use beeflow.Scheduler.CriticalSection.{Outcome, is_among, executable_task_instances_to_queued}
use beeflow.Scheduler.Decisions.{is_finished_run}

-- `ti.dag_run.state in State.finished`; a foreign key says that the run is there.
abbrev pub has_finished_run : Option DagRun → Bool
has_finished_run none = false
has_finished_run (some run) = is_finished_run run.state

-- `_enqueue_task_instances_with_queued_state`, at the table. The commands are only computed.
unfoldable pub enqueue_task_instances_with_queued_state :
    List DagRun → List TaskInstance → List TaskInstance → List TaskInstance
enqueue_task_instances_with_queued_state runs queued_tis [] = []
enqueue_task_instances_with_queued_state runs queued_tis (ti ∷ tis) =
    (if is_among queued_tis ti && has_finished_run (find_dag_run runs ti)
      then record ti { state = none }
      else ti)
    ∷ enqueue_task_instances_with_queued_state runs queued_tis tis

unfoldable pub enqueued : Outcome → Database
unfolding enqueue_task_instances_with_queued_state
enqueued out = record out.db {
  task_instances =
      enqueue_task_instances_with_queued_state out.db.dag_runs out.chosen out.db.task_instances;
}

unfoldable pub after_selection :
    Option (Result Error Outcome) → Option (Result Error (ℕ × Database))
unfolding enqueued
after_selection none = none
after_selection (some (err e)) = some (err e)
after_selection (some (ok out)) = some (ok (length out.chosen, enqueued out))

-- `max_tis_per_query` of 0 stands for no limit.
abbrev pub max_tis : ℕ → ℕ → ℕ
max_tis max_tis_per_query slots_available =
    if nat_beq max_tis_per_query 0 then slots_available else min max_tis_per_query slots_available

-- `_critical_section_enqueue_task_instances`: what it returns, and the database after it.
unfoldable pub critical_section_enqueue_task_instances :
    World → ℕ → ℕ → Database → Option (Result Error (ℕ × Database))
unfolding after_selection
critical_section_enqueue_task_instances w max_tis_per_query slots_available db =
    after_selection
      (executable_task_instances_to_queued w (max_tis max_tis_per_query slots_available) db)
