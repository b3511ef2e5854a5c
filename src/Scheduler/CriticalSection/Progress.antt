-- ===== src/Scheduler/CriticalSection/Progress.antt =====
-- Why a task instance is not queued by `_executable_task_instances_to_queued`
-- (lambdas/scheduler/scheduler_job.py, under src/python/beeflow) while nothing else is.
pub mod Still
pub mod Examined
pub mod Passed
pub mod Growth
pub mod Queried
pub mod Orphans
pub mod Waits
pub mod Ends
use beeflow.Prelude.{
  ℕ, ◌≤◌, ◌≡◌, true, none, some, String, string_eq, pair_eq, lookup, ◌||◌, ltb, ◌⊎◌, In,
}
use beeflow.Prelude.Int.{pos, ltb_ℤ, leb_ℤ}
use beeflow.Scheduler.Tables.{TaskInstance, DagModel, Dag, PoolStats, Database, task_of}
use beeflow.Scheduler.Query.{find_dag_model}
use beeflow.Scheduler.World.{World}
use beeflow.Scheduler.Examine.{task_concurrency_limit}
use beeflow.Scheduler.Concurrency.Counts.{active_of_dag, active_of_task}
use beeflow.Scheduler.CriticalSection.Effect.{IsEligible}

-- A pool that is unknown, or has no open slot.
pub data PoolShut (w : World) (db : Database) (name : String) : Type 0 where
  unknown : lookup name (w.slots_stats db) ≡ none → PoolShut w db name
  full :
      (stats : PoolStats)
      → In (name, stats) (w.slots_stats db)
      → leb_ℤ stats.open_slots (pos 0) ≡ true
      → PoolShut w db name

-- A DAG with as many active task instances as it may have.
pub record DagShut (w : World) (db : Database) (dag_id : String) : Type 0 where
  pub model : DagModel
  pub found : find_dag_model db.dag_models dag_id ≡ some model
  pub reached :
      model.max_active_tasks ≤ active_of_dag w.in_execution_states db.task_instances dag_id

-- More slots than the pool has in all, or has open.
pub record IsTooBig (w : World) (db : Database) (ti : TaskInstance) : Type 0 where
  pub stats : PoolStats
  pub found : lookup ti.pool (w.slots_stats db) ≡ some stats
  pub too_big : (ltb stats.total ti.pool_slots || ltb_ℤ stats.open_slots (pos ti.pool_slots)) ≡ true

-- A task with an eligible instance that is too big for its pool, or with as many active instances as
-- the task may have.
pub data TaskShut (w : World) (db : Database) (task : String × String) : Type 0 where
  no_slots :
      (other : TaskInstance)
      → task_of other ≡ task
      → IsEligible w db other
      → IsTooBig w db other
      → TaskShut w db task
  reached :
      (dag : Dag) (limit : ℕ)
      → w.get_dag task.0 ≡ some dag
      → task_concurrency_limit dag task.1 ≡ some limit
      → limit ≤ active_of_task w.in_execution_states db.task_instances task
      → TaskShut w db task

abbrev pub Shut : World → Database → TaskInstance → Type 0
Shut w db ti = PoolShut w db ti.pool ⊎ DagShut w db ti.dag_id ⊎ TaskShut w db (task_of ti)

-- Why a task instance has to wait: a limit that is reached, or a DAG that is missing.
abbrev pub Blocked : World → Database → TaskInstance → Type 0
Blocked w db ti = Shut w db ti ⊎ (w.get_dag ti.dag_id ≡ none)
