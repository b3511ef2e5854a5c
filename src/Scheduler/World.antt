-- ===== src/Scheduler/World.antt =====
-- What lambdas/scheduler/scheduler_job.py (under src/python/beeflow) takes from Airflow and from
-- the database server.
use beeflow.Prelude.{ℕ, Bool, not, ◌&&◌, ◌||◌, Option, List, String, string_eq, pair_eq}
use beeflow.Scheduler.Tables.{TaskInstance, TaskState, Dag, PoolStats, Database}

-- What the scheduler takes from Airflow and from the database server in one critical section.
pub record World : Type 0 where
  pub job_id : ℕ
  pub now : ℕ
  -- whether the dialect is "postgresql", and what `pg_try_advisory_xact_lock` returns
  pub is_postgresql : Bool
  pub lock_acquired : Bool
  -- whether another session holds the row lock of a pool, with which `Pool.slots_stats` raises
  pub pools_locked : Bool
  -- a row lock that another session holds
  pub row_locked : TaskInstance → Bool
  -- `Pool.slots_stats`, `DagBag.get_dag` and `EXECUTION_STATES`
  pub slots_stats : Database → List (String × PoolStats)
  pub get_dag : String → Option Dag
  pub in_execution_states : Option TaskState → Bool

-- The two locks of the critical section, of which one is not obtained.
abbrev pub is_busy : World → Bool
is_busy w = w.is_postgresql && not w.lock_acquired || w.pools_locked

pub data Error : Type 0 where
  operational_error : Error
