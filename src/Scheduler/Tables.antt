-- ===== src/Scheduler/Tables.antt =====
-- The rows of the metadata database that lambdas/scheduler/scheduler_job.py (under
-- src/python/beeflow) reads and writes, with the columns that it names.
use beeflow.Prelude.{ℕ, Bool, true, false, ◌&&◌, Option, some, List, String}
use beeflow.Prelude.{◌==◌, string_eq, nat_eq}
use beeflow.Prelude.Int.{ℤ, int_eq}

-- A task instance's state. `other` holds the states that the scheduler does not name.
pub data TaskState : Type 0 where
  scheduled queued running success failed skipped deferred : TaskState
  other : String → TaskState

pub data RunState : Type 0 where
  queued running success failed : RunState

pub data RunType : Type 0 where
  backfill_job scheduled dataset_triggered : RunType
  other : String → RunType

abbrev pub is_scheduled : Option TaskState → Bool
is_scheduled (some TaskState.scheduled) = true
is_scheduled _ = false

abbrev pub is_queued : Option TaskState → Bool
is_queued (some TaskState.queued) = true
is_queued _ = false

abbrev pub is_running : Option TaskState → Bool
is_running (some TaskState.running) = true
is_running _ = false

abbrev pub is_deferred : Option TaskState → Bool
is_deferred (some TaskState.deferred) = true
is_deferred _ = false

abbrev pub is_running_run : RunState → Bool
is_running_run RunState.running = true
is_running_run _ = false

abbrev pub is_queued_run : RunState → Bool
is_queued_run RunState.queued = true
is_queued_run _ = false

abbrev pub is_backfill : RunType → Bool
is_backfill backfill_job = true
is_backfill _ = false

pub record TaskInstance : Type 0 where
  pub dag_id : String
  pub task_id : String
  pub run_id : String
  pub map_index : ℤ
  pub state : Option TaskState
  pub pool : String
  pub pool_slots : ℕ
  pub priority_weight : ℤ
  pub try_number : ℕ
  pub queued_dttm : Option ℕ
  pub queued_by_job_id : Option ℕ
  pub external_executor_id : Option String
  pub job_id : Option ℕ
  pub trigger_timeout : Option ℕ
  pub trigger_id : Option ℕ
  pub next_method : Option String
  pub next_kwargs : List (String × String)
  pub hostname : String

pub record DagRun : Type 0 where
  pub dag_id : String
  pub run_id : String
  pub execution_date : ℕ
  pub state : RunState
  pub run_type : RunType
  pub start_date : Option ℕ
  pub dag_hash : Option String

pub record DagModel : Type 0 where
  pub dag_id : String
  pub is_paused : Bool
  pub is_active : Bool
  pub max_active_tasks : ℕ
  pub has_task_concurrency_limits : Bool
  pub next_dagrun : ℕ
  pub next_dagrun_create_after : Option ℕ
  pub last_parsed_time : ℕ
  pub fileloc : String
  pub processor_subdir : Option String

-- One entry of `Pool.slots_stats`, of a pool that has a limit. An overfull pool has a negative number of
-- open slots. Airflow's pools without a limit, with a total of -1, are not represented.
pub record PoolStats : Type 0 where
  pub total : ℕ
  pub open_slots : ℤ

-- A serialized DAG, with `dag.get_task(task_id).max_active_tis_per_dag` for each of its tasks.
pub record Dag : Type 0 where
  pub dag_id : String
  pub tasks : List (String × Option ℕ)
  pub max_active_runs : ℕ
  pub dagrun_timeout : Option ℕ
  pub allow_future_exec_dates : Bool
  pub fileloc : String

-- (dag_id, task_id), and the primary key (dag_id, task_id, run_id, map_index).
abbrev pub task_of : TaskInstance → String × String
task_of ti = (ti.dag_id, ti.task_id)

abbrev pub same_key : TaskInstance → TaskInstance → Bool
same_key a b =
    a.dag_id == b.dag_id
    && a.task_id == b.task_id
    && a.run_id == b.run_id
    && a.map_index == b.map_index

pub record Database : Type 0 where
  pub task_instances : List TaskInstance
  pub dag_runs : List DagRun
  pub dag_models : List DagModel
