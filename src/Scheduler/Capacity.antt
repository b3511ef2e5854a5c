-- ===== src/Scheduler/Capacity.antt =====
-- The capacity of pools, DAGs and tasks over the whole run of lambdas/scheduler/scheduler_job.py
-- (under src/python/beeflow): what the task instances of the table take of it, and how the table may
-- change from one moment to the next.
pub mod Evolution
pub mod Operations
pub mod Among
pub mod Queued
pub mod Limits
pub mod Steps
pub mod Scheduling
pub mod Turns
pub mod Runs
use beeflow.Prelude.{
  ℕ, Bool, true, false, Option, some, List, [], ◌∷◌, String, if◌then◌else◌, ◌≡◌, ◌==◌, ◌&&◌,
  string_eq, pair_eq, sum_by,
}
use beeflow.Prelude.Int.{ℤ}
use beeflow.Scheduler.Tables.{TaskInstance, TaskState}

-- What a task instance keeps for as long as it is in the table and executes.
pub record Job : Type 0 where
  pub dag_id : String
  pub task_id : String
  pub run_id : String
  pub map_index : ℤ
  pub pool : String
  pub pool_slots : ℕ

abbrev pub job_of : TaskInstance → Job
job_of ti = record {
  dag_id = ti.dag_id;
  task_id = ti.task_id;
  run_id = ti.run_id;
  map_index = ti.map_index;
  pool = ti.pool;
  pool_slots = ti.pool_slots;
}

-- Airflow's `EXECUTION_STATES`, as its documentation lists them.
abbrev pub is_executing : Option TaskState → Bool
is_executing (some TaskState.queued) = true
is_executing (some TaskState.running) = true
is_executing _ = false

-- What has a limit: the slots of a pool, the task instances of a DAG, and those of one of its tasks.
pub data Measure : Type 0 where
  slots_of : String → Measure
  tasks_of_dag : String → Measure
  tasks_of : String × String → Measure

abbrev pub weight : Measure → Job → ℕ
weight (slots_of name) j = if j.pool == name then j.pool_slots else 0
weight (tasks_of_dag dag_id) j = if j.dag_id == dag_id then 1 else 0
weight (tasks_of task) j = if (j.dag_id, j.task_id) == task then 1 else 0

-- What the executing task instances of a table take, for any measure of them.
abbrev pub load : (Job → ℕ) → List TaskInstance → ℕ
load g tis = sum_by (λ ti. if is_executing ti.state then g (job_of ti) else 0) tis

-- How a table changes outside a critical section: rows come that do not execute, rows go, and a row
-- changes as it likes, but one that executes after the change has executed before it, with the same
-- key, pool and slots.
pub data Evolves : List TaskInstance → List TaskInstance → Type 0 where
  done : Evolves [] []
  change :
      {x y : TaskInstance} {xs ys : List TaskInstance}
      → (is_executing y.state ≡ true → (is_executing x.state ≡ true) × (job_of y ≡ job_of x))
      → Evolves xs ys
      → Evolves (x ∷ xs) (y ∷ ys)
  come :
      {y : TaskInstance} {xs ys : List TaskInstance}
      → is_executing y.state ≡ false
      → Evolves xs ys
      → Evolves xs (y ∷ ys)
  go : {x : TaskInstance} {xs ys : List TaskInstance} → Evolves xs ys → Evolves (x ∷ xs) ys
