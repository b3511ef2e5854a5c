-- ===== src/Scheduler/Examine.antt =====
-- The `for` loop of `_executable_task_instances_to_queued`, in lambdas/scheduler/scheduler_job.py
-- (under src/python/beeflow).
pub mod Starvation
pub mod Rule
pub mod Length
pub mod Limits
pub mod Table
use beeflow.Prelude.{
  ℕ, ◌+◌, ◌&&◌, Option, none, some, List, [], ◌∷◌, ◌++◌, String, if◌then◌else◌, ltb, leb, ◌==◌,
  string_eq, pair_eq, lookup, insert, update, add,
}
use beeflow.Prelude.Int.{pos, ◌-ℤ◌, ltb_ℤ, leb_ℤ}
use beeflow.Scheduler.Tables.{TaskInstance, failed, Dag, PoolStats, task_of, is_scheduled}
use beeflow.Scheduler.Query.{Row, Starved}
use beeflow.Scheduler.World.{World}

-- The variables of the loops. `tis` is the task instance table.
pub record Round : Type 0 where
  pub tis : List TaskInstance
  pub executable_tis : List TaskInstance
  pub pools : List (String × PoolStats)
  pub dag_active_tasks_map : String → ℕ
  pub task_concurrency_map : String × String → ℕ
  pub starved : Starved
  pub pool_num_starving_tasks : List (String × ℕ)
  pub num_starving_tasks_total : ℕ

-- `pool_num_starving_tasks.setdefault(pool_name, 0)`
unfoldable pub set_default : String → List (String × ℕ) → List (String × ℕ)
set_default k m = elim (lookup k m) [ none ↦ insert k 0 m | some _ ↦ m ]

unfoldable pub bump_starving : String → List (String × ℕ) → List (String × ℕ)
bump_starving k m = elim (lookup k m) [ none ↦ insert k 1 m | some n ↦ insert k (n + 1) m ]

abbrev pub starve_pool : String → Round → Round
starve_pool name s = record s { starved = record s.starved { pools = add name s.starved.pools } }

abbrev pub starve_dag : String → Round → Round
starve_dag dag_id s = record s { starved = record s.starved { dags = add dag_id s.starved.dags } }

abbrev pub starve_task : TaskInstance → Round → Round
starve_task ti s = record s {
  starved = record s.starved { tasks = add (task_of ti) s.starved.tasks };
}

abbrev pub count_starving : String → Round → Round
count_starving name s = record s {
  pool_num_starving_tasks = bump_starving name s.pool_num_starving_tasks;
  num_starving_tasks_total = s.num_starving_tasks_total + 1;
}

-- The task instance is taken: it uses its slots, and counts for its DAG and its task.
unfoldable pub take_ti : TaskInstance → PoolStats → Round → Round
take_ti ti stats s = record s {
  executable_tis = s.executable_tis ++ ti ∷ [];
  pools =
      insert ti.pool (record stats { open_slots = stats.open_slots -ℤ pos ti.pool_slots }) s.pools;
  dag_active_tasks_map =
      update s.dag_active_tasks_map ti.dag_id (s.dag_active_tasks_map ti.dag_id + 1);
  task_concurrency_map =
      update s.task_concurrency_map (task_of ti) (s.task_concurrency_map (task_of ti) + 1);
}

-- The update that fails the scheduled task instances of a DAG that is missing.
unfoldable pub fail_scheduled : String → List TaskInstance → List TaskInstance
fail_scheduled dag_id [] = []
fail_scheduled dag_id (ti ∷ tis) =
    (if ti.dag_id == dag_id && is_scheduled ti.state then record ti { state = some failed } else ti)
    ∷ fail_scheduled dag_id tis

-- `task_concurrency_limit`: none for a task that the DAG has not, or that has no limit.
unfoldable pub task_concurrency_limit : Dag → String → Option ℕ
task_concurrency_limit dag task_id = elim (lookup task_id dag.tasks) [
  | none ↦ none
  | some limit ↦ limit
]

-- The tests on the task's own limit, and the end of the loop's body.
unfoldable pub examine_limit : TaskInstance → PoolStats → Option ℕ → Round → Round
unfolding take_ti
examine_limit ti stats none s = take_ti ti stats s
examine_limit ti stats (some limit) s =
    if leb limit (s.task_concurrency_map (task_of ti)) then starve_task ti s else take_ti ti stats s

unfoldable pub examine_concurrency : Option Dag → TaskInstance → PoolStats → Round → Round
unfolding examine_limit fail_scheduled task_concurrency_limit
examine_concurrency none ti stats s = record s { tis = fail_scheduled ti.dag_id s.tis }
examine_concurrency (some dag) ti stats s =
    examine_limit ti stats (task_concurrency_limit dag ti.task_id) s

-- The part of the body behind the tests on the pool.
unfoldable pub examine_dag : World → Row → PoolStats → Round → Round
unfolding examine_concurrency examine_limit
examine_dag w row stats s =
    let ti = row.ti in
    let model = row.dag_model in
    if leb model.max_active_tasks (s.dag_active_tasks_map ti.dag_id)
    then starve_dag ti.dag_id s
    else if model.has_task_concurrency_limits
    then examine_concurrency (w.get_dag ti.dag_id) ti stats s
    else examine_limit ti stats none s

-- The part of the body that has the pool at hand.
unfoldable pub examine_pool : World → Row → PoolStats → Round → Round
unfolding examine_dag
examine_pool w row stats s =
    let ti = row.ti in
    if leb_ℤ stats.open_slots (pos 0)
    then starve_pool ti.pool (count_starving ti.pool s)
    else if ltb stats.total ti.pool_slots
    then starve_task ti (count_starving ti.pool s)
    else if ltb_ℤ stats.open_slots (pos ti.pool_slots)
    then starve_task ti (count_starving ti.pool s)
    else examine_dag w row stats s

-- The body of `for task_instance in task_instances_to_examine`.
unfoldable pub examine : World → Row → Round → Round
unfolding examine_pool set_default bump_starving
examine w row s = elim (lookup row.ti.pool s.pools) [
  | none ↦ starve_pool row.ti.pool s
  | some stats ↦
      examine_pool w row stats
        (record s { pool_num_starving_tasks = set_default row.ti.pool s.pool_num_starving_tasks })
]

unfoldable pub examine_all : World → List Row → Round → Round
unfolding examine
examine_all w [] s = s
examine_all w (row ∷ rows) s = examine_all w rows (examine w row s)
