-- ===== src/Scheduler/CriticalSection.antt =====
-- `_executable_task_instances_to_queued` of lambdas/scheduler/scheduler_job.py
-- (under src/python/beeflow).
pub mod Slots
pub mod Rounds
pub mod Effect
pub mod Bounds
pub mod Termination
pub mod Progress
use beeflow.Prelude.{
  ℕ, zero, suc, Bool, true, false, not, ◌&&◌, ◌||◌, Option, none, some, List, [], ◌∷◌, ◌++◌, String,
  if◌then◌else◌, ltb, nat_beq, string_eq, pair_eq, add, length, sum_by, map, min,
}
use beeflow.Prelude.Int.{pos, pos_part, leb_ℤ}
use beeflow.Prelude.Result.{Result, ok, err}
use beeflow.Scheduler.Tables.{TaskInstance, queued, PoolStats, Database, same_key}
use beeflow.Scheduler.Query.{Row, Starved, select}
use beeflow.Scheduler.World.{is_busy, World, Error, operational_error}
use beeflow.Scheduler.Concurrency.{get_concurrency_maps}
use beeflow.Scheduler.Examine.{Round, examine_all}

abbrev pub is_nil {ℓ} : {A : Type ℓ} → List A → Bool
is_nil [] = true
is_nil (_ ∷ _) = false

-- `found_new_filters`
unfoldable pub found_new_filters : Starved → Starved → Bool
found_new_filters old new =
    ltb (length old.pools) (length new.pools)
    || ltb (length old.dags) (length new.dags)
    || ltb (length old.tasks) (length new.tasks)

-- `is_done or not found_new_filters`, after a round over `rows`.
unfoldable pub is_finished : ℕ → List Row → Round → Round → Bool
unfolding found_new_filters
is_finished max_tis rows old new =
    not (is_nil new.executable_tis)
    || ltb (length rows) max_tis
    || not (found_new_filters old.starved new.starved)

-- The `for loop_count in itertools.count(start=1)` loop. `none` means that the fuel ran out.
unfoldable pub loop : World → ℕ → Database → ℕ → Round → Option Round
unfolding is_finished
loop w max_tis db zero s = none
loop w max_tis db (suc fuel) s =
    let rows = select w.row_locked max_tis (record db { task_instances = s.tis }) s.starved in
    let s' = examine_all w rows s in
    let rest = loop w max_tis db fuel s' in
    if is_nil rows then some s else if is_finished max_tis rows s s' then some s' else rest

-- The names in `starved_pools` before the loop.
unfoldable pub full_pools : List (String × PoolStats) → List String
full_pools [] = []
full_pools ((name, stats) ∷ pools) =
    if leb_ℤ stats.open_slots (pos 0) then add name (full_pools pools) else full_pools pools

unfoldable pub pool_slots_free : List (String × PoolStats) → ℕ
pool_slots_free pools = sum_by (λ p. pos_part p.1.open_slots) pools

unfoldable pub start_round : World → Database → Round
unfolding full_pools
start_round w db =
    let maps = get_concurrency_maps w.in_execution_states db.task_instances in
    record {
      tis = db.task_instances;
      executable_tis = [];
      pools = w.slots_stats db;
      dag_active_tasks_map = maps.0;
      task_concurrency_map = maps.1;
      starved = record { pools = full_pools (w.slots_stats db); dags = []; tasks = [] };
      pool_num_starving_tasks = [];
      num_starving_tasks_total = 0;
    }

unfoldable pub is_among : List TaskInstance → TaskInstance → Bool
is_among [] ti = false
is_among (x ∷ xs) ti = same_key x ti || is_among xs ti

-- The bulk update to the queued state, at one row and at the table.
unfoldable pub mark_queued : World → List TaskInstance → TaskInstance → TaskInstance
mark_queued w chosen ti =
    if is_among chosen ti
    then record ti {
      state = some queued;
      queued_dttm = some w.now;
      queued_by_job_id = some w.job_id;
    }
    else ti

unfoldable pub set_queued : World → List TaskInstance → List TaskInstance → List TaskInstance
unfolding mark_queued
set_queued w chosen [] = []
set_queued w chosen (ti ∷ tis) = mark_queued w chosen ti ∷ set_queued w chosen tis

pub data Gauge : Type 0 where
  pool_starving_tasks : String → ℕ → Gauge
  tasks_starving tasks_running tasks_executable : ℕ → Gauge

pub record Outcome : Type 0 where
  pub chosen : List TaskInstance
  pub db : Database
  pub gauges : List Gauge

unfoldable pub finish : World → Database → Round → Outcome
unfolding set_queued is_among
finish w db s = record {
  chosen = s.executable_tis;
  db = record db { task_instances = set_queued w s.executable_tis s.tis };
  gauges =
      map (λ p. pool_starving_tasks p.0 p.1) s.pool_num_starving_tasks
      ++ (tasks_starving s.num_starving_tasks_total
          ∷ tasks_running 0
          ∷ tasks_executable (length s.executable_tis)
          ∷ []);
}

unfoldable pub finish_loop : World → Database → Option Round → Option (Result Error Outcome)
unfolding finish
finish_loop w db none = none
finish_loop w db (some s) = some (ok (finish w db s))

-- Enough for every run of the loop: each round but the last takes a task instance out of the query.
abbrev pub enough_fuel : Database → ℕ
enough_fuel db = suc (length db.task_instances)

unfoldable pub executable_task_instances_to_queued :
    World → ℕ → Database → Option (Result Error Outcome)
unfolding finish_loop start_round pool_slots_free
executable_task_instances_to_queued w max_tis db =
    if is_busy w
    then some (err operational_error)
    else let free = pool_slots_free (w.slots_stats db) in
      if nat_beq free 0
      then some (ok (record { chosen = []; db = db; gauges = [] }))
      else finish_loop w db (loop w (min max_tis free) db (enough_fuel db) (start_round w db))
