-- ===== src/Scheduler/Upkeep.antt =====
-- The scheduler's regular checks in lambdas/scheduler/scheduler_job.py (under src/python/beeflow):
-- `check_trigger_timeouts`, `_find_zombies` and `_cleanup_stale_dags`.
pub mod Settled
use beeflow.Prelude.{
  ℕ, ◌+◌, ◌-◌, Bool, true, false, not, ◌&&◌, ◌||◌, Option, none, some, List, [], ◌∷◌, ◌++◌, String,
  if◌then◌else◌, ltb, ◌==◌, string_eq, nat_eq, filter, map, contains,
}
use beeflow.Prelude.Int.{ℤ, negsuc, int_eq}
use beeflow.Scheduler.Tables.{TaskInstance, TaskState, DagModel, is_deferred, is_running}
use beeflow.Scheduler.Query.{find_dag_model}

-- `TaskInstance.trigger_timeout < timezone.utcnow()`, which does not hold of NULL.
abbrev pub is_before : Option ℕ → ℕ → Bool
is_before none limit = false
is_before (some date) limit = ltb date limit

abbrev pub is_timed_out : ℕ → TaskInstance → Bool
is_timed_out now ti = is_deferred ti.state && is_before ti.trigger_timeout now

unfoldable pub fail_timed_out : ℕ → TaskInstance → TaskInstance
fail_timed_out now ti =
    if is_timed_out now ti
    then record ti {
      state = some TaskState.scheduled;
      next_method = some "__fail__";
      next_kwargs = ("error", "Trigger/execution timeout") ∷ [];
      trigger_id = none;
    }
    else ti

-- `check_trigger_timeouts`: how many rows the update changed, and the table after it.
unfoldable pub check_trigger_timeouts : ℕ → List TaskInstance → ℕ × List TaskInstance
unfolding fail_timed_out
check_trigger_timeouts now [] = (0, [])
check_trigger_timeouts now (ti ∷ tis) =
    let (n, rest) = check_trigger_timeouts now tis in
    ((if is_timed_out now ti then 1 else 0) + n, fail_timed_out now ti ∷ rest)

-- A row of the jobs, as far as the check for zombies reads it.
pub record LocalTaskJob : Type 0 where
  pub id : ℕ
  pub is_running : Bool
  pub latest_heartbeat : ℕ

pub record TaskCallbackRequest : Type 0 where
  pub full_filepath : String
  pub processor_subdir : Option String
  pub task_instance : TaskInstance
  pub msg : List (String × String)

-- `job.state != State.RUNNING or job.latest_heartbeat < limit_dttm`
abbrev pub is_lost : ℕ → LocalTaskJob → Bool
is_lost limit job = not job.is_running || ltb job.latest_heartbeat limit

abbrev pub is_queued_by : Option ℕ → ℕ → Bool
is_queued_by none id = false
is_queued_by (some job) id = job == id

-- The join with the jobs: whether the task instance's job is there, and is lost.
unfoldable pub has_lost_job : ℕ → List LocalTaskJob → Option ℕ → Bool
has_lost_job limit jobs none = false
has_lost_job limit [] (some id) = false
has_lost_job limit (job ∷ jobs) (some id) =
    job.id == id && is_lost limit job || has_lost_job limit jobs (some id)

abbrev pub is_zombie : ℕ → ℕ → List LocalTaskJob → TaskInstance → Bool
is_zombie id limit jobs ti =
    is_running ti.state && has_lost_job limit jobs ti.job_id && is_queued_by ti.queued_by_job_id id

-- A text that is there and is not empty.
abbrev pub optional : String → String → List (String × String)
optional key String.[] = []
optional key value = (key, value) ∷ []

abbrev pub optional_id : String → Option String → List (String × String)
optional_id key none = []
optional_id key (some value) = optional key value

-- `_generate_zombie_message_details`, with `str` for the map index.
unfoldable pub generate_zombie_message_details :
    (ℤ → String) → TaskInstance → List (String × String)
generate_zombie_message_details show ti =
    ("DAG Id", ti.dag_id)
    ∷ ("Task Id", ti.task_id)
    ∷ ("Run Id", ti.run_id)
    ∷ ((if ti.map_index == negsuc 0 then [] else ("Map Index", show ti.map_index) ∷ [])
        ++ (optional "Hostname" ti.hostname
            ++ optional_id "External Executor Id" ti.external_executor_id))

-- The join with the DAGs: a row without one is not in it.
unfoldable pub request_for :
    (ℤ → String) → TaskInstance → Option DagModel → List TaskCallbackRequest
unfolding generate_zombie_message_details
request_for show ti none = []
request_for show ti (some model) =
    record {
      full_filepath = model.fileloc;
      processor_subdir = model.processor_subdir;
      task_instance = ti;
      msg = generate_zombie_message_details show ti;
    }
    ∷ []

-- `_find_zombies`: the callbacks that it sends. Dates are seconds.
unfoldable pub find_zombies :
    (ℤ → String)
    → ℕ
    → ℕ
    → List LocalTaskJob
    → List DagModel
    → List TaskInstance
    → List TaskCallbackRequest
unfolding has_lost_job request_for
find_zombies show id limit jobs models [] = []
find_zombies show id limit jobs models (ti ∷ tis) =
    let rest = find_zombies show id limit jobs models tis in
    if is_zombie id limit jobs ti
    then request_for show ti (find_dag_model models ti.dag_id) ++ rest
    else rest

abbrev pub is_stale : ℕ → DagModel → Bool
is_stale limit m = m.is_active && ltb m.last_parsed_time limit

-- `_cleanup_stale_dags`, for `limit_lpt`: the DAGs, and the ids of the serialized DAGs.
unfoldable pub deactivate_stale : ℕ → List DagModel → List DagModel
deactivate_stale limit [] = []
deactivate_stale limit (m ∷ models) =
    (if is_stale limit m then record m { is_active = false } else m) ∷ deactivate_stale limit models

unfoldable pub stale_ids : ℕ → List DagModel → List String
stale_ids limit models = map (λ (m : DagModel). m.dag_id) (filter (is_stale limit) models)

unfoldable pub cleanup_stale_dags : ℕ → List DagModel → List String → List DagModel × List String
unfolding deactivate_stale stale_ids
cleanup_stale_dags limit models serialized = (
  deactivate_stale limit models,
  filter (λ dag_id. not (contains dag_id (stale_ids limit models))) serialized,
)
