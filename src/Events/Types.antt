-- ===== src/Events/Types.antt =====
-- packages/events/beeflow_event_type.py (under src/python/beeflow).
use beeflow.Prelude.{
  ◌≡◌, refl, Option, none, some, List, [], ◌∷◌, String, if◌then◌else◌, ◌==◌, string_eq,
}

pub data BeeflowEventType : Type 0 where
  migration_completed trigger_dags_processing_command dags_processing_triggered : BeeflowEventType
  dags_processed cdc_input new_cron_created : BeeflowEventType
  dag_cron_triggered dag_schedule_updater_empty api_to_cli_forwarder_input : BeeflowEventType
  dag_created dag_updated task_instance_queued : BeeflowEventType
  task_instance_scheduled task_instance_failed task_instance_success : BeeflowEventType
  task_instance_skipped task_instance_unknown task_instance_running : BeeflowEventType
  task_instance_up_for_retry task_instance_restarting task_instance_shutdown : BeeflowEventType
  task_instance_upstream_failed dag_run_success dag_run_failed : BeeflowEventType
  dag_run_running dag_run_queued : BeeflowEventType

-- A member's value, and its name.
unfoldable pub value : BeeflowEventType → String
value migration_completed = "migration_completed"
value trigger_dags_processing_command = "trigger_dags_processing_command"
value dags_processing_triggered = "dags_processing_triggered"
value dags_processed = "dags_processed"
value cdc_input = "cdc_input"
value new_cron_created = "new_cron_created"
value dag_cron_triggered = "dag_cron_triggered"
value dag_schedule_updater_empty = "dag_schedule_updater_empty"
value api_to_cli_forwarder_input = "api_to_cli_forwarder_input"
value dag_created = "dag_created"
value dag_updated = "dag_updated"
value task_instance_queued = "task_instance_queued"
value task_instance_scheduled = "task_instance_scheduled"
value task_instance_failed = "task_instance_failed"
value task_instance_success = "task_instance_success"
value task_instance_skipped = "task_instance_skipped"
value task_instance_unknown = "task_instance_unknown"
value task_instance_running = "task_instance_running"
value task_instance_up_for_retry = "task_instance_up_for_retry"
value task_instance_restarting = "task_instance_restarting"
value task_instance_shutdown = "task_instance_shutdown"
value task_instance_upstream_failed = "task_instance_upstream_failed"
value dag_run_success = "dag_run_success"
value dag_run_failed = "dag_run_failed"
value dag_run_running = "dag_run_running"
value dag_run_queued = "dag_run_queued"

unfoldable pub name : BeeflowEventType → String
name migration_completed = "MIGRATION_COMPLETED"
name trigger_dags_processing_command = "TRIGGER_DAGS_PROCESSING_COMMAND"
name dags_processing_triggered = "DAGS_PROCESSING_TRIGGERED"
name dags_processed = "DAGS_PROCESSED"
name cdc_input = "CDC_INPUT"
name new_cron_created = "NEW_CRON_CREATED"
name dag_cron_triggered = "DAG_CRON_TRIGGERED"
name dag_schedule_updater_empty = "DAG_SCHEDULE_UPDATER_EMPTY"
name api_to_cli_forwarder_input = "API_TO_CLI_FORWARDER_INPUT"
name dag_created = "DAG_CREATED"
name dag_updated = "DAG_UPDATED"
name task_instance_queued = "TASK_INSTANCE_QUEUED"
name task_instance_scheduled = "TASK_INSTANCE_SCHEDULED"
name task_instance_failed = "TASK_INSTANCE_FAILED"
name task_instance_success = "TASK_INSTANCE_SUCCESS"
name task_instance_skipped = "TASK_INSTANCE_SKIPPED"
name task_instance_unknown = "TASK_INSTANCE_UNKNOWN"
name task_instance_running = "TASK_INSTANCE_RUNNING"
name task_instance_up_for_retry = "TASK_INSTANCE_UP_FOR_RETRY"
name task_instance_restarting = "TASK_INSTANCE_RESTARTING"
name task_instance_shutdown = "TASK_INSTANCE_SHUTDOWN"
name task_instance_upstream_failed = "TASK_INSTANCE_UPSTREAM_FAILED"
name dag_run_success = "DAG_RUN_SUCCESS"
name dag_run_failed = "DAG_RUN_FAILED"
name dag_run_running = "DAG_RUN_RUNNING"
name dag_run_queued = "DAG_RUN_QUEUED"

abbrev pub members : List BeeflowEventType
members =
    migration_completed ∷ trigger_dags_processing_command ∷ dags_processing_triggered
    ∷ dags_processed ∷ cdc_input ∷ new_cron_created ∷ dag_cron_triggered
    ∷ dag_schedule_updater_empty ∷ api_to_cli_forwarder_input ∷ dag_created ∷ dag_updated
    ∷ task_instance_queued ∷ task_instance_scheduled ∷ task_instance_failed ∷ task_instance_success
    ∷ task_instance_skipped ∷ task_instance_unknown ∷ task_instance_running
    ∷ task_instance_up_for_retry ∷ task_instance_restarting ∷ task_instance_shutdown
    ∷ task_instance_upstream_failed ∷ dag_run_success ∷ dag_run_failed ∷ dag_run_running
    ∷ dag_run_queued ∷ []

unfoldable pub find_member : String → List BeeflowEventType → Option BeeflowEventType
find_member v [] = none
find_member v (t ∷ ts) = if value t == v then some t else find_member v ts

-- `BeeflowEventType(v)`: the member that has the value.
unfoldable pub of_value : String → Option BeeflowEventType
unfolding find_member value
of_value v = find_member v members

-- Every member is found again by its value, so no two members share one.
pub of_value-value : (t : BeeflowEventType) → of_value (value t) ≡ some t
unfolding of_value
of_value-value migration_completed = refl
of_value-value trigger_dags_processing_command = refl
of_value-value dags_processing_triggered = refl
of_value-value dags_processed = refl
of_value-value cdc_input = refl
of_value-value new_cron_created = refl
of_value-value dag_cron_triggered = refl
of_value-value dag_schedule_updater_empty = refl
of_value-value api_to_cli_forwarder_input = refl
of_value-value dag_created = refl
of_value-value dag_updated = refl
of_value-value task_instance_queued = refl
of_value-value task_instance_scheduled = refl
of_value-value task_instance_failed = refl
of_value-value task_instance_success = refl
of_value-value task_instance_skipped = refl
of_value-value task_instance_unknown = refl
of_value-value task_instance_running = refl
of_value-value task_instance_up_for_retry = refl
of_value-value task_instance_restarting = refl
of_value-value task_instance_shutdown = refl
of_value-value task_instance_upstream_failed = refl
of_value-value dag_run_success = refl
of_value-value dag_run_failed = refl
of_value-value dag_run_running = refl
of_value-value dag_run_queued = refl
