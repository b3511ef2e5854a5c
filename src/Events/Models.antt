-- ===== src/Events/Models.antt =====
-- An event of packages/events (under src/python/beeflow): the subclasses of `BeeflowEvent`.
mod TaskInstance
mod DagRun
mod System
unfoldable pub use TaskInstance.*
unfoldable pub use DagRun.*
unfoldable pub use System.*
use beeflow.Events.Types.{BeeflowEventType}

pub data BeeflowEvent : Type 0 where
  task_instance_failed : TaskInstanceFailed → BeeflowEvent
  task_instance_queued : TaskInstanceQueued → BeeflowEvent
  task_instance_restarting : TaskInstanceRestarting → BeeflowEvent
  task_instance_running : TaskInstanceRunning → BeeflowEvent
  task_instance_scheduled : TaskInstanceScheduled → BeeflowEvent
  task_instance_shutdown : TaskInstanceShutdown → BeeflowEvent
  task_instance_skipped : TaskInstanceSkipped → BeeflowEvent
  task_instance_success : TaskInstanceSuccess → BeeflowEvent
  task_instance_unknown : TaskInstanceUnknown → BeeflowEvent
  task_instance_up_for_retry : TaskInstanceUpForRetry → BeeflowEvent
  task_instance_upstream_failed : TaskInstanceUpstreamFailed → BeeflowEvent
  dag_run_failed : DagRunFailed → BeeflowEvent
  dag_run_queued : DagRunQueued → BeeflowEvent
  dag_run_running : DagRunRunning → BeeflowEvent
  dag_run_success : DagRunSuccess → BeeflowEvent
  api_to_cli_forwarder_input : ApiToCliForwarderInput → BeeflowEvent
  cdc_input : CdcInput → BeeflowEvent
  dag_created_event : DagCreatedEvent → BeeflowEvent
  dag_cron_triggered : DagCronTriggered → BeeflowEvent
  dag_schedule_updater_empty_event : DagScheduleUpdaterEmptyEvent → BeeflowEvent
  dag_updated_event : DagUpdatedEvent → BeeflowEvent
  dags_processed : DagsProcessed → BeeflowEvent
  dags_processing_triggered : DagsProcessingTriggered → BeeflowEvent
  migration_completed : MigrationCompleted → BeeflowEvent
  new_cron_schedule_created : NewCronScheduleCreated → BeeflowEvent
  trigger_dags_processing_command : TriggerDagsProcessingCommand → BeeflowEvent

unfoldable pub event_type : BeeflowEvent → BeeflowEventType
event_type (task_instance_failed e) = e.event_type
event_type (task_instance_queued e) = e.event_type
event_type (task_instance_restarting e) = e.event_type
event_type (task_instance_running e) = e.event_type
event_type (task_instance_scheduled e) = e.event_type
event_type (task_instance_shutdown e) = e.event_type
event_type (task_instance_skipped e) = e.event_type
event_type (task_instance_success e) = e.event_type
event_type (task_instance_unknown e) = e.event_type
event_type (task_instance_up_for_retry e) = e.event_type
event_type (task_instance_upstream_failed e) = e.event_type
event_type (dag_run_failed e) = e.event_type
event_type (dag_run_queued e) = e.event_type
event_type (dag_run_running e) = e.event_type
event_type (dag_run_success e) = e.event_type
event_type (api_to_cli_forwarder_input e) = e.event_type
event_type (cdc_input e) = e.event_type
event_type (dag_created_event e) = e.event_type
event_type (dag_cron_triggered e) = e.event_type
event_type (dag_schedule_updater_empty_event e) = e.event_type
event_type (dag_updated_event e) = e.event_type
event_type (dags_processed e) = e.event_type
event_type (dags_processing_triggered e) = e.event_type
event_type (migration_completed e) = e.event_type
event_type (new_cron_schedule_created e) = e.event_type
event_type (trigger_dags_processing_command e) = e.event_type
