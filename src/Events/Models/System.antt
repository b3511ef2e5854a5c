-- ===== src/Events/Models/System.antt =====
-- The events of packages/events (under src/python/beeflow) on DAGs, crons, parsing and the CLI, and
-- their constructors.
use beeflow.Prelude.{Bool, List, String}
use beeflow.Events.Json.{Dict}
use beeflow.Events.Types.{BeeflowEventType}

pub record ApiToCliForwarderInput : Type 0 where
  pub event_type : BeeflowEventType
  pub args : List String

unfoldable pub new_api_to_cli_forwarder_input : List String → ApiToCliForwarderInput
new_api_to_cli_forwarder_input args = record {
  event_type = BeeflowEventType.api_to_cli_forwarder_input;
  args = args;
}

pub record CdcInput : Type 0 where
  pub event_type : BeeflowEventType
  pub metadata : Dict

unfoldable pub new_cdc_input : Dict → CdcInput
new_cdc_input metadata = record { event_type = BeeflowEventType.cdc_input; metadata = metadata }

pub record DagCreatedEvent : Type 0 where
  pub event_type : BeeflowEventType
  pub dag_id : String

unfoldable pub new_dag_created_event : String → DagCreatedEvent
new_dag_created_event dag_id = record { event_type = BeeflowEventType.dag_created; dag_id = dag_id }

pub record DagCronTriggered : Type 0 where
  pub event_type : BeeflowEventType
  pub dag_id : String
  pub trigger_time : String

unfoldable pub new_dag_cron_triggered : String → String → DagCronTriggered
new_dag_cron_triggered dag_id trigger_time = record {
  event_type = BeeflowEventType.dag_cron_triggered;
  dag_id = dag_id;
  trigger_time = trigger_time;
}

pub record DagScheduleUpdaterEmptyEvent : Type 0 where
  pub event_type : BeeflowEventType

unfoldable pub new_dag_schedule_updater_empty_event : DagScheduleUpdaterEmptyEvent
new_dag_schedule_updater_empty_event = record {
  event_type = BeeflowEventType.dag_schedule_updater_empty;
}

pub record DagUpdatedEvent : Type 0 where
  pub event_type : BeeflowEventType
  pub dag_id : String
  pub is_paused : Bool
  pub is_active : Bool

unfoldable pub new_dag_updated_event : String → Bool → Bool → DagUpdatedEvent
new_dag_updated_event dag_id is_paused is_active = record {
  event_type = BeeflowEventType.dag_updated;
  dag_id = dag_id;
  is_paused = is_paused;
  is_active = is_active;
}

pub record DagsProcessed : Type 0 where
  pub event_type : BeeflowEventType

unfoldable pub new_dags_processed : DagsProcessed
new_dags_processed = record { event_type = BeeflowEventType.dags_processed }

pub record DagsProcessingTriggered : Type 0 where
  pub event_type : BeeflowEventType

unfoldable pub new_dags_processing_triggered : DagsProcessingTriggered
new_dags_processing_triggered = record { event_type = BeeflowEventType.migration_completed }

pub record MigrationCompleted : Type 0 where
  pub event_type : BeeflowEventType

unfoldable pub new_migration_completed : MigrationCompleted
new_migration_completed = record { event_type = BeeflowEventType.migration_completed }

pub record NewCronScheduleCreated : Type 0 where
  pub event_type : BeeflowEventType
  pub dag_id : String
  pub rule_id : String

unfoldable pub new_new_cron_schedule_created : String → String → NewCronScheduleCreated
new_new_cron_schedule_created dag_id rule_id = record {
  event_type = BeeflowEventType.new_cron_created;
  dag_id = dag_id;
  rule_id = rule_id;
}

pub record TriggerDagsProcessingCommand : Type 0 where
  pub event_type : BeeflowEventType
  pub triggered_at : String

unfoldable pub new_trigger_dags_processing_command : String → TriggerDagsProcessingCommand
new_trigger_dags_processing_command triggered_at = record {
  event_type = BeeflowEventType.trigger_dags_processing_command;
  triggered_at = triggered_at;
}
