-- ===== src/Events/Models/TaskInstance.antt =====
-- The task instance events of packages/events (under src/python/beeflow), and their constructors
-- with the default event type of the class.
use beeflow.Prelude.{String}
use beeflow.Prelude.Int.{ℤ}
use beeflow.Events.Types.{BeeflowEventType}

pub record TaskInstanceFailed : Type 0 where
  pub event_type : BeeflowEventType
  pub dag_id : String
  pub run_id : String
  pub task_id : String
  pub map_index : ℤ
  pub try_number : ℤ

unfoldable pub new_task_instance_failed : String → String → String → ℤ → ℤ → TaskInstanceFailed
new_task_instance_failed dag_id run_id task_id map_index try_number = record {
  event_type = BeeflowEventType.task_instance_failed;
  dag_id = dag_id;
  run_id = run_id;
  task_id = task_id;
  map_index = map_index;
  try_number = try_number;
}

pub record TaskInstanceQueued : Type 0 where
  pub event_type : BeeflowEventType
  pub dag_id : String
  pub run_id : String
  pub task_id : String
  pub map_index : ℤ
  pub try_number : ℤ
  pub pool : String
  pub queue : String
  pub queued_dttm : String

unfoldable pub new_task_instance_queued :
    String → String → String → ℤ → ℤ → String → String → String → TaskInstanceQueued
new_task_instance_queued dag_id run_id task_id map_index try_number pool queue queued_dttm =
    record {
      event_type = BeeflowEventType.task_instance_queued;
      dag_id = dag_id;
      run_id = run_id;
      task_id = task_id;
      map_index = map_index;
      try_number = try_number;
      pool = pool;
      queue = queue;
      queued_dttm = queued_dttm;
    }

pub record TaskInstanceRestarting : Type 0 where
  pub event_type : BeeflowEventType
  pub dag_id : String
  pub run_id : String
  pub task_id : String

unfoldable pub new_task_instance_restarting : String → String → String → TaskInstanceRestarting
new_task_instance_restarting dag_id run_id task_id = record {
  event_type = BeeflowEventType.task_instance_restarting;
  dag_id = dag_id;
  run_id = run_id;
  task_id = task_id;
}

pub record TaskInstanceRunning : Type 0 where
  pub event_type : BeeflowEventType
  pub dag_id : String
  pub run_id : String
  pub task_id : String

unfoldable pub new_task_instance_running : String → String → String → TaskInstanceRunning
new_task_instance_running dag_id run_id task_id = record {
  event_type = BeeflowEventType.task_instance_running;
  dag_id = dag_id;
  run_id = run_id;
  task_id = task_id;
}

pub record TaskInstanceScheduled : Type 0 where
  pub event_type : BeeflowEventType
  pub dag_id : String
  pub run_id : String
  pub task_id : String

unfoldable pub new_task_instance_scheduled : String → String → String → TaskInstanceScheduled
new_task_instance_scheduled dag_id run_id task_id = record {
  event_type = BeeflowEventType.task_instance_scheduled;
  dag_id = dag_id;
  run_id = run_id;
  task_id = task_id;
}

pub record TaskInstanceShutdown : Type 0 where
  pub event_type : BeeflowEventType
  pub dag_id : String
  pub run_id : String
  pub task_id : String

unfoldable pub new_task_instance_shutdown : String → String → String → TaskInstanceShutdown
new_task_instance_shutdown dag_id run_id task_id = record {
  event_type = BeeflowEventType.task_instance_shutdown;
  dag_id = dag_id;
  run_id = run_id;
  task_id = task_id;
}

pub record TaskInstanceSkipped : Type 0 where
  pub event_type : BeeflowEventType
  pub dag_id : String
  pub run_id : String
  pub task_id : String
  pub try_number : ℤ

unfoldable pub new_task_instance_skipped : String → String → String → ℤ → TaskInstanceSkipped
new_task_instance_skipped dag_id run_id task_id try_number = record {
  event_type = BeeflowEventType.task_instance_skipped;
  dag_id = dag_id;
  run_id = run_id;
  task_id = task_id;
  try_number = try_number;
}

pub record TaskInstanceSuccess : Type 0 where
  pub event_type : BeeflowEventType
  pub dag_id : String
  pub run_id : String
  pub task_id : String
  pub map_index : ℤ
  pub try_number : ℤ

unfoldable pub new_task_instance_success : String → String → String → ℤ → ℤ → TaskInstanceSuccess
new_task_instance_success dag_id run_id task_id map_index try_number = record {
  event_type = BeeflowEventType.task_instance_success;
  dag_id = dag_id;
  run_id = run_id;
  task_id = task_id;
  map_index = map_index;
  try_number = try_number;
}

pub record TaskInstanceUnknown : Type 0 where
  pub event_type : BeeflowEventType
  pub dag_id : String
  pub run_id : String
  pub task_id : String

unfoldable pub new_task_instance_unknown : String → String → String → TaskInstanceUnknown
new_task_instance_unknown dag_id run_id task_id = record {
  event_type = BeeflowEventType.task_instance_unknown;
  dag_id = dag_id;
  run_id = run_id;
  task_id = task_id;
}

pub record TaskInstanceUpForRetry : Type 0 where
  pub event_type : BeeflowEventType
  pub dag_id : String
  pub run_id : String
  pub task_id : String
  pub map_index : ℤ
  pub try_number : ℤ

unfoldable pub new_task_instance_up_for_retry :
    String → String → String → ℤ → ℤ → TaskInstanceUpForRetry
new_task_instance_up_for_retry dag_id run_id task_id map_index try_number = record {
  event_type = BeeflowEventType.task_instance_up_for_retry;
  dag_id = dag_id;
  run_id = run_id;
  task_id = task_id;
  map_index = map_index;
  try_number = try_number;
}

pub record TaskInstanceUpstreamFailed : Type 0 where
  pub event_type : BeeflowEventType
  pub dag_id : String
  pub run_id : String
  pub task_id : String
  pub try_number : ℤ

unfoldable pub new_task_instance_upstream_failed :
    String → String → String → ℤ → TaskInstanceUpstreamFailed
new_task_instance_upstream_failed dag_id run_id task_id try_number = record {
  event_type = BeeflowEventType.task_instance_upstream_failed;
  dag_id = dag_id;
  run_id = run_id;
  task_id = task_id;
  try_number = try_number;
}
