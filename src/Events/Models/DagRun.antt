-- ===== src/Events/Models/DagRun.antt =====
-- The DAG run events of packages/events (under src/python/beeflow), and their constructors.
use beeflow.Prelude.{String}
use beeflow.Events.Types.{BeeflowEventType}

pub record DagRunFailed : Type 0 where
  pub event_type : BeeflowEventType
  pub dag_id : String
  pub dag_hash : String
  pub run_id : String
  pub run_type : String

unfoldable pub new_dag_run_failed : String → String → String → String → DagRunFailed
new_dag_run_failed dag_id dag_hash run_id run_type = record {
  event_type = BeeflowEventType.dag_run_failed;
  dag_id = dag_id;
  dag_hash = dag_hash;
  run_id = run_id;
  run_type = run_type;
}

pub record DagRunQueued : Type 0 where
  pub event_type : BeeflowEventType
  pub dag_id : String
  pub dag_hash : String
  pub run_id : String
  pub run_type : String

unfoldable pub new_dag_run_queued : String → String → String → String → DagRunQueued
new_dag_run_queued dag_id dag_hash run_id run_type = record {
  event_type = BeeflowEventType.dag_run_queued;
  dag_id = dag_id;
  dag_hash = dag_hash;
  run_id = run_id;
  run_type = run_type;
}

pub record DagRunRunning : Type 0 where
  pub event_type : BeeflowEventType
  pub dag_id : String
  pub dag_hash : String
  pub run_id : String
  pub run_type : String

unfoldable pub new_dag_run_running : String → String → String → String → DagRunRunning
new_dag_run_running dag_id dag_hash run_id run_type = record {
  event_type = BeeflowEventType.dag_run_running;
  dag_id = dag_id;
  dag_hash = dag_hash;
  run_id = run_id;
  run_type = run_type;
}

pub record DagRunSuccess : Type 0 where
  pub event_type : BeeflowEventType
  pub dag_id : String
  pub dag_hash : String
  pub run_id : String
  pub run_type : String

unfoldable pub new_dag_run_success : String → String → String → String → DagRunSuccess
new_dag_run_success dag_id dag_hash run_id run_type = record {
  event_type = BeeflowEventType.dag_run_success;
  dag_id = dag_id;
  dag_hash = dag_hash;
  run_id = run_id;
  run_type = run_type;
}
