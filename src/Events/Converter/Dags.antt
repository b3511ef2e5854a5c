-- ===== src/Events/Converter/Dags.antt =====
-- packages/events/database_passthrough_event_converter.py (under src/python/beeflow): the events that
-- the rows of task instances, DAGs and DAG runs become. DAGs and DAG runs stand here.
use beeflow.Prelude.{if◌then◌else◌, string_eq}
use beeflow.Prelude.Result.{Result, ok, err, ◌>>=◌}
use beeflow.Events.Json.{Json, Dict, Error, value_error, get}
use beeflow.Events.Models.{
  BeeflowEvent, new_dag_updated_event, new_dag_run_success, new_dag_run_failed, new_dag_run_running,
  new_dag_run_queued,
}
use beeflow.Events.Converter.Tasks.{is_state}
use beeflow.Events.Pydantic.{Pydantic}

unfoldable pub convert_to_dag_event : Pydantic → Dict → Result Error BeeflowEvent
convert_to_dag_event p m = do
  dag_id ← get "dag_id" m
  is_active ← get "is_active" m
  is_paused ← get "is_paused" m
  dag_id ← p.as_str dag_id
  is_paused ← p.as_bool is_paused
  is_active ← p.as_bool is_active
  ok (BeeflowEvent.dag_updated_event (new_dag_updated_event dag_id is_paused is_active))

unfoldable pub build_run_success : Pydantic → Dict → Result Error BeeflowEvent
build_run_success p m = do
  dag_id ← get "dag_id" m
  dag_hash ← get "dag_hash" m
  run_id ← get "run_id" m
  run_type ← get "run_type" m
  dag_id ← p.as_str dag_id
  dag_hash ← p.as_str dag_hash
  run_id ← p.as_str run_id
  run_type ← p.as_str run_type
  ok (BeeflowEvent.dag_run_success (new_dag_run_success dag_id dag_hash run_id run_type))

unfoldable pub build_run_failed : Pydantic → Dict → Result Error BeeflowEvent
build_run_failed p m = do
  dag_id ← get "dag_id" m
  dag_hash ← get "dag_hash" m
  run_id ← get "run_id" m
  run_type ← get "run_type" m
  dag_id ← p.as_str dag_id
  dag_hash ← p.as_str dag_hash
  run_id ← p.as_str run_id
  run_type ← p.as_str run_type
  ok (BeeflowEvent.dag_run_failed (new_dag_run_failed dag_id dag_hash run_id run_type))

unfoldable pub build_run_running : Pydantic → Dict → Result Error BeeflowEvent
build_run_running p m = do
  dag_id ← get "dag_id" m
  dag_hash ← get "dag_hash" m
  run_id ← get "run_id" m
  run_type ← get "run_type" m
  dag_id ← p.as_str dag_id
  dag_hash ← p.as_str dag_hash
  run_id ← p.as_str run_id
  run_type ← p.as_str run_type
  ok (BeeflowEvent.dag_run_running (new_dag_run_running dag_id dag_hash run_id run_type))

unfoldable pub build_run_queued : Pydantic → Dict → Result Error BeeflowEvent
build_run_queued p m = do
  dag_id ← get "dag_id" m
  dag_hash ← get "dag_hash" m
  run_id ← get "run_id" m
  run_type ← get "run_type" m
  dag_id ← p.as_str dag_id
  dag_hash ← p.as_str dag_hash
  run_id ← p.as_str run_id
  run_type ← p.as_str run_type
  ok (BeeflowEvent.dag_run_queued (new_dag_run_queued dag_id dag_hash run_id run_type))

-- `__convert_to_dag_run_event`. A row with no state is a KeyError.
unfoldable pub convert_run_state : Pydantic → Dict → Json → Result Error BeeflowEvent
convert_run_state p m state =
    if is_state "success" state
    then build_run_success p m
    else if is_state "failed" state
    then build_run_failed p m
    else if is_state "running" state
    then build_run_running p m
    else if is_state "queued" state
    then build_run_queued p m
    else err value_error

unfoldable pub convert_to_dag_run_event : Pydantic → Dict → Result Error BeeflowEvent
unfolding convert_run_state
convert_to_dag_run_event p m = do state ← get "state" m; convert_run_state p m state
