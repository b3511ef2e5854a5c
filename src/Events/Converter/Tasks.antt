-- ===== src/Events/Converter/Tasks.antt =====
-- packages/events/database_passthrough_event_converter.py (under src/python/beeflow): the events that
-- the rows of task instances, DAGs and DAG runs become. Task instances stand here.
use beeflow.Prelude.{
  Bool, false, Option, none, some, String, if◌then◌else◌, ◌==◌, string_eq, lookup,
}
use beeflow.Prelude.Result.{Result, ok, err, ◌>>=◌}
use beeflow.Events.Json.{Json, Dict, Error, value_error, get, is_null, str}
use beeflow.Events.Models.{
  BeeflowEvent, new_task_instance_unknown, new_task_instance_queued, new_task_instance_failed,
  new_task_instance_upstream_failed, new_task_instance_success, new_task_instance_skipped,
  new_task_instance_running, new_task_instance_restarting, new_task_instance_shutdown,
  new_task_instance_scheduled,
}
use beeflow.Events.Pydantic.{Pydantic}

unfoldable pub build_unknown : Pydantic → Dict → Result Error BeeflowEvent
build_unknown p m = do
  dag_id ← get "dag_id" m
  run_id ← get "run_id" m
  task_id ← get "task_id" m
  dag_id ← p.as_str dag_id
  run_id ← p.as_str run_id
  task_id ← p.as_str task_id
  ok (BeeflowEvent.task_instance_unknown (new_task_instance_unknown dag_id run_id task_id))

unfoldable pub build_queued : Pydantic → Dict → Result Error BeeflowEvent
build_queued p m = do
  dag_id ← get "dag_id" m
  run_id ← get "run_id" m
  task_id ← get "task_id" m
  map_index ← get "map_index" m
  pool ← get "pool" m
  queue ← get "queue" m
  try_number ← get "try_number" m
  queued_dttm ← get "queued_dttm" m
  dag_id ← p.as_str dag_id
  run_id ← p.as_str run_id
  task_id ← p.as_str task_id
  map_index ← p.as_int map_index
  try_number ← p.as_int try_number
  pool ← p.as_str pool
  queue ← p.as_str queue
  queued_dttm ← p.as_str queued_dttm
  ok (
      BeeflowEvent.task_instance_queued (
        new_task_instance_queued dag_id run_id task_id map_index try_number pool queue queued_dttm))

unfoldable pub build_failed : Pydantic → Dict → Result Error BeeflowEvent
build_failed p m = do
  dag_id ← get "dag_id" m
  run_id ← get "run_id" m
  task_id ← get "task_id" m
  map_index ← get "map_index" m
  try_number ← get "try_number" m
  dag_id ← p.as_str dag_id
  run_id ← p.as_str run_id
  task_id ← p.as_str task_id
  map_index ← p.as_int map_index
  try_number ← p.as_int try_number
  ok (
      BeeflowEvent.task_instance_failed
        (new_task_instance_failed dag_id run_id task_id map_index try_number))

unfoldable pub build_upstream_failed : Pydantic → Dict → Result Error BeeflowEvent
build_upstream_failed p m = do
  dag_id ← get "dag_id" m
  run_id ← get "run_id" m
  task_id ← get "task_id" m
  try_number ← get "try_number" m
  dag_id ← p.as_str dag_id
  run_id ← p.as_str run_id
  task_id ← p.as_str task_id
  try_number ← p.as_int try_number
  ok (
      BeeflowEvent.task_instance_upstream_failed
        (new_task_instance_upstream_failed dag_id run_id task_id try_number))

unfoldable pub build_success : Pydantic → Dict → Result Error BeeflowEvent
build_success p m = do
  dag_id ← get "dag_id" m
  run_id ← get "run_id" m
  task_id ← get "task_id" m
  map_index ← get "map_index" m
  try_number ← get "try_number" m
  dag_id ← p.as_str dag_id
  run_id ← p.as_str run_id
  task_id ← p.as_str task_id
  map_index ← p.as_int map_index
  try_number ← p.as_int try_number
  ok (
      BeeflowEvent.task_instance_success
        (new_task_instance_success dag_id run_id task_id map_index try_number))

unfoldable pub build_skipped : Pydantic → Dict → Result Error BeeflowEvent
build_skipped p m = do
  dag_id ← get "dag_id" m
  run_id ← get "run_id" m
  task_id ← get "task_id" m
  try_number ← get "try_number" m
  dag_id ← p.as_str dag_id
  run_id ← p.as_str run_id
  task_id ← p.as_str task_id
  try_number ← p.as_int try_number
  ok (
      BeeflowEvent.task_instance_skipped
        (new_task_instance_skipped dag_id run_id task_id try_number))

unfoldable pub build_running : Pydantic → Dict → Result Error BeeflowEvent
build_running p m = do
  dag_id ← get "dag_id" m
  run_id ← get "run_id" m
  task_id ← get "task_id" m
  dag_id ← p.as_str dag_id
  run_id ← p.as_str run_id
  task_id ← p.as_str task_id
  ok (BeeflowEvent.task_instance_running (new_task_instance_running dag_id run_id task_id))

unfoldable pub build_restarting : Pydantic → Dict → Result Error BeeflowEvent
build_restarting p m = do
  dag_id ← get "dag_id" m
  run_id ← get "run_id" m
  task_id ← get "task_id" m
  dag_id ← p.as_str dag_id
  run_id ← p.as_str run_id
  task_id ← p.as_str task_id
  ok (BeeflowEvent.task_instance_restarting (new_task_instance_restarting dag_id run_id task_id))

unfoldable pub build_shutdown : Pydantic → Dict → Result Error BeeflowEvent
build_shutdown p m = do
  dag_id ← get "dag_id" m
  run_id ← get "run_id" m
  task_id ← get "task_id" m
  dag_id ← p.as_str dag_id
  run_id ← p.as_str run_id
  task_id ← p.as_str task_id
  ok (BeeflowEvent.task_instance_shutdown (new_task_instance_shutdown dag_id run_id task_id))

unfoldable pub build_scheduled : Pydantic → Dict → Result Error BeeflowEvent
build_scheduled p m = do
  dag_id ← get "dag_id" m
  run_id ← get "run_id" m
  task_id ← get "task_id" m
  dag_id ← p.as_str dag_id
  run_id ← p.as_str run_id
  task_id ← p.as_str task_id
  ok (BeeflowEvent.task_instance_scheduled (new_task_instance_scheduled dag_id run_id task_id))

-- `self.metadata["state"] == name`
unfoldable pub is_state : String → Json → Bool
is_state name (str s) = name == s
is_state name _ = false

-- The chain of tests on a state that is there.
unfoldable pub convert_task_state : Pydantic → Dict → Json → Result Error BeeflowEvent
unfolding is_state
convert_task_state p m state =
    if is_state "queued" state
    then build_queued p m
    else if is_state "failed" state
    then build_failed p m
    else if is_state "upstream_failed" state
    then build_upstream_failed p m
    else if is_state "success" state
    then build_success p m
    else if is_state "skipped" state
    then build_skipped p m
    else if is_state "running" state
    then build_running p m
    else if is_state "restarting" state
    then build_restarting p m
    else if is_state "shutdown" state
    then build_shutdown p m
    else if is_state "scheduled" state
    then build_scheduled p m
    else err value_error

-- `__convert_to_task_instance_event`, at what the row has for a state.
unfoldable pub convert_at_state : Pydantic → Dict → Option Json → Result Error BeeflowEvent
unfolding convert_task_state build_unknown
convert_at_state p m none = build_unknown p m
convert_at_state p m (some state) =
    if is_null state then build_unknown p m else convert_task_state p m state

unfoldable pub convert_to_task_instance_event : Pydantic → Dict → Result Error BeeflowEvent
unfolding convert_at_state
convert_to_task_instance_event p m = convert_at_state p m (lookup "state" m)
