-- ===== src/Samples/Events.antt =====
-- Samples of packages/events (under src/python/beeflow).
use beeflow.Prelude.{◌≡◌, refl, some, [], ◌∷◌, lookup, string_eq}
use beeflow.Prelude.Int.{pos}
use beeflow.Prelude.Result.{ok}
use beeflow.Events.Json.{Json, Dict, str, num}
use beeflow.Events.Models.{BeeflowEvent, event_type, new_task_instance_failed}
use beeflow.Events.Converter.Tasks.{convert_to_task_instance_event}
use beeflow.Events.Converter.TaskTypes.{expected_type, convert_to_task_instance_event_types}
use beeflow.Samples.{strict}

abbrev failed_row : Dict
failed_row =
    ("dag_id", str "etl")
    ∷ ("run_id", str "r1")
    ∷ ("task_id", str "load")
    ∷ ("map_index", num (pos 0))
    ∷ ("try_number", num (pos 2))
    ∷ ("state", str "failed")
    ∷ []

abbrev failed_event : BeeflowEvent
failed_event =
    BeeflowEvent.task_instance_failed (new_task_instance_failed "etl" "r1" "load" (pos 0) (pos 2))

failed_row_converts : convert_to_task_instance_event strict failed_row ≡ ok failed_event
unfolding convert_to_task_instance_event lookup beeflow.Events.Converter.Tasks.build_failed
    beeflow.Events.Json.get
failed_row_converts = refl

convert_to_task_instance_event_types_example :
    expected_type (lookup "state" failed_row) ≡ some (event_type failed_event)
convert_to_task_instance_event_types_example =
    convert_to_task_instance_event_types strict failed_row failed_event failed_row_converts
