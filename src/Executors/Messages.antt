-- ===== src/Executors/Messages.antt =====
-- The event of packages/events/task_instance_queued_event.py (under src/python/beeflow) as a JSON
-- object, and back.
use beeflow.Prelude.{◌≡◌, refl, Option, none, some, lookup, string_eq}
use beeflow.Prelude.Result.{Result, ok, err, ◌>>=◌}
use beeflow.Events.Json.{Json, Dict, Fields, Error, validation_error, str, num, end, field, entries}
use beeflow.Events.Types.{BeeflowEventType, value, of_value, of_value-value}
use beeflow.Events.Models.{TaskInstanceQueued}
use beeflow.Events.Pydantic.{Pydantic, IsExact}

-- `event.dict()`, in the order of the fields.
unfoldable pub to_dict : TaskInstanceQueued → Fields
to_dict e = field "event_type" (str (value e.event_type)) (
    field "dag_id" (str e.dag_id) (
      field "run_id" (str e.run_id) (
        field "task_id" (str e.task_id) (
          field "map_index" (num e.map_index) (
            field "try_number" (num e.try_number) (
              field "pool" (str e.pool)
                (field "queue" (str e.queue) (field "queued_dttm" (str e.queued_dttm) end))))))))

-- A field that has no default.
unfoldable pub required : {A : Type 0} → (Json → Result Error A) → Option Json → Result Error A
required coerce none = err validation_error
required coerce (some v) = coerce v

unfoldable pub member : Option BeeflowEventType → Result Error BeeflowEventType
member none = err validation_error
member (some t) = ok t

-- The field `event_type`, which has a default.
unfoldable pub type_or_default :
    Pydantic → BeeflowEventType → Option Json → Result Error BeeflowEventType
unfolding member
type_or_default p default none = ok default
type_or_default p default (some v) = do s ← p.as_str v; member (of_value s)

-- `parse(event, model=TaskInstanceQueued)`
unfoldable pub parse_queued : Pydantic → Dict → Result Error TaskInstanceQueued
unfolding required type_or_default
parse_queued p d = do
  event_type ← type_or_default p BeeflowEventType.task_instance_queued (lookup "event_type" d)
  dag_id ← required p.as_str (lookup "dag_id" d)
  run_id ← required p.as_str (lookup "run_id" d)
  task_id ← required p.as_str (lookup "task_id" d)
  map_index ← required p.as_int (lookup "map_index" d)
  try_number ← required p.as_int (lookup "try_number" d)
  pool ← required p.as_str (lookup "pool" d)
  queue ← required p.as_str (lookup "queue" d)
  queued_dttm ← required p.as_str (lookup "queued_dttm" d)
  ok (record {
    event_type = event_type;
    dag_id = dag_id;
    run_id = run_id;
    task_id = task_id;
    map_index = map_index;
    try_number = try_number;
    pool = pool;
    queue = queue;
    queued_dttm = queued_dttm;
  })

-- Parsing the dictionary of an event gives the event back, where values of a field's type are taken as
-- they are.
pub parse_queued-to_dict :
    (p : Pydantic) (e : TaskInstanceQueued)
    → IsExact p
    → parse_queued p (entries (to_dict e)) ≡ ok e
unfolding parse_queued to_dict entries lookup
parse_queued-to_dict p e exact = simp (exact.str_exact, exact.int_exact, of_value-value) refl
