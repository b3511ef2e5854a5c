-- ===== src/Forwarders/Dms.antt =====
-- lambdas/dms_cdc_forwarder/dms_cdc_forwarder.py (under src/python/beeflow).
pub mod Batch
use beeflow.Prelude.{
  ℕ, ◌≡◌, refl, Bool, true, false, not, ◌&&◌, ◌||◌, Option, none, some, List, [], ◌∷◌, String,
  if◌then◌else◌, ◌==◌, string_eq, lookup, map, length,
}
use beeflow.Prelude.Result.{Result, ok, err, ◌>>=◌}
use beeflow.Events.Json.{
  Json, Dict, Error, obj, str, null, entries, get, is_present, type_error, value_error,
}
use beeflow.Events.Types.{name}
use beeflow.Events.Models.{BeeflowEvent, event_type}
use beeflow.Events.Pydantic.{Pydantic}
use beeflow.Events.Converter.{convert}
use beeflow.Forwarders.Rows.{prepare_input}

-- A record of the stream: its id, and the JSON object that it carries.
pub record KinesisStreamRecord : Type 0 where
  pub event_id : String
  pub data_as_json : Dict

pub record EventbridgeInput : Type 0 where
  pub beeflow_event : BeeflowEvent
  pub input : KinesisStreamRecord

-- What is not an object makes the code raise.
unfoldable pub as_object : Json → Result Error Dict
as_object (obj fs) = ok (entries fs)
as_object _ = err type_error

abbrev pub is_delete : Option Json → Bool
is_delete (some (str operation)) = operation == "delete"
is_delete _ = false

-- The conversion with `table_name_hint`: None, a text, or a value that is equal to no table's name.
unfoldable pub convert_row : Pydantic → Json → Dict → Result Error BeeflowEvent
convert_row p null m = convert p none m
convert_row p (str table) m = convert p (some table) m
convert_row p _ m = err value_error

-- The end of `to_event_bridge_event`, for a record that has both parts.
unfoldable pub forward_row :
    Pydantic → KinesisStreamRecord → Json → Json → Result Error (Option EventbridgeInput)
unfolding as_object convert_row
forward_row p event data_part metadata_part = do
  metadata ← as_object metadata_part
  if is_delete (lookup "operation" metadata) then ok none else (do
    row ← as_object data_part
    hint ← get "table-name" metadata
    converted ← convert_row p hint (prepare_input row)
    ok (some (record { beeflow_event = converted; input = event })))

unfoldable pub forward_parts :
    Pydantic
    → KinesisStreamRecord
    → Option Json
    → Option Json
    → Result Error (Option EventbridgeInput)
unfolding forward_row
forward_parts p event (some data_part) (some metadata_part) =
    forward_row p event data_part metadata_part
forward_parts p event _ _ = ok none

unfoldable pub to_event_bridge_event :
    Pydantic → KinesisStreamRecord → Result Error (Option EventbridgeInput)
unfolding forward_parts
to_event_bridge_event p event =
    forward_parts p event (lookup "data" event.data_as_json) (lookup "metadata" event.data_as_json)

-- `transformed`: an exception at one record ends the comprehension.
unfoldable pub transform_all :
    Pydantic → List KinesisStreamRecord → Result Error (List (Option EventbridgeInput))
unfolding to_event_bridge_event
transform_all p [] = ok []
transform_all p (event ∷ events) = do
  x ← to_event_bridge_event p event
  xs ← transform_all p events
  ok (x ∷ xs)

-- `filtered`
unfoldable pub keep_some : List (Option EventbridgeInput) → List EventbridgeInput
keep_some [] = []
keep_some (none ∷ xs) = keep_some xs
keep_some (some x ∷ xs) = x ∷ keep_some xs

-- An entry of `put_events`. The event stands for its JSON text.
pub record Entry : Type 0 where
  pub detail : BeeflowEvent
  pub detail_type : String
  pub source : String
  pub event_bus_name : String

unfoldable pub to_entry : String → EventbridgeInput → Entry
to_entry busname entry = record {
  detail = entry.beeflow_event;
  detail_type = name (event_type entry.beeflow_event);
  source = "com.beeflow.dms_cdc_forwarder";
  event_bus_name = busname;
}

-- `failed_events`, from the response's entries: whether each has an 'ErrorCode'.
unfoldable pub failed_events : List Bool → List EventbridgeInput → List String
failed_events [] entries = []
failed_events (failed ∷ response) [] = []
failed_events (failed ∷ response) (event ∷ events) =
    if failed
    then event.input.event_id ∷ failed_events response events
    else failed_events response events

-- The answer of the handler, and the calls of `put_events` that it made.
pub record Handled : Type 0 where
  pub batch_item_failures : List String
  pub puts : List (List Entry)

unfoldable pub push :
    (List Entry → Result Error (List Bool)) → String → List EventbridgeInput → Result Error Handled
unfolding to_entry failed_events
push put_events busname [] = ok (record { batch_item_failures = []; puts = [] })
push put_events busname (x ∷ xs) = do
  let sent = map (to_entry busname) (x ∷ xs)
  response ← put_events sent
  ok (record { batch_item_failures = failed_events response (x ∷ xs); puts = sent ∷ [] })

unfoldable pub handle_records :
    Pydantic
    → (List Entry → Result Error (List Bool))
    → String
    → List KinesisStreamRecord
    → Result Error Handled
unfolding transform_all keep_some push
handle_records p put_events busname events = do
  transformed ← transform_all p events
  push put_events busname (keep_some transformed)
