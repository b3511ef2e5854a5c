-- ===== src/Samples/Forwarders.antt =====
-- Samples of lambdas/dms_cdc_forwarder (under src/python/beeflow).
use beeflow.Prelude.{
  ◌≡◌, refl, Bool, true, false, none, some, List, [], ◌∷◌, ◌++◌, String, lookup, string_eq, map,
  length, All, In,
}
use beeflow.Prelude.Int.{pos}
use beeflow.Prelude.Result.{Result, ok, err, ok_inj}
use mathlib.Core.Path.{subst}
use beeflow.Events.Converter.TaskTypes.{expected_type}
use beeflow.Events.Json.{Json, Dict, Error, Fields, null, str, num, obj, end, field, entries}
use beeflow.Events.Models.{new_task_instance_failed, BeeflowEvent}
use beeflow.Forwarders.Rows.{prepare_value, prepare_input}
use beeflow.Forwarders.Dms.{is_delete, KinesisStreamRecord, Entry, Handled, handle_records}
use beeflow.Forwarders.Dms.Batch.{ids, Reports, handle_records-Reports, handle_records_unmapped}
use beeflow.Samples.{strict}

abbrev row_in : String → Fields
row_in state = field "dag_id" (str "etl") (
    field "run_id" (str "r1") (
      field "task_id" (str "load") (
        field "map_index" (num (pos 0))
          (field "try_number" (num (pos 2)) (field "state" (str state) end)))))

abbrev metadata : Fields
metadata = field "operation" (str "update") (field "table-name" (str "task_instance") end)

abbrev record_in : String → KinesisStreamRecord
record_in state = record {
  event_id = state;
  data_as_json = ("data", obj (row_in state)) ∷ ("metadata", obj metadata) ∷ [];
}

-- A bus on which every entry fails.
abbrev failing_bus : List Entry → Result Error (List Bool)
failing_bus sent = ok (map (λ _. true) sent)

length-map : {A : Type 0} (xs : List A) → length (map (λ (_ : A). true) xs) ≡ length xs
length-map [] = refl
length-map (x ∷ xs) = rw (length-map xs) refl

abbrev handled : Handled
handled = record {
  batch_item_failures = "failed" ∷ [];
  puts =
      (record {
        detail =
            BeeflowEvent.task_instance_failed
              (new_task_instance_failed "etl" "r1" "load" (pos 0) (pos 2));
        detail_type = "TASK_INSTANCE_FAILED";
        source = "com.beeflow.dms_cdc_forwarder";
        event_bus_name = "bus";
      }
        ∷ [])
      ∷ [];
}

failed_row_handled : handle_records strict failing_bus "bus" (record_in "failed" ∷ []) ≡ ok handled
unfolding handle_records lookup entries beeflow.Events.Json.get beeflow.Events.Converter.convert
    beeflow.Events.Converter.Tasks.convert_to_task_instance_event prepare_input
    beeflow.Events.Converter.Tasks.build_failed beeflow.Events.Types.name
    beeflow.Events.Models.event_type new_task_instance_failed
failed_row_handled = refl

one_each :
    (sent : List Entry) (response : List Bool)
    → failing_bus sent ≡ ok response
    → length response ≡ length sent
one_each sent response h = subst (λ r. length r ≡ length sent) (ok_inj h) (length-map sent)

data_of_retry :
    lookup "data" (record_in "up_for_retry").data_as_json ≡ some (obj (row_in "up_for_retry"))
unfolding lookup
data_of_retry = refl

metadata_of_retry : lookup "metadata" (record_in "up_for_retry").data_as_json ≡ some (obj metadata)
unfolding lookup
metadata_of_retry = refl

update_is_kept : is_delete (lookup "operation" (entries metadata)) ≡ false
unfolding lookup entries
update_is_kept = refl

table_of_retry : lookup "table-name" (entries metadata) ≡ some (str "task_instance")
unfolding lookup entries
table_of_retry = refl

retry_has_no_type :
    expected_type (lookup "state" (prepare_input (entries (row_in "up_for_retry")))) ≡ none
unfolding lookup entries prepare_input prepare_value beeflow.Forwarders.Rows.is_none_text
retry_has_no_type = refl

handle_records-Reports_example :
    All (λ id. In id (ids (record_in "failed" ∷ []))) handled.batch_item_failures
    × Reports failing_bus handled
handle_records-Reports_example =
    handle_records-Reports strict failing_bus "bus" (record_in "failed" ∷ []) handled one_each
      failed_row_handled

handle_records_unmapped_example :
    (e : Error) × ((put_events : List Entry → Result Error (List Bool))
      → handle_records strict put_events "bus"
          ((record_in "failed" ∷ []) ++ record_in "up_for_retry" ∷ record_in "success" ∷ [])
        ≡ err e)
handle_records_unmapped_example =
    handle_records_unmapped strict "bus" (record_in "failed" ∷ []) (record_in "success" ∷ [])
      (record_in "up_for_retry") (row_in "up_for_retry") metadata data_of_retry metadata_of_retry
      update_is_kept table_of_retry retry_has_no_type
