-- ===== src/Samples/Pipeline.antt =====
-- A queued row of src/python/beeflow on its way.
use beeflow.Prelude.{◌≡◌, refl, [], ◌∷◌, some, lookup, string_eq}
use beeflow.Prelude.Int.{pos}
use beeflow.Prelude.Result.{ok, ◌>>=◌, ◌>>◌}
use beeflow.Events.Json.{Fields, str, num, obj, end, field, entries}
use beeflow.Events.Models.{BeeflowEvent}
use beeflow.Forwarders.Rows.{prepare_value}
use beeflow.Forwarders.Dms.{KinesisStreamRecord, to_event_bridge_event}
use beeflow.Executors.Messages.{to_dict}
use beeflow.Executors.Start.{lambda_input, batch_input, start_one, execution_of}
use beeflow.Executors.Catch.{mark_task_as_failed, lambda_catcher, batch_catcher}
use beeflow.Pipeline.{IsQueuedRow, queued_row_reaches_executor}
use beeflow.Samples.{strict, strict-IsExact, queued_load}
use beeflow.Samples.Executors.{surroundings, catcher}

abbrev row : Fields
row = field "task_id" (str "load") (
    field "dag_id" (str "etl") (
      field "run_id" (str "r1") (
        field "state" (str "queued") (
          field "map_index" (num (pos 0)) (
            field "try_number" (num (pos 1)) (
              field "pool" (str "default_pool") (
                field "queue" (str "lambda")
                  (field "queued_dttm" (str "2023-01-01") (field "pid" (str "null") end)))))))))

abbrev metadata : Fields
metadata = field "operation" (str "update") (field "table-name" (str "task_instance") end)

abbrev change : KinesisStreamRecord
change = record {
  event_id = "1";
  data_as_json = ("data", obj row) ∷ ("metadata", obj metadata) ∷ [];
}

row-IsQueuedRow :
    IsQueuedRow (entries row) "etl" "r1" "load" (pos 0) (pos 1) "default_pool" "lambda" "2023-01-01"
unfolding entries lookup prepare_value beeflow.Forwarders.Rows.is_none_text
    beeflow.Forwarders.Rows.lowers_to beeflow.Forwarders.Rows.to_lower
row-IsQueuedRow = record {
  its_state = (refl, refl);
  its_dag = (refl, refl);
  its_run = (refl, refl);
  its_task = (refl, refl);
  its_index = (refl, refl);
  its_try = (refl, refl);
  its_pool = (refl, refl);
  its_queue = (refl, refl);
  its_time = (refl, refl);
}

queued_row_reaches_executor_example :
    (to_event_bridge_event strict change
      ≡ ok (
          some (record {
            beeflow_event = BeeflowEvent.task_instance_queued queued_load;
            input = change;
          })))
    × (start_one surroundings "arn" (lambda_input surroundings) (entries (to_dict queued_load))
        ≡ execution_of surroundings "arn" (lambda_input surroundings) queued_load)
    × (start_one surroundings "arn" (batch_input surroundings) (entries (to_dict queued_load))
        ≡ execution_of surroundings "arn" (batch_input surroundings) queued_load)
    × ((lambda_input surroundings queued_load >>= λ input.
          lambda_catcher surroundings catcher (entries input))
        ≡ (lambda_input surroundings queued_load
            >> (catcher.download_dags >> mark_task_as_failed catcher queued_load)))
    × ((batch_input surroundings queued_load >>= λ input.
          batch_catcher surroundings catcher (entries input))
        ≡ (batch_input surroundings queued_load
            >> (catcher.download_dags >> mark_task_as_failed catcher queued_load)))
unfolding lookup entries
queued_row_reaches_executor_example =
    queued_row_reaches_executor surroundings catcher "arn" change row metadata "etl" "r1" "load"
      (pos 0) (pos 1) "default_pool" "lambda" "2023-01-01" queued_load refl strict-IsExact refl refl
      refl refl refl row-IsQueuedRow
