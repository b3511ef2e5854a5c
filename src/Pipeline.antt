-- ===== src/Pipeline.antt =====
-- The way of a queued task instance through src/python/beeflow: from its row in the stream of changes
-- (lambdas/dms_cdc_forwarder) to the executor's execution (lambdas/lambda_executor) and its catcher.
use beeflow.Prelude.{◌≡◌, refl, ap, ◌∙◌, false, some, String, lookup, string_eq}
use mathlib.Core.Option
use beeflow.Prelude.Int.{ℤ}
use beeflow.Prelude.Result.{ok, ◌>>=◌, ◌>>◌}
use beeflow.Events.Json.{Json, Dict, Fields, str, num, obj, entries, get, get-found}
use beeflow.Events.Models.{BeeflowEvent, TaskInstanceQueued, new_task_instance_queued}
use beeflow.Events.Pydantic.{Pydantic, IsExact}
use beeflow.Events.Converter.{convert, is_task_instance_event, is_table}
use beeflow.Events.Converter.Tasks.{
  build_queued, convert_task_state, convert_at_state, convert_to_task_instance_event,
}
use beeflow.Forwarders.Rows.{prepare_value, prepare_input, prepare_input_lem}
use beeflow.Forwarders.Dms.{
  KinesisStreamRecord, is_delete, convert_row, forward_row, forward_parts, to_event_bridge_event,
  as_object,
}
use beeflow.Executors.Messages.{to_dict, parse_queued-to_dict}
use beeflow.Executors.Start.{Surroundings, lambda_input, batch_input, start_one, execution_of}
use beeflow.Executors.Catch.{
  CatcherWorld, mark_task_as_failed, lambda_catcher, batch_catcher, catcher_reads_executor,
}

-- A column that has a value, which the forwarder does not take for a boolean or for None.
abbrev pub Holds : Dict → String → Json → Type 0
Holds row key v = (lookup key row ≡ some v) × (prepare_value v ≡ v)

-- A row of the table of task instances that is in the queued state, with the columns that are read.
pub record IsQueuedRow (row : Dict) (dag_id run_id task_id : String) (map_index try_number : ℤ)
    (pool queue queued_dttm : String) : Type 0 where
  pub its_state : Holds row "state" (str "queued")
  pub its_dag : Holds row "dag_id" (str dag_id)
  pub its_run : Holds row "run_id" (str run_id)
  pub its_task : Holds row "task_id" (str task_id)
  pub its_index : Holds row "map_index" (num map_index)
  pub its_try : Holds row "try_number" (num try_number)
  pub its_pool : Holds row "pool" (str pool)
  pub its_queue : Holds row "queue" (str queue)
  pub its_time : Holds row "queued_dttm" (str queued_dttm)

prepared :
    (row : Dict) (key : String) (v : Json)
    → Holds row key v
    → lookup key (prepare_input row) ≡ some v
prepared row key v h =
    (prepare_input_lem row key).0 ∙ ap (Option.map prepare_value) h.0 ∙ ap (λ x. some x) h.1

prepared_get :
    (row : Dict) (key : String) (v : Json) → Holds row key v → get key (prepare_input row) ≡ ok v
prepared_get row key v h = get-found key (prepare_input row) (prepared row key v h)

module _ (p : Pydantic) (exact : IsExact p) (row : Dict) (dag_id run_id task_id : String)
    (map_index try_number : ℤ) (pool queue queued_dttm : String)
    (queued : IsQueuedRow row dag_id run_id task_id map_index try_number pool queue
      queued_dttm) where
  built :
      build_queued p (prepare_input row)
      ≡ ok (
          BeeflowEvent.task_instance_queued (
            new_task_instance_queued dag_id run_id task_id map_index try_number pool queue
              queued_dttm))
  unfolding build_queued
  built =
      rw
        (
          prepared_get row "dag_id" (str dag_id) queued.its_dag,
          prepared_get row "run_id" (str run_id) queued.its_run,
          prepared_get row "task_id" (str task_id) queued.its_task,
          prepared_get row "map_index" (num map_index) queued.its_index,
          prepared_get row "pool" (str pool) queued.its_pool,
          prepared_get row "queue" (str queue) queued.its_queue,
          prepared_get row "try_number" (num try_number) queued.its_try,
          prepared_get row "queued_dttm" (str queued_dttm) queued.its_time,
        )
        (simp (exact.str_exact, exact.int_exact) refl)

  converted :
      convert p (some "task_instance") (prepare_input row)
      ≡ ok (
          BeeflowEvent.task_instance_queued (
            new_task_instance_queued dag_id run_id task_id map_index try_number pool queue
              queued_dttm))
  unfolding convert is_task_instance_event is_table convert_to_task_instance_event convert_at_state
      convert_task_state
  converted = rw (prepared row "state" (str "queued") queued.its_state) built

-- A record of the stream that carries a queued row of the table of task instances, and is no delete,
-- becomes the event of that task instance. From the dictionary of that event either executor starts
-- the execution for it, and from the input of the execution its catcher, once it has downloaded the
-- DAGs, reads the event and marks that task instance. Values of a field's type are taken as they are, `json.loads` reads back what
-- `json.dumps` writes for the event, and no column that is read is a text that stands for a boolean or
-- for None.
pub queued_row_reaches_executor :
    (s : Surroundings) (x : CatcherWorld) (machine : String) (event : KinesisStreamRecord)
    (row metadata : Fields) (dag_id run_id task_id : String) (map_index try_number : ℤ)
    (pool queue queued_dttm : String) (e : TaskInstanceQueued)
    → e ≡ new_task_instance_queued dag_id run_id task_id map_index try_number pool queue queued_dttm
    → IsExact s.pydantic
    → s.loads (s.dumps (to_dict e)) ≡ ok (obj (to_dict e))
    → lookup "data" event.data_as_json ≡ some (obj row)
    → lookup "metadata" event.data_as_json ≡ some (obj metadata)
    → is_delete (lookup "operation" (entries metadata)) ≡ false
    → lookup "table-name" (entries metadata) ≡ some (str "task_instance")
    → IsQueuedRow (entries row) dag_id run_id task_id map_index try_number pool queue queued_dttm
    → (to_event_bridge_event s.pydantic event
        ≡ ok (some (record { beeflow_event = BeeflowEvent.task_instance_queued e; input = event })))
      × (start_one s machine (lambda_input s) (entries (to_dict e))
          ≡ execution_of s machine (lambda_input s) e)
      × (start_one s machine (batch_input s) (entries (to_dict e))
          ≡ execution_of s machine (batch_input s) e)
      × ((lambda_input s e >>= λ input. lambda_catcher s x (entries input))
          ≡ (lambda_input s e >> (x.download_dags >> mark_task_as_failed x e)))
      × ((batch_input s e >>= λ input. batch_catcher s x (entries input))
          ≡ (batch_input s e >> (x.download_dags >> mark_task_as_failed x e)))
unfolding to_event_bridge_event forward_parts forward_row as_object convert_row start_one
queued_row_reaches_executor s x machine event row metadata dag_id run_id task_id map_index
      try_number pool queue queued_dttm e its_event exact reads its_data its_metadata kept table
      queued =
    let (lambda_caught, batch_caught) = catcher_reads_executor s x e exact reads in
    (
      rw
          (
            its_data,
            its_metadata,
            kept,
            get-found "table-name" (entries metadata) table,
            converted s.pydantic exact (entries row) dag_id run_id task_id map_index try_number pool
                queue queued_dttm queued,
            its_event,
          )
          refl,
      rw (parse_queued-to_dict s.pydantic e exact) refl,
      rw (parse_queued-to_dict s.pydantic e exact) refl,
      lambda_caught,
      batch_caught,
    )
