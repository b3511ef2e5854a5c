-- ===== src/Schedules/Handlers.antt =====
-- The handlers of events in lambdas/dag_schedule_updater/dag_schedule_updater.py (under
-- src/python/beeflow).
use beeflow.Prelude.{◌≡◌, refl, Option, none, some, List, [], ◌++◌, lookup, string_eq}
use beeflow.Prelude.Result.{Result, ok, err, ok_inj, >>=-eq-ok}
use beeflow.Events.Json.{Json, Dict, Error, validation_error}
use beeflow.Events.Types.{BeeflowEventType}
use beeflow.Events.Models.{
  BeeflowEvent, DagCreatedEvent, DagUpdatedEvent, new_dag_schedule_updater_empty_event,
}
use beeflow.Events.Pydantic.{Pydantic}
use beeflow.Executors.Messages.{required, type_or_default}
use beeflow.Schedules.{
  Surroundings, Outcome, Call, raised, upsert_new_cron_schedule, parse_created, parse_updated,
}

-- What a handler did, and what it returned.
pub record Handled : Type 0 where
  pub calls : List Call
  pub result : Result Error (Option BeeflowEvent)

-- `except ValidationError`, which logs and lets the handler return None.
unfoldable pub catch_validation : Result Error BeeflowEvent → Result Error (Option BeeflowEvent)
catch_validation (ok e) = ok (some e)
catch_validation (err validation_error) = ok none
catch_validation (err e) = err e

abbrev pub caught : Outcome → Handled
caught o = record { calls = o.calls; result = catch_validation o.result }

unfoldable pub upsert_created : Surroundings → Result Error DagCreatedEvent → Outcome
upsert_created s (err e) = raised e
upsert_created s (ok event) = upsert_new_cron_schedule s event.dag_id

unfoldable pub upsert_updated : Surroundings → Result Error DagUpdatedEvent → Outcome
upsert_updated s (err e) = raised e
upsert_updated s (ok event) = upsert_new_cron_schedule s event.dag_id

unfoldable pub act_on_dag_created_event : Surroundings → Dict → Handled
unfolding upsert_created catch_validation
act_on_dag_created_event s detail = caught (upsert_created s (parse_created s.pydantic detail))

unfoldable pub act_on_dag_updated_event : Surroundings → Dict → Handled
unfolding upsert_updated catch_validation
act_on_dag_updated_event s detail = caught (upsert_updated s (parse_updated s.pydantic detail))

-- The loop of `act_on_event`: the first result that is not None is returned.
unfoldable pub take_result : List Call → Result Error (Option BeeflowEvent) → Outcome → Outcome
take_result calls (err e) rest = record { calls = calls; result = err e }
take_result calls (ok (some e)) rest = record { calls = calls; result = ok e }
take_result calls (ok none) rest = record { calls = calls ++ rest.calls; result = rest.result }

unfoldable pub first_result : Handled → Outcome → Outcome
unfolding take_result
first_result h rest = take_result h.calls h.result rest

unfoldable pub act_on_event : Surroundings → Dict → Outcome
unfolding first_result act_on_dag_created_event act_on_dag_updated_event
act_on_event s detail = first_result (act_on_dag_created_event s detail) (
    first_result (act_on_dag_updated_event s detail) (record {
      calls = [];
      result =
          ok (BeeflowEvent.dag_schedule_updater_empty_event new_dag_schedule_updater_empty_event);
    }))

-- A default event type changes nothing about whether a type is read.
type_or_default-any :
    (p : Pydantic) (t t' : BeeflowEventType) (o : Option Json) {read : BeeflowEventType}
    → type_or_default p t o ≡ ok read
    → (read' : BeeflowEventType) × (type_or_default p t' o ≡ ok read')
unfolding type_or_default
type_or_default-any p t t' none h = (t', refl)
type_or_default-any p t t' (some v) {read} h = (read, h)

-- Every detail that the second handler can parse, the first one parses before it, with the same DAG.
pub parse_created-parse_updated :
    (p : Pydantic) (detail : Dict) (updated : DagUpdatedEvent)
    → parse_updated p detail ≡ ok updated
    → (created : DagCreatedEvent) × (parse_created p detail ≡ ok created)
      × (created.dag_id ≡ updated.dag_id)
unfolding parse_created parse_updated
parse_created-parse_updated p detail updated h =
    let (type, typed, h1) =
      >>=-eq-ok (type_or_default p BeeflowEventType.dag_updated (lookup "event_type" detail)) _ h in
    let (dag_id, named, h2) = >>=-eq-ok (required p.as_str (lookup "dag_id" detail)) _ h1 in
    let (paused, _, h3) = >>=-eq-ok (required p.as_bool (lookup "is_paused" detail)) _ h2 in
    let (is_active, _, h4) = >>=-eq-ok (required p.as_bool (lookup "is_active" detail)) _ h3 in
    let (type', typed') =
      type_or_default-any p BeeflowEventType.dag_updated BeeflowEventType.dag_created _ typed in
    (record { event_type = type'; dag_id = dag_id }, rw (typed', named) refl, cc (ok_inj h4))
