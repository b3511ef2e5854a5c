-- ===== src/Schedules.antt =====
-- lambdas/dag_schedule_updater/dag_schedule_updater.py (under src/python/beeflow).
pub mod Cron
pub mod Handlers
use Prim.Native.Char.{code}
use Prim.Native.String.{◌++◌ as append}
use beeflow.Prelude.{
  ℕ, Bool, true, false, Option, none, some, List, [], ◌∷◌, String, if◌then◌else◌, nat_beq, lookup,
  string_eq,
}
use beeflow.Prelude.Result.{Result, ok, err, ◌>>=◌}
use beeflow.Events.Json.{Json, Dict, Error, key_error, value_error, validation_error}
use beeflow.Events.Types.{BeeflowEventType}
use beeflow.Events.Models.{
  BeeflowEvent, DagCreatedEvent, DagUpdatedEvent, DagCronTriggered, NewCronScheduleCreated,
  new_dag_cron_triggered, new_new_cron_schedule_created, new_dag_schedule_updater_empty_event,
}
use beeflow.Events.Pydantic.{Pydantic}
use beeflow.Executors.Messages.{required, type_or_default}

-- A schedule interval: a text, or a value of another type.
pub data ScheduleInterval : Type 0 where
  cron : String → ScheduleInterval
  interval : ScheduleInterval

-- `s.replace(c, '')`, for the character with the code point `d`.
unfoldable pub without : ℕ → String → String
without d String.[] = String.[]
without d (String.◌∷◌ c s) = if nat_beq (code c) d then without d s else String.◌∷◌ c (without d s)

unfoldable pub add_first : String → List String → List String
add_first c [] = c ∷ []
add_first c (part ∷ parts) = append c part ∷ parts

-- `s.split(' ')`
unfoldable pub split : String → List String
unfolding add_first
split String.[] = "" ∷ []
split (String.◌∷◌ c s) =
    if nat_beq (code c) 32 then "" ∷ split s else add_first (String.◌∷◌ c String.[]) (split s)

-- `s.replace("*", "?")`
unfoldable pub replace_stars : String → String
replace_stars String.[] = String.[]
replace_stars (String.◌∷◌ c s) =
    if nat_beq (code c) 42 then append "?" (replace_stars s) else String.◌∷◌ c (replace_stars s)

abbrev pub then_space : String → String → String
then_space s t = append s (append " " t)

unfoldable pub aws_cron : List String → Result Error String
unfolding replace_stars
aws_cron (minutes ∷ hours ∷ day_month ∷ month ∷ day_week ∷ _) = ok (
    append "cron(" (
      then_space minutes (
        then_space hours
          (then_space day_month (then_space month (then_space (replace_stars day_week) "*)"))))))
aws_cron _ = err value_error

unfoldable pub from_airflow_schedule_to_aws_cron : ScheduleInterval → Result Error String
unfolding aws_cron split without
from_airflow_schedule_to_aws_cron (cron s) = aws_cron (split (without 92 (without 34 s)))
from_airflow_schedule_to_aws_cron interval = err value_error

abbrev pub get_rule_state : Bool → String
get_rule_state true = "DISABLED"
get_rule_state false = "ENABLED"

-- A DAG, as far as the rule depends on it.
pub record Dag : Type 0 where
  pub dag_id : String
  pub normalized_schedule_interval : ScheduleInterval
  pub is_paused : Bool

-- The two calls, with the arguments that vary.
pub data Call : Type 0 where
  put_rule : String → String → String → Call
  put_targets : String → String → DagCronTriggered → String → Call

pub record Surroundings : Type 0 where
  pub environ : String → Option String
  pub get_dag_by_id : String → Result Error Dag
  pub pydantic : Pydantic
  -- what EventBridge answers
  pub answer : Call → Result Error (Unit {0})

-- What a function did, and how it ended.
pub record Outcome : Type 0 where
  pub calls : List Call
  pub result : Result Error BeeflowEvent

abbrev pub raised : Error → Outcome
raised e = record { calls = []; result = err e }

-- A call, and what comes after it unless it raises.
unfoldable pub after_call : Call → Result Error (Unit {0}) → Outcome → Outcome
after_call call (ok _) rest = record { calls = call ∷ rest.calls; result = rest.result }
after_call call (err e) rest = record { calls = call ∷ []; result = err e }

-- `os.environ[key]`
unfoldable pub with_variable : Option String → String → (String → Outcome) → Outcome
with_variable none key next = raised (key_error key)
with_variable (some v) key next = next v

abbrev pub target_arn : String
target_arn = "BEEFLOW__DAG_SCHEDULE_TARGET__SQS_ARN"

abbrev pub message_group_id : String
message_group_id = "BEEFLOW__DAG_SCHEDULE_TARGET__SQS_MESSAGE_GROUP_ID"

-- The second half: the target is attached to the rule.
unfoldable pub attach_target : Surroundings → String → Dag → String → String → Outcome
unfolding after_call
attach_target s dag_id dag target group =
    let call =
      put_targets dag.dag_id target (new_dag_cron_triggered dag.dag_id "<eventTime>") group in
    after_call call (s.answer call) (record {
      calls = [];
      result = ok (
          BeeflowEvent.new_cron_schedule_created (new_new_cron_schedule_created dag_id dag.dag_id));
    })

-- The first half: the rule is put, once its expression is there.
unfoldable pub put_rule_for : Surroundings → String → Dag → String → Result Error String → Outcome
unfolding attach_target after_call with_variable
put_rule_for s dag_id dag target (err e) = raised e
put_rule_for s dag_id dag target (ok expression) =
    let call = put_rule dag.dag_id expression (get_rule_state dag.is_paused) in
    after_call call (s.answer call) (
      with_variable (s.environ message_group_id) message_group_id
        (attach_target s dag_id dag target))

unfoldable pub upsert_for : Surroundings → String → Result Error Dag → Outcome
unfolding put_rule_for with_variable
upsert_for s dag_id (err e) = raised e
upsert_for s dag_id (ok dag) = with_variable (s.environ target_arn) target_arn (λ target.
    put_rule_for s dag_id dag target
      (from_airflow_schedule_to_aws_cron dag.normalized_schedule_interval))

unfoldable pub upsert_new_cron_schedule : Surroundings → String → Outcome
unfolding upsert_for
upsert_new_cron_schedule s dag_id = upsert_for s dag_id (s.get_dag_by_id dag_id)

-- `parse(event.detail, model=...)` for the two models.
unfoldable pub parse_created : Pydantic → Dict → Result Error DagCreatedEvent
unfolding required type_or_default
parse_created p d = do
  event_type ← type_or_default p BeeflowEventType.dag_created (lookup "event_type" d)
  dag_id ← required p.as_str (lookup "dag_id" d)
  ok (record { event_type = event_type; dag_id = dag_id })

unfoldable pub parse_updated : Pydantic → Dict → Result Error DagUpdatedEvent
unfolding required type_or_default
parse_updated p d = do
  event_type ← type_or_default p BeeflowEventType.dag_updated (lookup "event_type" d)
  dag_id ← required p.as_str (lookup "dag_id" d)
  is_paused ← required p.as_bool (lookup "is_paused" d)
  is_active ← required p.as_bool (lookup "is_active" d)
  ok (record {
    event_type = event_type;
    dag_id = dag_id;
    is_paused = is_paused;
    is_active = is_active;
  })
