-- ===== src/Samples/Schedules.antt =====
-- Samples of lambdas/dag_schedule_updater and lambdas/change_data_capture_forwarder (under
-- src/python/beeflow).
use beeflow.Prelude.{ℕ, ◌≡◌, ◌≤◌, ◌⊎◌, refl, true, false, some, [], ◌∷◌, String, string_eq, lookup}
use beeflow.Prelude.Result.{Result, ok}
use beeflow.Events.Json.{Dict, Error, value_error, str, bool}
use beeflow.Events.Models.{
  BeeflowEvent, DagCreatedEvent, CdcInput, new_dag_updated_event, new_cdc_input,
}
use beeflow.Schedules.{cron, from_airflow_schedule_to_aws_cron, parse_created, parse_updated}
use beeflow.Schedules.Cron.{spaces, from_airflow_schedule_to_aws_cron_lem}
use beeflow.Schedules.Handlers.{parse_created-parse_updated}
use beeflow.Forwarders.Dms.{Entry}
use beeflow.Prelude.{zero, suc, inl, inr, ap, ◌∙◌, ◌<◌, arith}
use beeflow.Prelude.Result.{err, Result-cases}
use beeflow.Prelude.Retries.{IsLastAttempt}
use beeflow.Forwarders.Cdc.{entry_of, to_event_bridge_event, push_once, handler, handler-success}
use beeflow.Samples.{strict}

from_airflow_schedule_to_aws_cron_lem_example :
    ((4 ≤ spaces "0 0 * * *")
      × (expression : String) × (from_airflow_schedule_to_aws_cron (cron "0 0 * * *")
          ≡ ok expression))
    ⊎ ((spaces "0 0 * * *" < 4)
        × (from_airflow_schedule_to_aws_cron (cron "0 0 * * *") ≡ err value_error))
from_airflow_schedule_to_aws_cron_lem_example = from_airflow_schedule_to_aws_cron_lem "0 0 * * *"

midnight : from_airflow_schedule_to_aws_cron (cron "0 0 * * 1") ≡ ok "cron(0 0 * * 1 *)"
unfolding from_airflow_schedule_to_aws_cron
midnight = refl

abbrev updated_detail : Dict
updated_detail = ("dag_id", str "etl") ∷ ("is_paused", bool true) ∷ ("is_active", bool false) ∷ []

updated_detail_parses :
    parse_updated strict updated_detail ≡ ok (new_dag_updated_event "etl" true false)
unfolding parse_updated lookup new_dag_updated_event
updated_detail_parses = refl

parse_created-parse_updated_example :
    (created : DagCreatedEvent) × (parse_created strict updated_detail ≡ ok created)
    × (created.dag_id ≡ (new_dag_updated_event "etl" true false).dag_id)
parse_created-parse_updated_example =
    parse_created-parse_updated strict updated_detail (new_dag_updated_event "etl" true false)
      updated_detail_parses

abbrev created_input : CdcInput
created_input = new_cdc_input (("event_type", str "dag_created") ∷ ("dag_id", str "etl") ∷ [])

-- One attempt, and one more if it raises.
abbrev second_try : Result Error ℕ → Result Error ℕ → Result Error ℕ
second_try (ok failed) second = ok failed
second_try (err e) second = second

abbrev twice : (ℕ → Result Error ℕ) → Result Error ℕ
twice attempt = second_try (attempt 0) (attempt 1)

twice-IsLastAttempt : (attempt : ℕ → Result Error ℕ) → IsLastAttempt attempt (twice attempt)
twice-IsLastAttempt attempt = elim (Result-cases (attempt 0)) [
  | inl (failed, returned) ↦ record {
    number = 0;
    comes_to = rw returned refl;
    earlier = λ k h. absurd (omega (arith, h));
  }
  | inr (e, raised) ↦ record {
    number = 1;
    comes_to = rw raised refl;
    earlier = λ k h. (e, let first : k ≡ 0 = omega (arith, h) in ap attempt first ∙ raised);
  }
]

-- The first entry fails.
abbrev working_bus : ℕ → Entry → Result Error ℕ
working_bus zero entry = ok 1
working_bus (suc n) entry = ok 0

created_is_put : handler strict twice working_bus (some "bus") created_input ≡ ok true
unfolding handler lookup new_cdc_input beeflow.Events.Types.value
created_is_put = refl

handler-success_example :
    (true ≡ true)
    × ((e : BeeflowEvent) × (busname : String) × (n : ℕ) × (to_event_bridge_event strict
            created_input
          ≡ ok e)
        × (working_bus n (entry_of busname e) ≡ ok 0)
        × ((k : ℕ)
            → k < n
            → (x : Error) × (push_once strict (working_bus k) (some "bus") created_input ≡ err x)))
handler-success_example =
    handler-success strict twice twice-IsLastAttempt working_bus (some "bus") created_input true
      created_is_put
