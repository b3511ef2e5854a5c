-- ===== src/Forwarders/Cdc.antt =====
-- lambdas/change_data_capture_forwarder/change_data_capture_forwarder.py (under src/python/beeflow).
-- The decorator of `push_to_event_bridge` is a parameter: it gets the attempts by their number.
use beeflow.Prelude.{
  ℕ, ◌<◌, ◌≡◌, refl, ap, sym, ◌∙◌, Bool, true, false, Option, none, some, String, if◌then◌else◌,
  ltb, nat_beq, nat_beq_iff, ◌==◌, string_eq, lookup, arith,
}
use beeflow.Prelude.Retries.{IsLastAttempt}
use beeflow.Prelude.Result.{Result, ok, err, ◌>>=◌, >>=-eq-ok, ok_inj}
use beeflow.Events.Json.{Json, Dict, Error, key_error, value_error, service_error, str, get}
use beeflow.Events.Types.{BeeflowEventType, value, name}
use beeflow.Events.Models.{BeeflowEvent, event_type, CdcInput, new_dag_created_event}
use beeflow.Events.Pydantic.{Pydantic}
use beeflow.Events.Converter.{convert}
use beeflow.Forwarders.Dms.{Entry}

-- `event_type == BeeflowEventType.DAG_CREATED`: the members are texts.
abbrev pub is_dag_created : Json → Bool
is_dag_created (str s) = s == value BeeflowEventType.dag_created
is_dag_created _ = false

unfoldable pub dag_created : Pydantic → Dict → Result Error BeeflowEvent
unfolding get
dag_created p metadata = do
  v ← get "dag_id" metadata
  dag_id ← p.as_str v
  ok (BeeflowEvent.dag_created_event (new_dag_created_event dag_id))

unfoldable pub typed_event : Pydantic → Dict → Option Json → Result Error BeeflowEvent
unfolding dag_created
typed_event p metadata none = convert p none metadata
typed_event p metadata (some type) =
    if is_dag_created type then dag_created p metadata else err value_error

unfoldable pub to_event_bridge_event : Pydantic → CdcInput → Result Error BeeflowEvent
unfolding typed_event
to_event_bridge_event p event = typed_event p event.metadata (lookup "event_type" event.metadata)

abbrev pub entry_of : String → BeeflowEvent → Entry
entry_of busname e = record {
  detail = e;
  detail_type = name (event_type e);
  source = "com.beeflow.change_data_capture_forwarder";
  event_bus_name = busname;
}

-- `os.environ["EVENTBRIDGE_BUS_NAME"]`
abbrev pub bus_name : Option String → Result Error String
bus_name none = err (key_error "EVENTBRIDGE_BUS_NAME")
bus_name (some v) = ok v

-- The answer of `put_events` is its `FailedEntryCount`.
unfoldable pub check_response : ℕ → Result Error ℕ
check_response failed = if ltb 0 failed then err service_error else ok failed

-- One attempt of `push_to_event_bridge`.
unfoldable pub push_once :
    Pydantic → (Entry → Result Error ℕ) → Option String → CdcInput → Result Error ℕ
unfolding to_event_bridge_event check_response
push_once p put_events bus event = do
  e ← to_event_bridge_event p event
  busname ← bus_name bus
  failed ← put_events (entry_of busname e)
  check_response failed

-- `push_to_event_bridge`, for the service's answers to each attempt.
unfoldable pub push_to_event_bridge :
    Pydantic
    → ((ℕ → Result Error ℕ) → Result Error ℕ)
    → (ℕ → Entry → Result Error ℕ)
    → Option String
    → CdcInput
    → Result Error ℕ
unfolding push_once
push_to_event_bridge p retried put_events bus event =
    retried (λ n. push_once p (put_events n) bus event)

-- The handler's answer, as far as it depends on the response.
unfoldable pub handler :
    Pydantic
    → ((ℕ → Result Error ℕ) → Result Error ℕ)
    → (ℕ → Entry → Result Error ℕ)
    → Option String
    → CdcInput
    → Result Error Bool
unfolding push_to_event_bridge
handler p retried put_events bus event = do
  failed ← push_to_event_bridge p retried put_events bus event
  ok (nat_beq failed 0)

check_response-ok : (failed n : ℕ) → check_response failed ≡ ok n → nat_beq n 0 ≡ true
unfolding check_response
check_response-ok failed n h = ground arith

check_response-same : (failed n : ℕ) → check_response failed ≡ ok n → failed ≡ n
unfolding check_response
check_response-same failed n h = ground arith

module _ (p : Pydantic) (retried : (ℕ → Result Error ℕ) → Result Error ℕ)
    (last : (attempt : ℕ → Result Error ℕ) → IsLastAttempt attempt (retried attempt))
    (put_events : ℕ → Entry → Result Error ℕ) (bus : Option String) (event : CdcInput) where
  -- An event that cannot be converted is raised, with the error of the conversion, however often it is
  -- tried.
  pub handler_unconverted :
      (x : Error)
      → to_event_bridge_event p event ≡ err x
      → handler p retried put_events bus event ≡ err x
  unfolding handler push_to_event_bridge push_once
  handler_unconverted x unconverted =
      let attempts : ℕ → Result Error ℕ = λ n. push_once p (put_events n) bus event in
      let ended = last attempts in
      let raises : attempts ended.number ≡ err x = rw unconverted refl in
      ap (λ r. r >>= λ failed. ok (nat_beq failed 0)) (ended.comes_to ∙ raises)

  -- The handler never answers that it had no success. Whenever it returns, the event is converted, the
  -- last attempt puts it with no failed entry, every attempt before it raised, and the answer is
  -- success. The decorator comes to what its last attempt comes to, after attempts that raised.
  pub handler-success :
      (success : Bool)
      → handler p retried put_events bus event ≡ ok success
      → (success ≡ true)
        × ((e : BeeflowEvent) × (busname : String) × (n : ℕ) × (to_event_bridge_event p event
              ≡ ok e)
            × (put_events n (entry_of busname e) ≡ ok 0)
            × ((k : ℕ) → k < n → (x : Error) × (push_once p (put_events k) bus event ≡ err x)))
  unfolding handler push_to_event_bridge push_once
  handler-success success h =
      let attempts : ℕ → Result Error ℕ = λ n. push_once p (put_events n) bus event in
      let (n, pushed, answered) = >>=-eq-ok (retried attempts) _ h in
      let ended = last attempts in
      let (e, converted, h1) =
        >>=-eq-ok (to_event_bridge_event p event) _ (sym ended.comes_to ∙ pushed) in
      let (busname, _, h2) = >>=-eq-ok (bus_name bus) _ h1 in
      let (failed, put, checked) = >>=-eq-ok (put_events ended.number (entry_of busname e)) _ h2 in
      let none_failed = check_response-ok failed n checked in
      let same = check_response-same failed n checked in
      (
        sym (ok_inj answered) ∙ none_failed,
        (
          e,
          busname,
          ended.number,
          converted,
          put ∙ ap ok (same ∙ (nat_beq_iff n 0).0 none_failed),
          ended.earlier,
        ),
      )
