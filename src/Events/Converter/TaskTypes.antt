-- ===== src/Events/Converter/TaskTypes.antt =====
-- The event types of task instance rows (Events/Converter/Tasks), against a table of the states.
use beeflow.Prelude.{
  ◌≡◌, refl, sym, ap, false, Option, none, some, List, [], ◌∷◌, String, string_eq, lookup, arith,
}
use beeflow.Prelude.Result.{ok, err}
use beeflow.Events.Json.{Json, Dict, value_error, is_null, null, str}
use beeflow.Events.Types.{BeeflowEventType}
use beeflow.Events.Models.{
  BeeflowEvent, event_type, new_task_instance_unknown, new_task_instance_queued,
  new_task_instance_failed, new_task_instance_upstream_failed, new_task_instance_success,
  new_task_instance_skipped, new_task_instance_running, new_task_instance_restarting,
  new_task_instance_shutdown, new_task_instance_scheduled,
}
use beeflow.Events.Pydantic.{Pydantic}
use beeflow.Events.Converter.Tasks.{
  convert_task_state, convert_at_state, convert_to_task_instance_event, build_unknown, build_queued,
  build_failed, build_upstream_failed, build_success, build_skipped, build_running,
  build_restarting, build_shutdown, build_scheduled,
}

-- The states that have an event.
abbrev pub state_types : List (String × BeeflowEventType)
state_types =
    ("queued", BeeflowEventType.task_instance_queued)
    ∷ ("failed", BeeflowEventType.task_instance_failed)
    ∷ ("upstream_failed", BeeflowEventType.task_instance_upstream_failed)
    ∷ ("success", BeeflowEventType.task_instance_success)
    ∷ ("skipped", BeeflowEventType.task_instance_skipped)
    ∷ ("running", BeeflowEventType.task_instance_running)
    ∷ ("restarting", BeeflowEventType.task_instance_restarting)
    ∷ ("shutdown", BeeflowEventType.task_instance_shutdown)
    ∷ ("scheduled", BeeflowEventType.task_instance_scheduled)
    ∷ []

-- The event type of a row's state; none for a state that is no text, or is not in the table.
abbrev pub type_of_state : Json → Option BeeflowEventType
type_of_state null = some BeeflowEventType.task_instance_unknown
type_of_state (str s) = lookup s state_types
type_of_state _ = none

abbrev pub expected_type : Option Json → Option BeeflowEventType
expected_type none = some BeeflowEventType.task_instance_unknown
expected_type (some state) = type_of_state state

module _ (p : Pydantic) (m : Dict) {e : BeeflowEvent} where
  unknown_type : build_unknown p m ≡ ok e → event_type e ≡ BeeflowEventType.task_instance_unknown
  unfolding build_unknown event_type new_task_instance_unknown
  unknown_type h = ground arith

  queued_type : build_queued p m ≡ ok e → event_type e ≡ BeeflowEventType.task_instance_queued
  unfolding build_queued event_type new_task_instance_queued
  queued_type h = ground arith

  failed_type : build_failed p m ≡ ok e → event_type e ≡ BeeflowEventType.task_instance_failed
  unfolding build_failed event_type new_task_instance_failed
  failed_type h = ground arith

  upstream_failed_type :
      build_upstream_failed p m ≡ ok e
      → event_type e ≡ BeeflowEventType.task_instance_upstream_failed
  unfolding build_upstream_failed event_type new_task_instance_upstream_failed
  upstream_failed_type h = ground arith

  success_type : build_success p m ≡ ok e → event_type e ≡ BeeflowEventType.task_instance_success
  unfolding build_success event_type new_task_instance_success
  success_type h = ground arith

  skipped_type : build_skipped p m ≡ ok e → event_type e ≡ BeeflowEventType.task_instance_skipped
  unfolding build_skipped event_type new_task_instance_skipped
  skipped_type h = ground arith

  running_type : build_running p m ≡ ok e → event_type e ≡ BeeflowEventType.task_instance_running
  unfolding build_running event_type new_task_instance_running
  running_type h = ground arith

  restarting_type :
      build_restarting p m ≡ ok e → event_type e ≡ BeeflowEventType.task_instance_restarting
  unfolding build_restarting event_type new_task_instance_restarting
  restarting_type h = ground arith

  shutdown_type : build_shutdown p m ≡ ok e → event_type e ≡ BeeflowEventType.task_instance_shutdown
  unfolding build_shutdown event_type new_task_instance_shutdown
  shutdown_type h = ground arith

  scheduled_type :
      build_scheduled p m ≡ ok e → event_type e ≡ BeeflowEventType.task_instance_scheduled
  unfolding build_scheduled event_type new_task_instance_scheduled
  scheduled_type h = ground arith

  convert_task_state_type :
      (state : Json)
      → is_null state ≡ false
      → convert_task_state p m state ≡ ok e
      → type_of_state state ≡ some (event_type e)
  unfolding convert_task_state lookup
  convert_task_state_type null h k = cc
  convert_task_state_type (str s) h k = ground (
    arith, queued_type, failed_type, upstream_failed_type, success_type, skipped_type, running_type,
    restarting_type, shutdown_type, scheduled_type,
  )
  convert_task_state_type _ h k = cc

convert_task_state_rejects :
    (p : Pydantic) (m : Dict) (state : Json)
    → type_of_state state ≡ none
    → convert_task_state p m state ≡ err value_error
unfolding convert_task_state lookup
convert_task_state_rejects p m null h = cc
convert_task_state_rejects p m (str s) h = ground arith
convert_task_state_rejects p m _ h = refl

convert_at_state_types :
    (p : Pydantic) (m : Dict) (state : Option Json)
    → ((e : BeeflowEvent)
        → convert_at_state p m state ≡ ok e
        → expected_type state ≡ some (event_type e))
      × (expected_type state ≡ none → convert_at_state p m state ≡ err value_error)
unfolding convert_at_state
convert_at_state_types p m none = ((λ e h. ap some (sym (unknown_type p m h))), λ h. cc)
convert_at_state_types p m (some null) = ((λ e h. ap some (sym (unknown_type p m h))), λ h. cc)
convert_at_state_types p m (some state) =
    ((λ e h. convert_task_state_type p m state refl h), λ h. convert_task_state_rejects p m state h)

-- The event of a task instance row has the type that the table gives for the row's state.
pub convert_to_task_instance_event_types :
    (p : Pydantic) (m : Dict) (e : BeeflowEvent)
    → convert_to_task_instance_event p m ≡ ok e
    → expected_type (lookup "state" m) ≡ some (event_type e)
unfolding convert_to_task_instance_event
convert_to_task_instance_event_types p m e h = (convert_at_state_types p m (lookup "state" m)).0 e h

pub convert_to_task_instance_event_rejects :
    (p : Pydantic) (m : Dict)
    → expected_type (lookup "state" m) ≡ none
    → convert_to_task_instance_event p m ≡ err value_error
unfolding convert_to_task_instance_event
convert_to_task_instance_event_rejects p m h = (convert_at_state_types p m (lookup "state" m)).1 h
