-- ===== src/Services/Parsing.antt =====
-- lambdas/dag_parsing_trigger/trigger.py, lambdas/dag_parsing_processor/dag_parsing_processor.py and
-- packages/utils/list.py (under src/python/beeflow).
use beeflow.Prelude.{ℕ, zero, suc, ◌/◌, max, List, [], ◌∷◌, ◌++◌, String}
use beeflow.Prelude.Actions.{Action, pass, and_then}
use beeflow.Prelude.Actions.Follows.{Follows}

-- `flatten`
unfoldable pub flatten {ℓ} : {A : Type ℓ} → List (List A) → List A
flatten [] = []
flatten (xs ∷ nested_list) = xs ++ flatten nested_list

pub record TriggerDagsProcessingCommand : Type 0 where
  pub triggered_at : String

-- `prepare_event`, for a time in seconds and `str`.
unfoldable pub prepare_event : (ℕ → String) → ℕ → TriggerDagsProcessingCommand
prepare_event show current_time = record { triggered_at = show (current_time / 60) }

-- A call of `send_message`; the command stands for its JSON text.
pub record Message : Type 0 where
  pub queue_url : String
  pub body : TriggerDagsProcessingCommand
  pub message_group_id : String

-- `trigger_processing`, and the handler: it sends one message, whatever its events are.
unfoldable pub trigger_processing : (ℕ → String) → ℕ → String → Message
unfolding prepare_event
trigger_processing show current_time processor_queue_url = record {
  queue_url = processor_queue_url;
  body = prepare_event show current_time;
  message_group_id = "globalDedup";
}

-- The calls of the processor.
pub data Call : Type 0 where
  download_dags start run_single_parsing_loop wait_until_finished end log_parsed_dags : Call

module _ {S E : Type 0} (services : Call → Action S E) where
  -- `for _ in range(...)`
  unfoldable pub parse_times : ℕ → Action S E
  unfolding and_then
  parse_times zero = pass
  parse_times (suc n) =
      and_then (services run_single_parsing_loop)
        (and_then (services wait_until_finished) (parse_times n))

  -- The handler after the download. The number of downloaded files is read from the state.
  unfoldable pub parse_dags : (S → ℕ) → ℕ → Action S E
  unfolding parse_times and_then
  parse_dags get_dag_files_number events s =
      and_then (services start)
        (and_then (parse_times (max (get_dag_files_number s) events))
          (and_then (services end) (services log_parsed_dags)))
        s

  -- The handler, for the number of its events.
  unfoldable pub handler : (S → ℕ) → ℕ → Action S E
  unfolding parse_dags and_then
  handler get_dag_files_number events =
      and_then (services download_dags) (parse_dags get_dag_files_number events)

abbrev loops : ℕ → List Call
loops zero = []
loops (suc n) = run_single_parsing_loop ∷ wait_until_finished ∷ loops n

abbrev pub after_download : ℕ → List Call
after_download n = start ∷ (loops n ++ (end ∷ log_parsed_dags ∷ []))
