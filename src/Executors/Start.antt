-- ===== src/Executors/Start.antt =====
-- lambdas/lambda_executor/lambda_executor.py and lambdas/batch_executor/batch_executor.py (under
-- src/python/beeflow). The service that starts executions is a parameter: of the batch executor it
-- includes the retries of `backoff`.
use beeflow.Prelude.{ℕ, Option, none, some, List, [], ◌∷◌, String}
use beeflow.Prelude.Result.{Result, ok, err, ◌>>=◌}
use beeflow.Events.Json.{Json, Dict, Fields, Error, key_error, str, obj, end, field}
use beeflow.Events.Models.{TaskInstanceQueued}
use beeflow.Events.Pydantic.{Pydantic}
use beeflow.Executors.Messages.{to_dict, parse_queued}
use beeflow.Executors.Names.{from_ti_queued_event}

-- What the functions take from their surroundings.
pub record Surroundings : Type 0 where
  -- `os.environ`
  pub environ : String → Option String
  pub pydantic : Pydantic
  pub hexdigest : List ℕ → String
  -- `json.dumps` and `json.loads`
  pub dumps : Fields → String
  pub loads : String → Result Error Json

abbrev pub lambda_field : String
lambda_field = "BEEFLOW__LAMBDA_EXECUTOR_STATE_MACHINE__INPUT_FIELD_NAME"

abbrev pub batch_field : String
batch_field = "BEEFLOW__BATCH_EXECUTOR_STATE_MACHINE__INPUT_FIELD_NAME"

abbrev pub lambda_machine : String
lambda_machine = "BEEFLOW__LAMBDA_EXECUTOR_STATE_MACHINE__ARN"

abbrev pub batch_machine : String
batch_machine = "BEEFLOW__BATCH_EXECUTOR_STATE_MACHINE__ARN"

-- `os.environ[key]`
unfoldable pub env : Surroundings → String → Result Error String
env s key = elim (s.environ key) [ none ↦ err (key_error key) | some v ↦ ok v ]

-- A call of `start_execution`: the object `input` is serialized by `json.dumps`.
pub record Execution : Type 0 where
  pub state_machine_arn : String
  pub name : String
  pub input : Fields

unfoldable pub lambda_input : Surroundings → TaskInstanceQueued → Result Error Fields
lambda_input s e = do key ← env s lambda_field; ok (field key (obj (to_dict e)) end)

unfoldable pub batch_input : Surroundings → TaskInstanceQueued → Result Error Fields
batch_input s e = do key ← env s batch_field; ok (field key (str (s.dumps (to_dict e))) end)

-- `trigger_step_functions`, up to the call.
unfoldable pub execution_of :
    Surroundings
    → String
    → (TaskInstanceQueued → Result Error Fields)
    → TaskInstanceQueued
    → Result Error Execution
unfolding env
execution_of s machine prepare_input e = do
  arn ← env s machine
  input ← prepare_input e
  ok (record { state_machine_arn = arn; name = from_ti_queued_event s.hexdigest e; input = input })

-- One turn of the handler's loop.
unfoldable pub start_one :
    Surroundings
    → String
    → (TaskInstanceQueued → Result Error Fields)
    → Dict
    → Result Error Execution
unfolding execution_of
start_one s machine prepare_input detail = do
  e ← parse_queued s.pydantic detail
  execution_of s machine prepare_input e

-- The handler: what it started, and the exception that ended it early if there was one. What was
-- started before an exception stays started.
pub record Started : Type 0 where
  pub executions : List Execution
  pub raised : Option Error

unfoldable pub answer : Execution → Result Error (Unit {0}) → Started → Started
answer x (ok _) later = record later { executions = x ∷ later.executions }
answer x (err e) later = record { executions = []; raised = some e }

unfoldable pub then_start :
    (Execution → Result Error (Unit {0})) → Result Error Execution → Started → Started
unfolding answer
then_start start_execution (err e) later = record { executions = []; raised = some e }
then_start start_execution (ok x) later = answer x (start_execution x) later

unfoldable pub handler :
    Surroundings
    → (Execution → Result Error (Unit {0}))
    → String
    → (TaskInstanceQueued → Result Error Fields)
    → List Dict
    → Started
unfolding then_start start_one
handler s start_execution machine prepare_input [] = record { executions = []; raised = none }
handler s start_execution machine prepare_input (detail ∷ details) =
    then_start start_execution (start_one s machine prepare_input detail)
      (handler s start_execution machine prepare_input details)
