-- ===== src/Experiments/Managers.antt =====
-- The two implementations of the DAGs manager (under src/python/beeflow):
-- experiments/internal/services/dags_manager/beeflow_dags_manager.py, which invokes a Lambda function,
-- and mwaa_dags_manager.py beside it, which posts to the command line of an environment.
pub mod Waiting
use Prim.Native.String.{◌++◌ as append}
use text.Mathlib.Text.{find?}
use beeflow.Prelude.{
  ℕ, zero, suc, ◌+◌, Bool, true, false, not, ◌&&◌, Option, none, some, List, [], ◌∷◌, String,
  if◌then◌else◌, ltb, nat_beq,
}
use beeflow.Prelude.Result.{Result, ok, err}
use beeflow.Prelude.Actions.{Action, and_then}

pub data Error : Type 0 where
  -- `Exception` and `ValueError`, and what the clients of AWS and of HTTP raise
  exception value_error client_error : Error

-- A question to the service, whose answer is a Boolean, unless it raises.
abbrev pub Check : Type 0 → Type 0
Check S = S → Result Error Bool × S

-- How the `while` loop of `wait_until_dag_exists` is left: by its end, or by an exception. `none` means
-- that the fuel ran out.
abbrev pub Polled : Type 0 → Type 0
Polled S = Option (Result Error (Unit {0}) × S)

module _ {S : Type 0} where
  -- A question about what a call returns.
  unfoldable pub ask : {A : Type 0} → (A → Bool) → Result Error A × S → Result Error Bool × S
  ask test (ok a, s) = (ok (test a), s)
  ask test (err e, s) = (err e, s)

  unfoldable pub demand : Error → Result Error Bool × S → Result Error (Unit {0}) × S
  demand e (ok true, s) = (ok tt, s)
  demand e (ok false, s) = (err e, s)
  demand e (err raised, s) = (err raised, s)

  -- Raises unless the answer is yes.
  unfoldable pub require : Error → Check S → Action S Error
  unfolding demand
  require e check s = demand e (check s)

  -- The body of the loop, with what comes after its sleep.
  unfoldable pub polled : Result Error Bool × S → Polled S → Polled S
  polled (ok true, s) rest = some (ok tt, s)
  polled (ok false, s) rest = rest
  polled (err e, s) rest = some (err e, s)

  -- The clock, and `time.sleep`.
  module _ (time : S → ℕ) (sleep : ℕ → S → S) where
    unfoldable pub poll : Check S → ℕ → ℕ → S → Polled S
    unfolding polled
    poll dag_exists zero t_end s = none
    poll dag_exists (suc fuel) t_end s =
        let rest = poll dag_exists fuel t_end (sleep 15 (dag_exists s).1) in
        if ltb (time s) t_end then polled (dag_exists s) rest else some (ok tt, s)

    -- The test after the loop.
    unfoldable pub check_after : Check S → Polled S → Option (Result Error (Unit {0}) × S)
    unfolding require
    check_after dag_exists none = none
    check_after dag_exists (some (err e, s)) = some (err e, s)
    check_after dag_exists (some (ok _, s)) = some (require exception dag_exists s)

    -- `wait_until_dag_exists`, with fuel for a turn of the loop in every second.
    unfoldable pub wait_until : Check S → ℕ → S → Option (Result Error (Unit {0}) × S)
    unfolding poll check_after
    wait_until dag_exists timeout_seconds s =
        check_after dag_exists (poll dag_exists (suc timeout_seconds) (time s + timeout_seconds) s)

-- What `lambda_client.invoke` returns.
pub record Invocation : Type 0 where
  pub has_function_error : Bool
  pub status_code : ℕ

abbrev pub invocation_ok : Invocation → Bool
invocation_ok r = not r.has_function_error && nat_beq r.status_code 200

-- `BeeflowDagsManager`, for the Lambda function that runs the command line, and `str` for numbers.
module _ {S : Type 0} (invoke : List String → S → Result Error Invocation × S)
    (show : ℕ → String) where
  unfoldable pub invoke_cli : List String → Check S
  unfolding ask
  invoke_cli args s = ask invocation_ok (invoke args s)

  unfoldable pub beeflow_scale_default_pool : ℕ → Action S Error
  unfolding invoke_cli require
  beeflow_scale_default_pool pool_size =
      require exception
        (invoke_cli ("pools" ∷ "set" ∷ "default_pool" ∷ show pool_size ∷ "default" ∷ []))

  unfoldable pub beeflow_dag_exists : String → Check S
  unfolding invoke_cli
  beeflow_dag_exists dag_id = invoke_cli ("dags" ∷ "list-jobs" ∷ "-d" ∷ dag_id ∷ [])

  unfoldable pub beeflow_start_dag : String → Action S Error
  unfolding invoke_cli require
  beeflow_start_dag dag_id = require exception (invoke_cli ("dags" ∷ "unpause" ∷ dag_id ∷ []))

  unfoldable pub beeflow_delete_dag : String → Action S Error
  unfolding invoke_cli require
  beeflow_delete_dag dag_id =
      require exception (invoke_cli ("dags" ∷ "delete" ∷ "-y" ∷ dag_id ∷ []))

  unfoldable pub beeflow_stop_dag : String → Action S Error
  unfolding invoke_cli require
  beeflow_stop_dag dag_id = require exception (invoke_cli ("dags" ∷ "pause" ∷ dag_id ∷ []))

  unfoldable pub beeflow_trigger_dag : String → Action S Error
  unfolding invoke_cli require
  beeflow_trigger_dag dag_id = require exception (invoke_cli ("dags" ∷ "trigger" ∷ dag_id ∷ []))

-- `part in whole`
abbrev pub is_part : String → String → Bool
is_part whole part = elim (find? whole part) [ none ↦ false | some _ ↦ true ]

pub record MwaaCliResponse : Type 0 where
  pub stdout : String
  pub stderr : String
  pub status_code : ℕ

-- The answer to the request: its status, and the texts of its JSON object where it has them.
record Answer : Type 0 where
  pub status_code : ℕ
  pub stdout : Option String
  pub stderr : Option String

-- `base64.b64decode(...).decode('utf8')`, or an empty text.
abbrev decoded : (String → String) → Option String → String
decoded decode none = ""
decoded decode (some encoded) = decode encoded

-- `__execute_cli`, once the request has been answered.
unfoldable response_of : (String → String) → Answer → MwaaCliResponse
response_of decode a =
    if not (nat_beq a.status_code 200)
    then record { stdout = ""; stderr = ""; status_code = a.status_code }
    else record {
      stdout = decoded decode a.stdout;
      stderr = decoded decode a.stderr;
      status_code = a.status_code;
    }

abbrev pub is_response_ok : MwaaCliResponse → Bool
is_response_ok r =
    nat_beq r.status_code 200
    && not (is_part r.stderr "Exception")
    && not (is_part r.stderr "airflow.exceptions.AirflowException")

abbrev pub not_exists_message : String → String
not_exists_message dag_id = append "DAG: " (append dag_id " does not exist in 'dag' table")

abbrev pub knows_dag : String → MwaaCliResponse → Bool
knows_dag dag_id r =
    not (is_part r.stderr (not_exists_message dag_id))
    && not (is_part r.stdout (not_exists_message dag_id))

-- `MWAADagsManager`, for `__execute_cli`. The decorator of `start_dag` is a parameter.
module _ {S : Type 0} (execute_cli : String → S → Result Error MwaaCliResponse × S)
    (show : ℕ → String) where
  -- An action on a DAG: the answer is fine, and does not say that there is no such DAG.
  unfoldable pub execute_on : String → String → Check S
  unfolding ask
  execute_on command dag_id s =
      ask (λ r. is_response_ok r && knows_dag dag_id r) (execute_cli (append command dag_id) s)

  unfoldable pub assert_dag_exists : String → Action S Error
  unfolding ask require
  assert_dag_exists dag_id = require value_error (λ s.
      ask (λ r. is_response_ok r && is_part r.stdout dag_id) (execute_cli "dags list -o plain" s))

  unfoldable pub mwaa_scale_default_pool : ℕ → Action S Error
  unfolding ask require
  mwaa_scale_default_pool pool_size = require value_error (λ s.
      ask is_response_ok
        (execute_cli (append "pools set default_pool " (append (show pool_size) " default")) s))

  unfoldable pub mwaa_dag_exists : String → Check S
  unfolding execute_on
  mwaa_dag_exists dag_id = execute_on "dags pause " dag_id

  -- One attempt of `start_dag`.
  unfoldable pub mwaa_start_once : String → Action S Error
  unfolding execute_on assert_dag_exists require and_then
  mwaa_start_once dag_id =
      and_then (assert_dag_exists dag_id) (require value_error (execute_on "dags unpause " dag_id))

  -- `start_dag`, with its decorator, which tries the attempt again while it raises a `ValueError`.
  unfoldable pub mwaa_start_dag : (Action S Error → Action S Error) → String → Action S Error
  unfolding mwaa_start_once
  mwaa_start_dag retried dag_id = retried (mwaa_start_once dag_id)

  unfoldable pub mwaa_stop_dag : String → Action S Error
  unfolding execute_on require
  mwaa_stop_dag dag_id = require value_error (execute_on "dags pause " dag_id)

  unfoldable pub mwaa_delete_dag : String → Action S Error
  unfolding execute_on require
  mwaa_delete_dag dag_id = require value_error (execute_on "dags delete -y " dag_id)

  unfoldable pub mwaa_trigger_dag : String → Action S Error
  unfolding execute_on require
  mwaa_trigger_dag dag_id = require value_error (execute_on "dags trigger " dag_id)
