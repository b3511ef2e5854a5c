-- ===== src/Samples/Services.antt =====
-- Samples of the smaller programs of src/python/beeflow.
use beeflow.Prelude.{
  ℕ, ◌≡◌, refl, ◌⊎◌, inl, inr, Option, none, some, List, [], ◌∷◌, ◌++◌, String, if◌then◌else◌, suc,
  zero, ◌==◌, string_eq,
}
use beeflow.Prelude.Result.{Result, ok, err, ◌>>◌}
use beeflow.Prelude.Actions.{Action}
use beeflow.Services.Parsing.{Call, wait_until_finished, handler}
use beeflow.Services.Configuration.{Arguments, as_environ, no_arguments, load, load-as_environ}
use beeflow.Services.BatchWorker.{execute_work, main, handler-main}
use beeflow.Worker as Worker
use beeflow.Worker.{Raised}
use beeflow.Samples.{strict, strict-IsExact, queued_load}
use beeflow.Events.Json.{entries}
use beeflow.Executors.Messages.{to_dict}
use beeflow.Samples.Executors.{bag, surroundings}

-- Every wait fails; the state is the list of the calls.
abbrev answer_of : Call → Result String (Unit {0})
answer_of wait_until_finished = err "stopped"
answer_of _ = ok tt

abbrev agent : Call → Action (List Call) String
agent call log = (answer_of call, log ++ call ∷ [])

-- A bucket in the environment, and its key as an argument.
abbrev arguments : Arguments
arguments = record no_arguments { config_bucket_key = some "airflow.cfg" }

abbrev environ : String → Option String
environ key =
    if key == "AIRFLOW_HOME"
    then some "/home"
    else if key == "BEEFLOW__CONFIGURATION_BUCKET_NAME"
    then some "configs"
    else none

load-as_environ_example :
    load (λ a b. b) (as_environ arguments environ) no_arguments ≡ load (λ a b. b) environ arguments
load-as_environ_example = load-as_environ (λ a b. b) environ arguments

abbrev flushes : ℕ → Result Raised (Unit {0})
flushes zero = err Raised.os_or_value_error
flushes (suc n) = ok tt

flushes_pass : (n : ℕ) → (flushes n ≡ ok tt) ⊎ (flushes n ≡ err Raised.os_or_value_error)
flushes_pass zero = inr refl
flushes_pass (suc n) = inl refl

abbrev downloaded : Result Raised (Unit {0})
downloaded = ok tt

handler-main_example :
    ((Worker.handler flushes strict downloaded bag
        (λ e. err Raised.other)
        (0 ∷ 1 ∷ [])
        (entries (to_dict queued_load))).1
      ≡ main surroundings downloaded bag
          (λ e. err Raised.other)
          (ok tt)
          (some (surroundings.dumps (to_dict queued_load))))
    × (main surroundings downloaded bag
          (λ e. err Raised.other)
          (ok tt)
          (some (surroundings.dumps (to_dict queued_load)))
        ≡ (downloaded >> execute_work bag (λ e. err Raised.other) (ok tt) queued_load))
handler-main_example =
    handler-main surroundings flushes (0 ∷ 1 ∷ []) bag (λ e. err Raised.other) queued_load
      downloaded strict-IsExact refl flushes_pass
