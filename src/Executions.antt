-- ===== src/Executions.antt =====
-- The executions that the executors start: the state machines of
-- infrastructure/terraform/aws/modules/lambda-executor/sfn.tf and batch-executor/sfn.tf, with the workers
-- and the catchers (src/python/beeflow) that they run.
use beeflow.Prelude.{
  ◌≡◌, refl, ◌∙◌, ◌⊎◌, inl, inr, false, Option, some, List, [], ◌∷◌, String, ◌==◌, string_eq,
  lookup, insert,
}
use beeflow.Prelude.Result.{Result, ok, err, ◌>>=◌, ◌>>◌, Result-cases}
use beeflow.Events.Json.{Json, Dict, Error, str, obj, end, field, entries, get, get-found}
use beeflow.Events.Models.{TaskInstanceQueued}
use beeflow.Events.Pydantic.{IsExact}
use beeflow.Executors.Messages.{to_dict, parse_queued-to_dict}
use beeflow.Executors.Start.{
  Surroundings, lambda_field, batch_field, env, lambda_input, batch_input,
}
use beeflow.Executors.Catch.{
  DagBag, CatcherWorld, Marked, object, text, lambda_event, batch_event, mark_task_as_failed,
  lambda_catcher, batch_catcher,
}
use beeflow.Worker as Worker
use beeflow.Worker.{Raised}
use beeflow.Services.BatchWorker.{execute_work, main, handler-main}

-- How an execution ends: its task returned, or its catcher did, with what that marked.
pub data Ended : Type 0 where
  finished : Ended
  caught : Option Marked → Ended

-- `"ResultPath" : "$.error"`: the catcher gets the input with the cause of the error in it.
unfoldable after_task :
    (Raised → Json)
    → (Dict → Result Error (Option Marked))
    → Dict
    → Result Raised (Unit {0})
    → Result Error Ended
after_task cause catcher input (ok _) = ok finished
after_task cause catcher input (err x) = do
  marked ← catcher (insert "error" (cause x) input)
  ok (caught marked)

-- The state machine of the Lambda executor: `"InputPath"` gives the worker the field of the input.
unfoldable pub lambda_execution :
    Surroundings
    → CatcherWorld
    → (Raised → Json)
    → (Dict → Result Raised (Unit {0}))
    → Dict
    → Result Error Ended
unfolding after_task
lambda_execution s x cause worker input = do
  key ← env s lambda_field
  inner ← get key input
  event ← object inner
  after_task cause (lambda_catcher s x) input (worker event)

-- The state machine of the batch executor: the field is the argument `--event` of the container.
unfoldable pub batch_execution :
    Surroundings
    → CatcherWorld
    → (Raised → Json)
    → (Option String → Result Raised (Unit {0}))
    → Dict
    → Result Error Ended
unfolding after_task
batch_execution s x cause worker input = do
  key ← env s batch_field
  inner ← get key input
  event ← text inner
  after_task cause (batch_catcher s x) input (worker (some event))

-- When the task raised, its catcher downloads the DAGs and marks it as failed.
abbrev pub settled :
    CatcherWorld → TaskInstanceQueued → Result Raised (Unit {0}) → Result Error Ended
settled x e (ok _) = ok finished
settled x e (err raised) = do x.download_dags; marked ← mark_task_as_failed x e; ok (caught marked)

module _ (key : String) (v : Json) where
  get_field : get key (entries (field key v end)) ≡ ok v
  unfolding entries lookup
  get_field = get-found key ((key, v) ∷ []) (rw ((string_eq.agrees_iff key key).1 refl) refl)

  -- The cause of the error does not take the place of the field.
  get_beside_error :
      (c : Json)
      → (key == "error") ≡ false
      → get key (insert "error" c (entries (field key v end))) ≡ ok v
  unfolding entries insert lookup
  get_beside_error c other = rw other (
      get-found key ((key, v) ∷ ("error", c) ∷ [])
        (rw ((string_eq.agrees_iff key key).1 refl) refl))

module _ (s : Surroundings) (x : CatcherWorld) (cause : Raised → Json) (e : TaskInstanceQueued)
    (exact : IsExact s.pydantic) (key : String) (other : (key == "error") ≡ false) where
  lambda_settled :
      (r : Result Raised (Unit {0}))
      → env s lambda_field ≡ ok key
      → after_task cause (lambda_catcher s x) (entries (field key (obj (to_dict e)) end)) r
        ≡ settled x e r
  unfolding after_task lambda_catcher lambda_event object
  lambda_settled (ok _) named = refl
  lambda_settled (err raised) named = elim (Result-cases x.download_dags) [
    | inr (failed, down) ↦ rw down refl
    | inl (done, there) ↦
        rw
          (
            there,
            named,
            get_beside_error key (obj (to_dict e)) (cause raised) other,
            parse_queued-to_dict s.pydantic e exact,
          )
          refl
  ]

  batch_settled :
      (r : Result Raised (Unit {0}))
      → env s batch_field ≡ ok key
      → s.loads (s.dumps (to_dict e)) ≡ ok (obj (to_dict e))
      → after_task cause (batch_catcher s x) (entries (field key (str (s.dumps (to_dict e))) end)) r
        ≡ settled x e r
  unfolding after_task batch_catcher batch_event object text
  batch_settled (ok _) named reads = refl
  batch_settled (err raised) named reads = elim (Result-cases x.download_dags) [
    | inr (failed, down) ↦ rw down refl
    | inl (done, there) ↦
        rw
          (
            there,
            named,
            get_beside_error key (str (s.dumps (to_dict e))) (cause raised) other,
            reads,
            parse_queued-to_dict s.pydantic e exact,
          )
          refl
  ]

-- The execution that either executor starts for an event ends as the run of its task does: it finishes
-- if the download and the task raise nothing. Otherwise it is what the catcher's own download of the
-- DAGs and its `mark_task_as_failed` for that event come to: the catcher's download raises, or the
-- task instance is marked as failed, or nothing is for a DAG that the catcher does not find, or an
-- exception is raised for a task that its DAG does not have and when one of the calls for the task
-- instance raises. The environment
-- names the field of the input, which is not "error"; the shutdown of the container's logging raises
-- nothing, and the flushes of the Lambda function's log raise nothing but OSError or ValueError. Values
-- of a field's type are taken as they are, and `json.loads` reads back what `json.dumps` writes for the
-- event.
pub executions-settled :
    {H : Type 0} (s : Surroundings) (x : CatcherWorld) (bag : DagBag) (cause : Raised → Json)
    (attempt : H → Result Raised (Unit {0})) (handlers : List H)
    (run : TaskInstanceQueued → Result Raised (Unit {0})) (download : Result Raised (Unit {0}))
    (e : TaskInstanceQueued) (lambda_key batch_key : String)
    → env s lambda_field ≡ ok lambda_key
    → env s batch_field ≡ ok batch_key
    → (lambda_key == "error") ≡ false
    → (batch_key == "error") ≡ false
    → IsExact s.pydantic
    → s.loads (s.dumps (to_dict e)) ≡ ok (obj (to_dict e))
    → ((h : H) → (attempt h ≡ ok tt) ⊎ (attempt h ≡ err Raised.os_or_value_error))
    → ((lambda_input s e >>= λ input.
          lambda_execution s x cause
            (λ event. (Worker.handler attempt s.pydantic download bag run handlers event).1)
            (entries input))
        ≡ settled x e (download >> execute_work bag run (ok tt) e))
      × ((batch_input s e >>= λ input.
            batch_execution s x cause (main s download bag run (ok tt)) (entries input))
          ≡ settled x e (download >> execute_work bag run (ok tt) e))
unfolding lambda_input batch_input lambda_execution batch_execution object text
executions-settled s x bag cause attempt handlers run download e lambda_key batch_key in_lambda
      in_batch other_lambda other_batch exact reads passes =
    let (same, batch_ran) = handler-main s attempt handlers bag run e download exact reads passes in
    let lambda_ran = same ∙ batch_ran in
    (
      rw (in_lambda, get_field lambda_key (obj (to_dict e)), lambda_ran)
          (lambda_settled s x cause e exact lambda_key other_lambda _ in_lambda),
      rw (in_batch, get_field batch_key (str (s.dumps (to_dict e))), batch_ran)
          (batch_settled s x cause e exact batch_key other_batch _ in_batch reads),
    )
