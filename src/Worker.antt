-- ===== src/Worker.antt =====
-- lambdas/lambda_worker/lambda_worker.py (under src/python/beeflow): the run of a task, and the
-- handlers of its log.
use beeflow.Prelude.{
  ◌≡◌, refl, ◌⊎◌, inl, inr, Bool, Option, none, some, List, [], ◌∷◌, ◌++◌, String, if◌then◌else◌,
}
use beeflow.Prelude.Result.{Result, ok, err}
use beeflow.Events.Json.{Dict, Error}
use beeflow.Events.Pydantic.{Pydantic}
use beeflow.Events.Models.{TaskInstanceQueued}
use beeflow.Executors.Messages.{parse_queued}
use beeflow.Executors.Catch.{DagBag}

-- What is raised: what `flush_logs` lets pass (OSError and ValueError), AirflowException, or another.
pub data Raised : Type 0 where
  os_or_value_error airflow_exception other : Raised

-- `reversed(handlers)`
unfoldable pub reversed {ℓ} : {A : Type ℓ} → List A → List A
reversed [] = []
reversed (x ∷ xs) = reversed xs ++ x ∷ []

module _ {H : Type 0} (attempt : H → Result Raised (Unit {0})) where
  -- The end of one turn of the loop: `except`, and `finally`, which releases the handler.
  unfoldable pub release :
      H
      → Result Raised (Unit {0})
      → List H × Result Raised (Unit {0})
      → List H × Result Raised (Unit {0})
  release h (ok _) rest = (h ∷ rest.0, rest.1)
  release h (err os_or_value_error) rest = (h ∷ rest.0, rest.1)
  release h (err e) rest = (h ∷ [], err e)

  unfoldable pub flush_each : List H → List H × Result Raised (Unit {0})
  unfolding release
  flush_each [] = ([], ok tt)
  flush_each (h ∷ hs) = release h (attempt h) (flush_each hs)

  -- `flush_logs`: the handlers that it released, in order, and how it ended. An attempt is what the
  -- `try` does with a handler.
  unfoldable pub flush_logs : List H → List H × Result Raised (Unit {0})
  unfolding flush_each reversed
  flush_logs handlers = flush_each (reversed handlers)

  -- An exception of the `finally` takes the place of one of the `try`.
  unfoldable pub end_with :
      Result Raised (Unit {0})
      → List H × Result Raised (Unit {0})
      → List H × Result Raised (Unit {0})
  end_with ran (released, ok _) = (released, ran)
  end_with ran (released, err e) = (released, err e)

  -- `_run_task_by_local_task_job`, for what `run_job.run()` comes to.
  unfoldable pub run_task_by_local_task_job :
      Result Raised (Unit {0}) → List H → List H × Result Raised (Unit {0})
  unfolding flush_logs end_with
  run_task_by_local_task_job ran handlers = end_with ran (flush_logs handlers)

  -- `get_dag`, and the rest of `execute_work`.
  unfoldable pub execute_in :
      Option (String → Bool)
      → (TaskInstanceQueued → Result Raised (Unit {0}))
      → List H
      → TaskInstanceQueued
      → List H × Result Raised (Unit {0})
  unfolding run_task_by_local_task_job
  execute_in none run handlers e = ([], err airflow_exception)
  execute_in (some has_task) run handlers e =
      if has_task e.task_id
      then run_task_by_local_task_job (run e) handlers
      else ([], err airflow_exception)

  unfoldable pub execute_work :
      DagBag
      → (TaskInstanceQueued → Result Raised (Unit {0}))
      → List H
      → TaskInstanceQueued
      → List H × Result Raised (Unit {0})
  unfolding execute_in
  execute_work bag run handlers e = execute_in (bag.dags e.dag_id) run handlers e

  -- The handler, once the event is parsed, for what the download of the DAGs comes to.
  unfoldable pub handle_event :
      Result Raised (Unit {0})
      → DagBag
      → (TaskInstanceQueued → Result Raised (Unit {0}))
      → List H
      → TaskInstanceQueued
      → List H × Result Raised (Unit {0})
  unfolding execute_work
  handle_event (err x) bag run handlers e = ([], err x)
  handle_event (ok _) bag run handlers e = execute_work bag run handlers e

  unfoldable pub handle_parsed :
      Result Raised (Unit {0})
      → DagBag
      → (TaskInstanceQueued → Result Raised (Unit {0}))
      → List H
      → Result Error TaskInstanceQueued
      → List H × Result Raised (Unit {0})
  unfolding handle_event
  handle_parsed download bag run handlers (err x) = ([], err other)
  handle_parsed download bag run handlers (ok e) = handle_event download bag run handlers e

  -- `handler`, with `event_parser` around it.
  unfoldable pub handler :
      Pydantic
      → Result Raised (Unit {0})
      → DagBag
      → (TaskInstanceQueued → Result Raised (Unit {0}))
      → List H
      → Dict
      → List H × Result Raised (Unit {0})
  unfolding handle_parsed
  handler p download bag run handlers event =
      handle_parsed download bag run handlers (parse_queued p event)

  flush_each-released :
      ((h : H) → (attempt h ≡ ok tt) ⊎ (attempt h ≡ err os_or_value_error))
      → (hs : List H) → flush_each hs ≡ (hs, ok tt)
  unfolding flush_each release
  flush_each-released passes [] = refl
  flush_each-released passes (h ∷ hs) = elim (passes h) [
    | inl fine ↦ rw (fine, flush_each-released passes hs) refl
    | inr odd ↦ rw (odd, flush_each-released passes hs) refl
  ]

-- However a task's run ends, and whichever handlers fail to flush, as long as they raise nothing but
-- OSError or ValueError, every handler of the log is released once, the last one first, and the run
-- comes to what it came to.
pub run_task_by_local_task_job_releases :
    {H : Type 0} (attempt : H → Result Raised (Unit {0})) (ran : Result Raised (Unit {0}))
    (handlers : List H)
    → ((h : H) → (attempt h ≡ ok tt) ⊎ (attempt h ≡ err os_or_value_error))
    → run_task_by_local_task_job attempt ran handlers ≡ (reversed handlers, ran)
unfolding run_task_by_local_task_job flush_logs end_with
run_task_by_local_task_job_releases attempt ran handlers passes =
    rw (flush_each-released attempt passes (reversed handlers)) refl
