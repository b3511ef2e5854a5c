-- ===== src/Services/BatchWorker.antt =====
-- services/batch_worker/batch_worker.py (under src/python/beeflow): the run of a task in a container.
use beeflow.Prelude.{
  ◌≡◌, refl, ◌⊎◌, inl, inr, Bool, Option, none, some, List, String, if◌then◌else◌, Bool-cases,
}
use beeflow.Prelude.Result.{Result, ok, err, ◌>>=◌, ◌>>◌}
use beeflow.Events.Json.{Error, obj, entries}
use beeflow.Events.Pydantic.{IsExact}
use beeflow.Events.Models.{TaskInstanceQueued}
use beeflow.Executors.Messages.{to_dict, parse_queued, parse_queued-to_dict}
use beeflow.Executors.Start.{Surroundings}
use beeflow.Executors.Catch.{DagBag, object}
use beeflow.Worker
use beeflow.Worker.{Raised, run_task_by_local_task_job_releases}

-- `try: run_job.run()`, and `finally: logging.shutdown()`: an exception of the shutdown takes the place
-- of one of the run.
unfoldable run_task_by_local_task_job :
    Result Raised (Unit {0}) → Result Raised (Unit {0}) → Result Raised (Unit {0})
run_task_by_local_task_job (err e) ran = err e
run_task_by_local_task_job (ok _) ran = ran

-- `get_dag`, and the rest of `execute_work`, for what the shutdown comes to.
unfoldable execute_in :
    Option (String → Bool)
    → (TaskInstanceQueued → Result Raised (Unit {0}))
    → Result Raised (Unit {0})
    → TaskInstanceQueued
    → Result Raised (Unit {0})
unfolding run_task_by_local_task_job
execute_in none run shutdown e = err Raised.airflow_exception
execute_in (some has_task) run shutdown e =
    if has_task e.task_id
    then run_task_by_local_task_job shutdown (run e)
    else err Raised.airflow_exception

unfoldable pub execute_work :
    DagBag
    → (TaskInstanceQueued → Result Raised (Unit {0}))
    → Result Raised (Unit {0})
    → TaskInstanceQueued
    → Result Raised (Unit {0})
unfolding execute_in
execute_work bag run shutdown e = execute_in (bag.dags e.dag_id) run shutdown e

-- `handler`, for what the download of the DAGs comes to.
unfoldable handler :
    Result Raised (Unit {0})
    → DagBag
    → (TaskInstanceQueued → Result Raised (Unit {0}))
    → Result Raised (Unit {0})
    → TaskInstanceQueued
    → Result Raised (Unit {0})
unfolding execute_work
handler (err x) bag run shutdown e = err x
handler (ok _) bag run shutdown e = execute_work bag run shutdown e

-- `parse(event=args.event, model=TaskInstanceQueued)`: a text is read by `json.loads` first.
unfoldable parse_text : Surroundings → String → Result Error TaskInstanceQueued
parse_text s event = do json ← s.loads event; d ← object json; parse_queued s.pydantic d

unfoldable handle_parsed :
    Result Raised (Unit {0})
    → DagBag
    → (TaskInstanceQueued → Result Raised (Unit {0}))
    → Result Raised (Unit {0})
    → Result Error TaskInstanceQueued
    → Result Raised (Unit {0})
unfolding handler
handle_parsed download bag run shutdown (err x) = err Raised.other
handle_parsed download bag run shutdown (ok e) = handler download bag run shutdown e

-- The program: without the argument `--event`, which is required, the parser of the command line exits.
unfoldable pub main :
    Surroundings
    → Result Raised (Unit {0})
    → DagBag
    → (TaskInstanceQueued → Result Raised (Unit {0}))
    → Result Raised (Unit {0})
    → Option String
    → Result Raised (Unit {0})
unfolding handle_parsed parse_text
main s download bag run shutdown none = err Raised.other
main s download bag run shutdown (some event) =
    handle_parsed download bag run shutdown (parse_text s event)

handler_after :
    (bag : DagBag) (run : TaskInstanceQueued → Result Raised (Unit {0})) (e : TaskInstanceQueued)
    (download : Result Raised (Unit {0}))
    → handler download bag run (ok tt) e ≡ (download >> execute_work bag run (ok tt) e)
unfolding handler
handler_after bag run e (err x) = refl
handler_after bag run e (ok _) = refl

-- The two `execute_work`s at the DAG that is found.
same_execution :
    {H : Type 0} (attempt : H → Result Raised (Unit {0})) (handlers : List H)
    (found : Option (String → Bool)) (run : TaskInstanceQueued → Result Raised (Unit {0}))
    (e : TaskInstanceQueued)
    → ((h : H) → (attempt h ≡ ok tt) ⊎ (attempt h ≡ err Raised.os_or_value_error))
    → (Worker.execute_in attempt found run handlers e).1 ≡ execute_in found run (ok tt) e
unfolding execute_in Worker.execute_in run_task_by_local_task_job
same_execution attempt handlers none run e passes = refl
same_execution attempt handlers (some has_task) run e passes =
    elim (Bool-cases (has_task e.task_id)) [
      | inl there ↦
          rw (there, run_task_by_local_task_job_releases attempt (run e) handlers passes) refl
      | inr missing ↦ rw missing refl
    ]

pub execute_work-same :
    {H : Type 0} (attempt : H → Result Raised (Unit {0})) (handlers : List H) (bag : DagBag)
    (run : TaskInstanceQueued → Result Raised (Unit {0})) (e : TaskInstanceQueued)
    → ((h : H) → (attempt h ≡ ok tt) ⊎ (attempt h ≡ err Raised.os_or_value_error))
    → (Worker.execute_work attempt bag run handlers e).1 ≡ execute_work bag run (ok tt) e
unfolding execute_work Worker.execute_work
execute_work-same attempt handlers bag run e passes =
    same_execution attempt handlers (bag.dags e.dag_id) run e passes

handled_same :
    {H : Type 0} (attempt : H → Result Raised (Unit {0})) (handlers : List H) (bag : DagBag)
    (run : TaskInstanceQueued → Result Raised (Unit {0})) (e : TaskInstanceQueued)
    (download : Result Raised (Unit {0}))
    → ((h : H) → (attempt h ≡ ok tt) ⊎ (attempt h ≡ err Raised.os_or_value_error))
    → (Worker.handle_event attempt download bag run handlers e).1
      ≡ handler download bag run (ok tt) e
unfolding Worker.handle_event handler
handled_same attempt handlers bag run e (err x) passes = refl
handled_same attempt handlers bag run e (ok _) passes =
    execute_work-same attempt handlers bag run e passes

-- For an event as the executors serialize it, the Lambda function and the container come to the same:
-- the download's exception if it raises, and otherwise what the run of the event's task comes to, or an
-- exception where its DAG or task is not found. The shutdown of the container's logging raises nothing,
-- and the flushes of the Lambda function's log raise nothing but OSError or ValueError. Values of a
-- field's type are taken as they are, and `json.loads` reads back what `json.dumps` writes for the event.
pub handler-main :
    {H : Type 0} (s : Surroundings) (attempt : H → Result Raised (Unit {0})) (handlers : List H)
    (bag : DagBag) (run : TaskInstanceQueued → Result Raised (Unit {0})) (e : TaskInstanceQueued)
    (download : Result Raised (Unit {0}))
    → IsExact s.pydantic
    → s.loads (s.dumps (to_dict e)) ≡ ok (obj (to_dict e))
    → ((h : H) → (attempt h ≡ ok tt) ⊎ (attempt h ≡ err Raised.os_or_value_error))
    → ((Worker.handler attempt s.pydantic download bag run handlers (entries (to_dict e))).1
        ≡ main s download bag run (ok tt) (some (s.dumps (to_dict e))))
      × (main s download bag run (ok tt) (some (s.dumps (to_dict e)))
          ≡ (download >> execute_work bag run (ok tt) e))
unfolding Worker.handler Worker.handle_parsed main handle_parsed parse_text object
handler-main s attempt handlers bag run e download exact reads passes =
    let parsed = parse_queued-to_dict s.pydantic e exact in
    (
      rw (parsed, reads, parsed) (handled_same attempt handlers bag run e download passes),
      rw (reads, parsed) (handler_after bag run e download),
    )
