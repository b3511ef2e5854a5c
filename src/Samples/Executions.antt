-- ===== src/Samples/Executions.antt =====
-- Samples of the executions of src/python/beeflow.
use beeflow.Prelude.{ℕ, ◌≡◌, refl, inl, [], ◌∷◌}
use beeflow.Prelude.Result.{Result, ok, err, ◌>>=◌, ◌>>◌}
use beeflow.Events.Json.{null, entries}
use beeflow.Executors.Start.{lambda_input, batch_input, env}
use beeflow.Executors.Catch.{mark_task_as_failed}
use beeflow.Worker as Worker
use beeflow.Worker.{Raised}
use beeflow.Services.BatchWorker.{execute_work, main}
use beeflow.Executions.{lambda_execution, batch_execution, settled, executions-settled}
use beeflow.Samples.{strict, strict-IsExact, queued_load}
use beeflow.Samples.Executors.{surroundings, bag, catcher}

abbrev flushes : ℕ → Result Raised (Unit {0})
flushes n = ok tt

abbrev downloaded : Result Raised (Unit {0})
downloaded = ok tt

-- The task raises.
executions-settled_example :
    ((lambda_input surroundings queued_load >>= λ input.
    lambda_execution surroundings catcher
      (λ x. null)
      (λ event.
        (Worker.handler flushes strict downloaded bag (λ e. err Raised.other) (0 ∷ []) event).1)
      (entries input))
      ≡ settled catcher queued_load
          (downloaded >> execute_work bag (λ e. err Raised.other) (ok tt) queued_load))
    × ((batch_input surroundings queued_load >>= λ input.
          batch_execution surroundings catcher
            (λ x. null)
            (main surroundings downloaded bag (λ e. err Raised.other) (ok tt))
            (entries input))
        ≡ settled catcher queued_load
            (downloaded >> execute_work bag (λ e. err Raised.other) (ok tt) queued_load))
unfolding env
executions-settled_example =
    executions-settled surroundings catcher bag (λ x. null) flushes (0 ∷ []) (λ e. err Raised.other)
      downloaded queued_load "event" "event" refl refl refl refl strict-IsExact refl (λ n. inl refl)

task_marked :
    settled catcher queued_load
      (downloaded >> execute_work bag (λ e. err Raised.other) (ok tt) queued_load)
    ≡ (mark_task_as_failed catcher queued_load >>= λ marked. ok (beeflow.Executions.caught marked))
unfolding execute_work mark_task_as_failed beeflow.Events.Models.new_task_instance_queued
task_marked = refl
