-- ===== src/Samples/Worker.antt =====
-- Samples of lambdas/lambda_worker (under src/python/beeflow).
use beeflow.Prelude.{ℕ, suc, zero, ◌≡◌, refl, ◌∷◌, []}
use beeflow.Prelude.Result.{Result, ok, err}
use beeflow.Worker.{Raised, os_or_value_error, other, run_task_by_local_task_job}

-- The handler 0 cannot be flushed.
abbrev flushes : ℕ → Result Raised (Unit {0})
flushes zero = err os_or_value_error
flushes (suc n) = ok tt

last_first :
    run_task_by_local_task_job flushes (err other) (0 ∷ 1 ∷ 2 ∷ []) ≡ (2 ∷ 1 ∷ 0 ∷ [], err other)
unfolding run_task_by_local_task_job beeflow.Worker.flush_logs beeflow.Worker.flush_each
    beeflow.Worker.release beeflow.Worker.reversed beeflow.Worker.end_with
last_first = refl
