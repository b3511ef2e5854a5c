-- ===== src/Executors.antt =====
-- How a queued task instance reaches its worker: packages/sfn, and lambdas/lambda_executor,
-- lambdas/batch_executor, lambdas/lambda_executor_catcher and lambdas/batch_executor_catcher
-- (under src/python/beeflow).
pub mod Messages
pub mod Names
pub mod Start
pub mod Catch
