-- ===== src/Scheduler.antt =====
-- lambdas/scheduler (under src/python/beeflow): the scheduler job and its Lambda handler.
pub mod Tables
pub mod Query
pub mod World
pub mod Concurrency
pub mod Examine
pub mod Capacity
pub mod CriticalSection
pub mod ExecutorEvents
pub mod Enqueue
pub mod Runs
pub mod Decisions
pub mod Callbacks
pub mod Scheduling
pub mod Upkeep
pub mod Loop
pub mod Execute
mod Samples
