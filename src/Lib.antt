-- ===== src/Lib.antt =====
-- beeflow: the serverless Airflow scheduler of this repository (src/python/beeflow).
--
-- The system runs Airflow on AWS Lambda. The scheduler's Lambda function moves task instances of the
-- metadata database to the queued state; the changes of the database come back as a stream, which a
-- forwarder turns into events on an event bus; and an executor starts an execution of a state machine
-- for every event of a queued task instance, with a catcher behind it that fails the task instance
-- when the execution fails.
--
-- Prelude: the shared names, equality as an interface (Prelude/Tests), lists (Prelude/Lists), Python's
-- dictionaries and sets (Prelude/Dict), integers (Prelude/Int) and results that may be exceptions
-- (Prelude/Result), with actions on a state that may raise them (Prelude/Actions) and calls that are
-- tried again (Prelude/Retries).
--
-- Scheduler: lambdas/scheduler/scheduler_job.py. Scheduler/Tables has the rows of the database, with
-- the columns that the code names. Scheduler/Query is the query for scheduled task instances,
-- Scheduler/Concurrency is __get_concurrency_maps, Scheduler/Examine is the loop over the task
-- instances of one round, and Scheduler/CriticalSection is _executable_task_instances_to_queued, with
-- the loop over rounds. What Airflow and the database server supply (Pool.slots_stats,
-- DagBag.get_dag, EXECUTION_STATES, the locks, the time) is the record World. The loop over rounds
-- has one unit of fuel for each task instance of the table and one more: each round but the last takes
-- a task instance out of what the query returns. Scheduler/CriticalSection/Progress says when nothing
-- is queued. Scheduler/Capacity has what the executing task instances take of a pool, a DAG or a task,
-- the steps of the database under any number of schedulers and other programs, and a turn of the
-- scheduler as a sequence of such steps.
--
-- Scheduler/Enqueue is what follows the selection in the critical section. Scheduler/Runs is the
-- creation and the start of DAG runs, with the runs that datasets trigger in Scheduler/Runs/Datasets,
-- Scheduler/Decisions is _schedule_dag_run, Scheduler/Callbacks has the callbacks that are sent and
-- the check of paused DAGs, Scheduler/ExecutorEvents is _process_executor_events, and Scheduler/Upkeep
-- has the checks for timeouts, zombies and stale DAGs; each takes what Airflow computes as a record.
--
-- Scheduler/Scheduling puts these together as _do_scheduling, and Scheduler/Loop is
-- _run_scheduler_loop and the handler of lambdas/scheduler/scheduler_runner.py, with _execute around
-- the loop in Scheduler/Execute. The settings of a turn depend on its number, since the time, the locks
-- and the executor change between turns. The loop takes one unit of fuel for each turn. A transaction
-- is not tried again when it fails, and what a call that raises has written is not followed further.
--
-- Events: packages/events. Events/Types is BeeflowEventType, Events/Models the event classes, and
-- Events/Converter is database_passthrough_event_converter.py. Events/Pydantic has the coercions of
-- pydantic, which are parameters. Events/Json has JSON values and dictionaries of them.
--
-- Forwarders: lambdas/dms_cdc_forwarder. Forwarders/Rows is prepare_input, and Forwarders/Dms the
-- rest; Forwarders/Cdc is lambdas/change_data_capture_forwarder. An exception is a value: it ends the
-- batch, as it does in the code. The decorator of backoff is a parameter, which comes to what its last
-- attempt comes to (Prelude/Retries).
--
-- Schedules: lambdas/dag_schedule_updater, with the cron expressions and the rules of EventBridge in
-- Schedules itself and the handlers of events in Schedules/Handlers.
--
-- Executors: lambdas/lambda_executor, lambdas/batch_executor and their catchers. Executors/Messages
-- is the event as a dictionary and back, Executors/Names is packages/sfn/name.py, Executors/Start
-- the executors and Executors/Catch the catchers. The hash, `json`, `os.environ` and the service
-- that starts executions are parameters, and so are, for the catchers, what the download of the
-- DAGs, the DAG bag and the calls of Airflow for a task instance come to.
--
-- Worker: lambdas/lambda_worker, with the flush of the log handlers. What the download of the DAGs, an
-- attempt to flush a handler and the run of a task come to are parameters.
--
-- Executions: the state machines that the executors start, in infrastructure/terraform/aws/modules, with
-- the workers and the catchers that they run.
--
-- Pipeline: the way of a queued task instance from its row through the forwarder of changes to the
-- executor and its catcher. The event bus, which carries the event between them, is not modelled.
--
-- Services: the smaller programs. Services/Parsing is lambdas/dag_parsing_trigger and
-- lambdas/dag_parsing_processor, Services/Configuration is packages/config/config.py,
-- Services/Downloads is packages/dags_downloader, Services/BatchWorker is services/batch_worker,
-- Services/Webserver is services/webserver, and Services/Migrations is lambdas/migrations_runner.
--
-- Experiments: experiments/internal. An action (Prelude/Actions) maps a state to a result and a
-- state, so that what was done before an exception stays done; Prelude/Actions/Follows says which
-- calls of services an action makes. Experiments/Controller is experiment_controller.py, over any
-- services, Experiments/Managers is the two implementations of the DAGs manager, over any way to
-- run a command, any of which may raise, Experiments/Bucket is the bucket manager, whose uploads
-- may raise, and Experiments/Config is config.py and runner.py. A wait has one unit of fuel for
-- each second of its timeout and one more: a turn of its loop sleeps for 15 seconds. The decorator
-- of start_dag in mwaa_dags_manager.py is a parameter.
--
-- Samples and Scheduler/Samples run the definitions on small inputs.
--
-- Not modelled: logging, metrics but the gauges of the critical section, the transport of events, the
-- copies of Airflow's command line and migrations in packages/cli and packages/database, with
-- lambdas/api_to_cli_forwarder, which only calls that command line, the example DAGs, the notebooks,
-- the rest of the infrastructure, and the parts of the program that no file above names. A pool without
-- a limit, whose total is -1 and whose open slots are infinitely many, is not represented: the total
-- and the open slots of a pool are numbers.
pub mod Prelude
pub mod Scheduler
pub mod Events
pub mod Forwarders
pub mod Schedules
pub mod Executors
pub mod Executions
pub mod Worker
pub mod Experiments
pub mod Services
pub mod Pipeline
pub mod Samples
