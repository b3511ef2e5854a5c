-- ===== src/Scheduler/Scheduling.antt =====
-- `_do_scheduling` of lambdas/scheduler/scheduler_job.py (under src/python/beeflow), with
-- `_create_dagruns_for_dags` and `_schedule_all_dag_runs`.
pub mod Termination
use beeflow.Prelude.{
  ℕ, Bool, true, false, not, ◌&&◌, ◌||◌, Option, none, some, List, [], ◌∷◌, ◌++◌, String,
  if◌then◌else◌, nat_beq, ◌==◌, string_eq, lookup, filter,
}
use beeflow.Prelude.Result.{Result, ok, err, ◌>>=◌}
use beeflow.Scheduler.Tables.{TaskInstance, DagRun, DagModel, Database, RunState}
use beeflow.Scheduler.World.{World, Error}
use beeflow.Scheduler.CriticalSection.{is_nil}
use beeflow.Scheduler.Enqueue.{critical_section_enqueue_task_instances}
use beeflow.Scheduler.Runs
use beeflow.Scheduler.Runs.{create_dag_runs, start_queued_dagruns}
use beeflow.Scheduler.Runs.Datasets.{
  Datasets, DagInfo, Consumption, QueueRow, DatasetError, create_dag_runs_dataset_triggered,
}
use beeflow.Scheduler.Runs.Datasets
use beeflow.Scheduler.Decisions
use beeflow.Scheduler.Decisions.{Examined, DagCallbackRequest, schedule_dag_run}
use beeflow.Scheduler.Callbacks.{Callback, CallbackError, Callbacks, send_all}

-- What one call takes from its settings, the executor, Airflow and the database server.
pub record Setting : Type 0 where
  pub use_job_schedule : Bool
  pub max_tis_per_query : ℕ
  pub slots_available : ℕ
  pub world : World
  pub runs : Runs.Airflow
  pub datasets : Datasets
  pub decisions : Decisions.Airflow
  pub callbacks : Callbacks
  -- `DagModel.dags_needing_dagruns` and `DagRun.next_dagruns_to_examine`
  pub dags_needing_dagruns : Database → List DagModel × DagInfo
  pub next_dagruns_to_examine : RunState → List DagRun → List DagRun
  -- `DagModel.get_dagmodel`; a DAG that is found has a model
  pub get_dagmodel : List DagModel → String → DagModel
  pub is_lock_not_available_error : Error → Bool

-- The tables, and the callbacks that were sent.
pub record State : Type 0 where
  pub db : Database
  pub consumed : List Consumption
  pub queue : List QueueRow
  pub sent : List Callback

-- What a call can raise.
pub data Failure : Type 0 where
  dataset_failure : DatasetError → Failure
  callback_failure : CallbackError → Failure
  database_failure : Error → Failure

-- The rows that were changed, back in their table.
abbrev pub same_run : DagRun → DagRun → Bool
same_run a b = a.dag_id == b.dag_id && a.run_id == b.run_id

unfoldable pub store_run : DagRun → List DagRun → List DagRun
store_run run [] = []
store_run run (r ∷ runs) = (if same_run run r then run else r) ∷ store_run run runs

unfoldable pub store_runs : List DagRun → List DagRun → List DagRun
unfolding store_run
store_runs [] table = table
store_runs (run ∷ runs) table = store_runs runs (store_run run table)

unfoldable pub store_model : DagModel → List DagModel → List DagModel
store_model model [] = []
store_model model (m ∷ models) =
    (if model.dag_id == m.dag_id then model else m) ∷ store_model model models

unfoldable pub store_models : List DagModel → List DagModel → List DagModel
unfolding store_model
store_models [] table = table
store_models (model ∷ models) table = store_models models (store_model model table)

abbrev pub has_info : DagInfo → DagModel → Bool
has_info info model = elim (lookup model.dag_id info) [ none ↦ false | some times ↦ true ]

-- What the creation of the datasets' runs leaves.
unfoldable pub after_datasets : State → Result DatasetError Datasets.Tables → Result Failure State
after_datasets s (err e) = err (dataset_failure e)
after_datasets s (ok t) = ok (record s {
  db = record s.db { dag_runs = t.dag_runs };
  consumed = t.consumed;
  queue = t.queue;
})

-- `_create_dag_runs`, at the tables.
unfoldable pub create_scheduled : Runs.Airflow → List DagModel → State → State
unfolding create_dag_runs store_models
create_scheduled a models s =
    let created = create_dag_runs a models s.db.dag_runs in
    record s {
      db = record s.db {
        dag_runs = created.dag_runs;
        dag_models = store_models created.dag_models s.db.dag_models;
      };
    }

-- `_create_dagruns_for_dags`
unfoldable pub create_dagruns_for_dags : Setting → State → Result Failure State
unfolding create_scheduled after_datasets
create_dagruns_for_dags x s =
    let (models, info) = x.dags_needing_dagruns s.db in
    let triggered = filter (has_info info) models in
    let created =
      create_scheduled x.runs (filter (λ (m : DagModel). not (has_info info m)) models) s in
    if is_nil triggered
    then ok created
    else after_datasets created (
        create_dag_runs_dataset_triggered x.datasets triggered info (record {
          dag_runs = created.db.dag_runs;
          consumed = created.consumed;
          queue = created.queue;
        }))

-- `self._start_queued_dagruns(session)`, at the table.
unfoldable pub start_queued : Setting → State → State
unfolding start_queued_dagruns store_runs
start_queued x s =
    let examined = x.next_dagruns_to_examine RunState.queued s.db.dag_runs in
    record s {
      db = record s.db {
        dag_runs = store_runs (start_queued_dagruns x.runs examined) s.db.dag_runs;
      };
    }

-- One decision, at the tables.
unfoldable pub schedule_one : Setting → DagRun → Database → Database × Option DagCallbackRequest
unfolding schedule_dag_run store_run store_model
schedule_one x run db =
    let (after, callback) = schedule_dag_run x.decisions (record {
      run = run;
      tis = db.task_instances;
      model = x.get_dagmodel db.dag_models run.dag_id;
    }) in
    (
      record {
        task_instances = after.tis;
        dag_runs = store_run after.run db.dag_runs;
        dag_models = store_model after.model db.dag_models;
      },
      callback,
    )

-- `_schedule_all_dag_runs`
unfoldable pub schedule_all_dag_runs :
    Setting → List DagRun → Database → Database × List (DagRun × Option DagCallbackRequest)
unfolding schedule_one
schedule_all_dag_runs x [] db = (db, [])
schedule_all_dag_runs x (run ∷ runs) db =
    let (next, callback) = schedule_one x run db in
    let (after, tuples) = schedule_all_dag_runs x runs next in (after, (run, callback) ∷ tuples)

-- What sending the callbacks leaves.
unfoldable pub after_callbacks : State → Result CallbackError (List Callback) → Result Failure State
after_callbacks s (err e) = err (callback_failure e)
after_callbacks s (ok sent) = ok (record s { sent = s.sent ++ sent })

-- The decisions on the running runs, and the callbacks.
unfoldable pub decide : Setting → State → Result Failure State
unfolding schedule_all_dag_runs after_callbacks
decide x s =
    let examined = x.next_dagruns_to_examine RunState.running s.db.dag_runs in
    let (db, tuples) = schedule_all_dag_runs x examined s.db in
    after_callbacks (record s { db = db }) (send_all x.callbacks db.dag_models tuples)

-- The function up to the critical section; what it leaves has been committed.
unfoldable pub before_critical : Setting → State → Result Failure State
unfolding create_dagruns_for_dags start_queued decide
before_critical x s = do
  created ← (if x.use_job_schedule then create_dagruns_for_dags x s else ok s)
  decide x (start_queued x created)

-- What the critical section leaves; a lock that another scheduler holds is no failure.
unfoldable pub after_critical :
    Setting → State → Option (Result Error (ℕ × Database)) → Option (Result Failure (ℕ × State))
after_critical x s none = none
after_critical x s (some (err e)) =
    if x.is_lock_not_available_error e then some (ok (0, s)) else some (err (database_failure e))
after_critical x s (some (ok (n, db))) = some (ok (n, record s { db = db }))

unfoldable pub critical : Setting → State → Option (Result Failure (ℕ × State))
unfolding after_critical
critical x s =
    if nat_beq x.slots_available 0
    then some (ok (0, s))
    else after_critical x s
        (critical_section_enqueue_task_instances x.world x.max_tis_per_query x.slots_available s.db)

unfoldable pub then_critical : Setting → Result Failure State → Option (Result Failure (ℕ × State))
unfolding critical
then_critical x (err e) = some (err e)
then_critical x (ok s) = critical x s

-- `_do_scheduling`: what it returns, and the state after it. `none` means that the fuel of the
-- critical section ran out.
unfoldable pub do_scheduling : Setting → State → Option (Result Failure (ℕ × State))
unfolding before_critical then_critical
do_scheduling x s = then_critical x (before_critical x s)
