-- ===== src/Scheduler/Callbacks.antt =====
-- The callbacks that lambdas/scheduler/scheduler_job.py (under src/python/beeflow) sends:
-- `_send_dag_callbacks_to_processor`, `_send_sla_callbacks_to_processor`, the loop of
-- `_do_scheduling` over the callbacks, and `_update_dag_run_state_for_paused_dags`.
pub mod Sent
use beeflow.Prelude.{
  ℕ, Bool, true, false, not, ◌&&◌, Option, none, some, List, [], ◌∷◌, ◌++◌, String, if◌then◌else◌,
  ◌==◌, string_eq, contains, add, filter,
}
use beeflow.Prelude.Result.{Result, ok, err, ◌>>=◌}
use beeflow.Scheduler.Tables.{TaskInstance, DagRun, DagModel, Dag, is_running_run, is_backfill}
use beeflow.Scheduler.Query.{find_dag_model}
use beeflow.Scheduler.Decisions.{DagCallbackRequest}

pub record SlaCallbackRequest : Type 0 where
  pub full_filepath : String
  pub dag_id : String
  pub processor_subdir : Option String

pub data Callback : Type 0 where
  dag_callback : DagCallbackRequest → Callback
  sla_callback : SlaCallbackRequest → Callback

pub data CallbackError : Type 0 where
  attribute_error : CallbackError

-- What these functions take from Airflow.
pub record Callbacks : Type 0 where
  -- `settings.CHECK_SLAS`
  pub check_slas : Bool
  -- whether the `sla` of some task of the DAG is a `timedelta`, and `dag.timetable.periodic`
  pub has_sla : Dag → Bool
  pub is_periodic : Dag → Bool
  pub get_dag : String → Option Dag

-- The end of the function; `DagModel.get_dagmodel` returns None for a DAG without a model.
unfoldable pub sla_request : Dag → Option DagModel → Result CallbackError (List Callback)
sla_request dag none = err attribute_error
sla_request dag (some model) = ok (
    sla_callback (record {
      full_filepath = dag.fileloc;
      dag_id = dag.dag_id;
      processor_subdir = model.processor_subdir;
    })
    ∷ [])

-- `_send_sla_callbacks_to_processor`: what it sends.
unfoldable pub send_sla_callbacks :
    Callbacks → List DagModel → Dag → Result CallbackError (List Callback)
unfolding sla_request
send_sla_callbacks k models dag =
    if not k.check_slas
    then ok []
    else if not (k.has_sla dag)
    then ok []
    else if not (k.is_periodic dag)
    then ok []
    else sla_request dag (find_dag_model models dag.dag_id)

abbrev pub requested : Option DagCallbackRequest → List Callback
requested none = []
requested (some request) = dag_callback request ∷ []

-- `_send_dag_callbacks_to_processor`
unfoldable pub send_dag_callbacks :
    Callbacks
    → List DagModel
    → Dag
    → Option DagCallbackRequest
    → Result CallbackError (List Callback)
unfolding send_sla_callbacks
send_dag_callbacks k models dag callback = do
  slas ← send_sla_callbacks k models dag
  ok (slas ++ requested callback)

-- The body of the loop, for the DAG that is found.
unfoldable pub send_for :
    Callbacks
    → List DagModel
    → Option Dag
    → Option DagCallbackRequest
    → Result CallbackError (List Callback)
unfolding send_dag_callbacks
send_for k models none callback = ok []
send_for k models (some dag) callback = send_dag_callbacks k models dag callback

-- `for dag_run, callback_to_run in callback_tuples`
unfoldable pub send_all :
    Callbacks
    → List DagModel
    → List (DagRun × Option DagCallbackRequest)
    → Result CallbackError (List Callback)
unfolding send_for
send_all k models [] = ok []
send_all k models ((run, callback) ∷ tuples) = do
  first ← send_for k models (k.get_dag run.dag_id) callback
  rest ← send_all k models tuples
  ok (first ++ rest)

-- What `dag_run.update_state` leaves of the run and of the table of task instances, and the callback
-- that it returns.
pub record PausedUpdate : Type 0 where
  pub run : DagRun
  pub task_instances : List TaskInstance
  pub callback : Option DagCallbackRequest

-- What `_update_dag_run_state_for_paused_dags` takes from Airflow: `SerializedDagModel.get_dag`, and
-- `dag_run.update_state`, for a DAG, a run of it and the task instances.
pub record Paused : Type 0 where
  pub get_dag : String → Option Dag
  pub update_state : Dag → DagRun → List TaskInstance → PausedUpdate

-- The runs, the task instances, the callbacks and the set `_paused_dag_without_running_dagruns`.
pub record PausedState : Type 0 where
  pub dag_runs : List DagRun
  pub task_instances : List TaskInstance
  pub sent : List Callback
  pub without_running : List String

abbrev pub is_live : String → DagRun → Bool
is_live dag_id run =
    run.dag_id == dag_id && is_running_run run.state && not (is_backfill run.run_type)

-- `if callback_to_run: self._send_dag_callbacks_to_processor(dag, callback_to_run)`
unfoldable pub send_if :
    Callbacks
    → List DagModel
    → Dag
    → Option DagCallbackRequest
    → Result CallbackError (List Callback)
unfolding send_dag_callbacks
send_if k models dag none = ok []
send_if k models dag (some request) = send_dag_callbacks k models dag (some request)

-- The rows after the loop over the runs of a DAG, and whether it has raised.
pub record PausedRuns : Type 0 where
  pub dag_runs : List DagRun
  pub task_instances : List TaskInstance
  pub sent : List Callback
  pub raised : Bool

-- The call of `dag_run.update_state`, for a run that the query of the loop returns.
unfoldable pub update_if : Paused → Dag → Bool → DagRun → List TaskInstance → PausedUpdate
update_if p dag true run tis = p.update_state dag run tis
update_if p dag false run tis = record { run = run; task_instances = tis; callback = none }

-- The end of the loop's body: an exception ends the loop, and leaves the rows that come later.
unfoldable pub after_send :
    PausedUpdate → List DagRun → Result CallbackError (List Callback) → PausedRuns → PausedRuns
after_send u runs (err e) rest = record {
  dag_runs = u.run ∷ runs;
  task_instances = u.task_instances;
  sent = [];
  raised = true;
}
after_send u runs (ok callbacks) rest = record rest {
  dag_runs = u.run ∷ rest.dag_runs;
  sent = callbacks ++ rest.sent;
}

-- The loop over the runs of a DAG. The other runs of the table stay as they are.
unfoldable pub update_runs :
    Callbacks → Paused → List DagModel → Dag → String → List DagRun → List TaskInstance → PausedRuns
unfolding update_if send_if after_send
update_runs k p models dag dag_id [] tis = record {
  dag_runs = [];
  task_instances = tis;
  sent = [];
  raised = false;
}
update_runs k p models dag dag_id (run ∷ runs) tis =
    let u = update_if p dag (is_live dag_id run) run tis in
    let rest = update_runs k p models dag dag_id runs u.task_instances in
    after_send u runs (send_if k models dag u.callback) rest

-- The end of the loop's body: the set has the DAG, unless an exception was raised.
unfoldable pub mark_paused : String → PausedRuns → PausedState → PausedState
mark_paused dag_id after s = record {
  dag_runs = after.dag_runs;
  task_instances = after.task_instances;
  sent = s.sent ++ after.sent;
  without_running = if after.raised then s.without_running else add dag_id s.without_running;
}

-- The loop over the DAGs. An exception ends it, and is only logged.
unfoldable pub update_dags :
    Callbacks → Paused → List DagModel → List String → PausedState → PausedState
unfolding update_runs mark_paused
update_dags k p models [] s = s
update_dags k p models (dag_id ∷ dag_ids) s =
    if contains dag_id s.without_running
    then update_dags k p models dag_ids s
    else elim (p.get_dag dag_id) [
      | none ↦ update_dags k p models dag_ids s
      | some dag ↦
          let after = update_runs k p models dag dag_id s.dag_runs s.task_instances in
          let next = mark_paused dag_id after s in
          if after.raised then next else update_dags k p models dag_ids next
    ]

-- `_update_dag_run_state_for_paused_dags`, for the ids that `DagModel.get_all_paused_dag_ids` returns.
unfoldable pub update_dag_run_state_for_paused_dags :
    Callbacks → Paused → List DagModel → List String → PausedState → PausedState
unfolding update_dags
update_dag_run_state_for_paused_dags k p models paused_dag_ids s =
    update_dags k p models paused_dag_ids s
