-- ===== src/Executors/Catch.antt =====
-- lambdas/lambda_executor_catcher/lambda_executor_catcher.py and
-- lambdas/batch_executor_catcher/batch_executor_catcher.py (under src/python/beeflow).
use beeflow.Prelude.{
  Bool, Option, none, some, [], ◌∷◌, String, ◌≡◌, refl, inl, inr, if◌then◌else◌, lookup, string_eq,
}
use beeflow.Prelude.Int.{ℤ}
use beeflow.Prelude.Result.{Result, ok, err, ◌>>=◌, ◌>>◌, Result-cases}
use beeflow.Events.Json.{
  Json, Dict, Error, type_error, service_error, str, obj, entries, end, field, get, get-found,
}
use beeflow.Events.Models.{TaskInstanceQueued}
use beeflow.Events.Pydantic.{IsExact}
use beeflow.Executors.Messages.{to_dict, parse_queued, parse_queued-to_dict}
use beeflow.Executors.Start.{
  Surroundings, lambda_field, batch_field, env, lambda_input, batch_input,
}

unfoldable pub object : Json → Result Error Dict
object (obj fs) = ok (entries fs)
object _ = err type_error

unfoldable pub text : Json → Result Error String
text (str s) = ok s
text _ = err type_error

-- The events that the two handlers read from the input of a failed execution.
unfoldable pub lambda_event : Surroundings → Dict → Result Error TaskInstanceQueued
unfolding env object get
lambda_event s input = do
  key ← env s lambda_field
  inner ← get key input
  d ← object inner
  parse_queued s.pydantic d

unfoldable pub batch_event : Surroundings → Dict → Result Error TaskInstanceQueued
unfolding env object text get
batch_event s input = do
  key ← env s batch_field
  serialized ← get key input
  json ← text serialized >>= s.loads
  d ← object json
  parse_queued s.pydantic d

pub record DagBag : Type 0 where
  -- `dagbag.dags.get(dag_id)`, with whether the DAG has a task
  pub dags : String → Option (String → Bool)

-- What a catcher takes from outside: how `DagsDownloader().download_dags()` ends, the DAG bag, and how
-- `_get_ti`, `ti.init_run_context()` and `ti.error()` end for the task instance of an event.
pub record CatcherWorld : Type 0 where
  pub download_dags : Result Error (Unit {0})
  pub bag : DagBag
  pub get_ti : TaskInstanceQueued → Result Error (Unit {0})
  pub init_run_context : TaskInstanceQueued → Result Error (Unit {0})
  pub error : TaskInstanceQueued → Result Error (Unit {0})

-- `ti.error()` was called on this task instance.
pub record Marked : Type 0 where
  pub dag_id : String
  pub task_id : String
  pub run_id : String
  pub map_index : ℤ
  pub pool : String

-- The calls for a task that the DAG has.
unfoldable pub mark_found : CatcherWorld → TaskInstanceQueued → Result Error (Option Marked)
mark_found x e = do
  x.get_ti e
  x.init_run_context e
  x.error e
  ok (
      some (record {
        dag_id = e.dag_id;
        task_id = e.task_id;
        run_id = e.run_id;
        map_index = e.map_index;
        pool = e.pool;
      }))

-- `mark_task_as_failed`: nothing for a DAG that is not there, an exception for a task that is not.
unfoldable pub mark_task_as_failed :
    CatcherWorld → TaskInstanceQueued → Result Error (Option Marked)
unfolding mark_found
mark_task_as_failed x e = elim (x.bag.dags e.dag_id) [
  | none ↦ ok none
  | some has_task ↦ if has_task e.task_id then mark_found x e else err service_error
]

unfoldable pub lambda_catcher : Surroundings → CatcherWorld → Dict → Result Error (Option Marked)
unfolding lambda_event mark_task_as_failed
lambda_catcher s x input = do x.download_dags; e ← lambda_event s input; mark_task_as_failed x e

unfoldable pub batch_catcher : Surroundings → CatcherWorld → Dict → Result Error (Option Marked)
unfolding batch_event mark_task_as_failed
batch_catcher s x input = do x.download_dags; e ← batch_event s input; mark_task_as_failed x e

get_single : (key : String) (v : Json) → get key (entries (field key v end)) ≡ ok v
unfolding entries lookup
get_single key v = get-found key ((key, v) ∷ []) (rw ((string_eq.agrees_iff key key).1 refl) refl)

-- The catcher of either executor downloads the DAGs, reads, from the input that the executor starts an
-- execution with, the event that the executor was given, and marks its task instance. Values of a
-- field's type are taken as they are, and `json.loads` reads back what `json.dumps` writes for the
-- event.
pub catcher_reads_executor :
    (s : Surroundings) (x : CatcherWorld) (e : TaskInstanceQueued)
    → IsExact s.pydantic
    → s.loads (s.dumps (to_dict e)) ≡ ok (obj (to_dict e))
    → ((lambda_input s e >>= λ input. lambda_catcher s x (entries input))
        ≡ (lambda_input s e >> (x.download_dags >> mark_task_as_failed x e)))
      × ((batch_input s e >>= λ input. batch_catcher s x (entries input))
          ≡ (batch_input s e >> (x.download_dags >> mark_task_as_failed x e)))
unfolding lambda_input batch_input lambda_catcher batch_catcher lambda_event batch_event
catcher_reads_executor s x e exact reads = (
  elim (Result-cases (env s lambda_field)) [
    | inl (key, h) ↦ rw (h, get_single key, parse_queued-to_dict s.pydantic e exact) refl
    | inr (raised, h) ↦ rw h refl
  ],
  elim (Result-cases (env s batch_field)) [
    | inl (key, h) ↦ rw (h, get_single key, reads, parse_queued-to_dict s.pydantic e exact) refl
    | inr (raised, h) ↦ rw h refl
  ],
)
