-- ===== src/Events/Converter.antt =====
-- packages/events/database_passthrough_event_converter.py (under src/python/beeflow).
pub mod Tasks
pub mod Dags
pub mod TaskTypes
use beeflow.Prelude.{
  Bool, true, false, ◌&&◌, Option, none, some, List, [], ◌∷◌, String, if◌then◌else◌, ◌==◌,
  string_eq, lookup,
}
use beeflow.Prelude.Result.{Result, ok, err}
use beeflow.Events.Json.{Dict, Error, value_error, is_present}
use beeflow.Events.Models.{BeeflowEvent}
use beeflow.Events.Pydantic.{Pydantic}
use Tasks.{convert_to_task_instance_event}
use Dags.{convert_to_dag_event, convert_to_dag_run_event}

-- The loop over `required_fields`.
unfoldable pub has_all : List String → Dict → Bool
has_all [] m = true
has_all (f ∷ fs) m = is_present (lookup f m) && has_all fs m

abbrev pub task_instance_fields : List String
task_instance_fields =
    "task_id" ∷ "dag_id" ∷ "run_id" ∷ "operator" ∷ "max_tries" ∷ "queue" ∷ "pool" ∷ "try_number"
    ∷ "map_index" ∷ []

abbrev pub dag_fields : List String
dag_fields = "dag_id" ∷ "is_paused" ∷ "is_active" ∷ []

abbrev pub dag_run_fields : List String
dag_run_fields = "dag_id" ∷ "dag_hash" ∷ "run_id" ∷ "run_type" ∷ "queued_at" ∷ "execution_date" ∷ []

-- The shape of the three `__is_..._event` methods: the hint decides if there is one.
unfoldable pub is_table : String → List String → Option String → Dict → Bool
unfolding has_all
is_table table fields none m = has_all fields m
is_table table fields (some hint) m = hint == table

unfoldable pub is_task_instance_event : Option String → Dict → Bool
unfolding is_table
is_task_instance_event hint m = is_table "task_instance" task_instance_fields hint m

unfoldable pub is_dag_event : Option String → Dict → Bool
unfolding is_table
is_dag_event hint m = is_table "dag" dag_fields hint m

unfoldable pub is_dag_run_event : Option String → Dict → Bool
unfolding is_table
is_dag_run_event hint m = is_table "dag_run" dag_run_fields hint m

unfoldable pub convert : Pydantic → Option String → Dict → Result Error BeeflowEvent
unfolding is_task_instance_event is_dag_event is_dag_run_event
convert p hint m =
    if is_task_instance_event hint m
    then convert_to_task_instance_event p m
    else if is_dag_event hint m
    then convert_to_dag_event p m
    else if is_dag_run_event hint m
    then convert_to_dag_run_event p m
    else err value_error
