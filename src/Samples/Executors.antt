-- ===== src/Samples/Executors.antt =====
-- Samples of the executors and their catchers in lambdas (under src/python/beeflow), and of
-- packages/sfn.
use beeflow.Prelude.{
  ℕ, ◌≡◌, refl, none, some, List, [], ◌∷◌, String, if◌then◌else◌, ◌==◌, string_eq, nat_eq,
}
use beeflow.Prelude.Int.{pos}
use beeflow.Prelude.Result.{Result, ok, err}
use beeflow.Events.Json.{Json, Error, value_error, obj}
use beeflow.Events.Models.{TaskInstanceQueued, new_task_instance_queued}
use beeflow.Executors.Names.{from_ti_queued_event, from_ti_queued_event_collides}
use beeflow.Executors.Messages.{to_dict}
use beeflow.Executors.Start.{Surroundings}
use beeflow.Executors.Catch.{DagBag, CatcherWorld}
use beeflow.Samples.{strict, queued_load}

abbrev two : String → String → TaskInstanceQueued
two dag_id task_id =
    new_task_instance_queued dag_id "r1" task_id (pos 0) (pos 1) "default_pool" "lambda"
      "2023-01-01"

-- What stands for SHA-256 and for `json` here tells by the first byte, and knows one event.
abbrev first_byte : List ℕ → String
first_byte [] = ""
first_byte (n ∷ _) = if n == 101 then "e" else "other"

from_ti_queued_event_collides_example :
    from_ti_queued_event first_byte (two "etl_a" "b")
    ≡ from_ti_queued_event first_byte (two "etl_" "ab")
unfolding new_task_instance_queued
from_ti_queued_event_collides_example =
    from_ti_queued_event_collides first_byte (two "etl_a" "b") (two "etl_" "ab") refl refl refl refl
      refl

abbrev loads_one : String → Result Error Json
loads_one t = if t == "load of etl" then ok (obj (to_dict queued_load)) else err value_error

abbrev pub surroundings : Surroundings
surroundings = record {
  environ = λ key. some "event";
  pydantic = strict;
  hexdigest = first_byte;
  dumps = λ fs. "load of etl";
  loads = loads_one;
}

-- A DAG bag with one DAG, of one task.
abbrev pub bag : DagBag
bag = record {
  dags = λ dag_id. if dag_id == "etl" then some (λ task_id. task_id == "load") else none;
}

-- A catcher whose calls all go well.
abbrev pub catcher : CatcherWorld
catcher = record {
  download_dags = ok tt;
  bag = bag;
  get_ti = λ e. ok tt;
  init_run_context = λ e. ok tt;
  error = λ e. ok tt;
}
