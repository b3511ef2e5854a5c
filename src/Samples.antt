-- ===== src/Samples.antt =====
-- Concrete pydantic coercions, and a task instance event, for the samples of the components.
mod Events
mod Forwarders
mod Executors
mod Executions
mod Worker
mod Schedules
mod Runs
mod Experiments
mod Pipeline
mod Services
use beeflow.Prelude.{ℕ, ◌≡◌, refl, Bool, List, String}
use beeflow.Prelude.Int.{ℤ, pos}
use beeflow.Prelude.Result.{Result, ok, err}
use beeflow.Events.Json.{Json, Error, str, num, bool, validation_error}
use beeflow.Events.Pydantic.{Pydantic, IsExact}
use beeflow.Events.Models.{TaskInstanceQueued, new_task_instance_queued}

abbrev pub strict_str : Json → Result Error String
strict_str (str s) = ok s
strict_str _ = err validation_error

abbrev pub strict_int : Json → Result Error ℤ
strict_int (num n) = ok n
strict_int _ = err validation_error

abbrev pub strict_bool : Json → Result Error Bool
strict_bool (bool b) = ok b
strict_bool _ = err validation_error

abbrev pub strict : Pydantic
strict = record { as_str = strict_str; as_int = strict_int; as_bool = strict_bool }

pub strict-IsExact : IsExact strict
strict-IsExact = record { str_exact = λ s. refl; int_exact = λ n. refl; bool_exact = λ b. refl }

abbrev pub queued_load : TaskInstanceQueued
queued_load =
    new_task_instance_queued "etl" "r1" "load" (pos 0) (pos 1) "default_pool" "lambda" "2023-01-01"
