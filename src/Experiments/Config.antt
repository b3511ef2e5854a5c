-- ===== src/Experiments/Config.antt =====
-- experiments/internal/infrastructure/config/config.py and runner.py of
-- experiments/internal/infrastructure/app (under src/python/beeflow).
use beeflow.Prelude.{ℕ, Bool, Option, List, [], ◌∷◌, ◌++◌, String, if◌then◌else◌, map}
use beeflow.Prelude.Result.{Result, ok, err, ◌>>=◌, ◌>>◌}
use beeflow.Events.Json.{Dict, Error as JsonError, obj, str, entries, get, type_error}
use beeflow.Experiments.Managers.{Error, value_error}
use beeflow.Experiments.Controller.{ExperimentConfiguration, ExperimentControllerConfiguration}

pub data ControllerType : Type 0 where
  beeflow_controller mwaa_controller : ControllerType

pub record DagsBucket : Type 0 where
  pub name : String
  pub region : String
  pub dags_path_prefix : Option String

pub record ExportDag : Type 0 where
  pub dags_local_path : String
  pub dag_id : String
  pub export_wait_time_seconds : ℕ

pub record Core : Type 0 where
  pub dags_deletion_time_seconds : ℕ
  pub dags_deployment_wait_seconds : ℕ
  pub dags_start_wait_time_seconds : ℕ
  pub controller_id : String
  pub dags_bucket : DagsBucket
  pub export_dag_config : ExportDag
  pub dags_creation_cooldown_seconds : ℕ

pub record ControllerConfiguration : Type 0 where
  pub core : Core
  pub controller_type : ControllerType
  pub type_specific : Dict
  pub default_pool_size : ℕ

pub record ApplicationConfiguration : Type 0 where
  pub controllers : List ControllerConfiguration
  pub experiments : List ExperimentConfiguration

-- `__validate_experiment` and `__validate_controller`, for `os.path.isdir`.
unfoldable pub validate_experiment :
    (String → Bool) → ExperimentConfiguration → Result Error (Unit {0})
validate_experiment isdir e = if isdir e.dags_local_path then ok tt else err value_error

unfoldable pub validate_controller :
    (String → Bool) → ControllerConfiguration → Result Error (Unit {0})
validate_controller isdir c =
    if isdir c.core.export_dag_config.dags_local_path then ok tt else err value_error

-- A loop that validates.
unfoldable pub validate_each :
    {A : Type 0} → (A → Result Error (Unit {0})) → List A → Result Error (Unit {0})
validate_each check [] = ok tt
validate_each check (x ∷ xs) = check x >> validate_each check xs

-- `__validate_configuration`
unfoldable pub validate_configuration :
    (String → Bool) → ApplicationConfiguration → Result Error (Unit {0})
unfolding validate_experiment validate_controller validate_each
validate_configuration isdir c =
    validate_each (validate_experiment isdir) c.experiments
    >> validate_each (validate_controller isdir) c.controllers

-- The manager that a controller has: its function, or its environment.
pub data DagsManager : Type 0 where
  beeflow_manager mwaa_manager : String → DagsManager

-- `type_specific[part][key]`, which is used as a text.
unfoldable pub specific : String → String → Dict → Result JsonError String
specific part key d = do
  inner ← get part d
  fields ← elim inner [ obj fs ↦ ok (entries fs) | _ ↦ err type_error ]
  v ← get key fields
  elim v [ str s ↦ ok s | _ ↦ err type_error ]

unfoldable pub get_manager : ControllerConfiguration → Result JsonError DagsManager
unfolding specific
get_manager c = elim c.controller_type [
  | beeflow_controller ↦ do
    name ← specific "cli_lambda" "name" c.type_specific
    ok (beeflow_manager name)
  | mwaa_controller ↦ do
    name ← specific "mwaa" "environment_name" c.type_specific
    ok (mwaa_manager name)
]

-- An `ExperimentController`: its manager, its bucket's name and prefix, and its configuration.
pub record Controller : Type 0 where
  pub dags_manager : DagsManager
  pub bucket_name : String
  pub s3_dags_path : Option String
  pub configuration : ExperimentControllerConfiguration

-- `__get_controller`
unfoldable pub get_controller : ControllerConfiguration → Result JsonError Controller
unfolding get_manager
get_controller c = do
  manager ← get_manager c
  ok (record {
    dags_manager = manager;
    bucket_name = c.core.dags_bucket.name;
    s3_dags_path = c.core.dags_bucket.dags_path_prefix;
    configuration = record {
      controller_id = c.core.controller_id;
      dags_deletion_time_seconds = c.core.dags_deletion_time_seconds;
      dags_deployment_wait_seconds = c.core.dags_deployment_wait_seconds;
      dags_start_wait_time_seconds = c.core.dags_start_wait_time_seconds;
      export_dag_id = c.core.export_dag_config.dag_id;
      export_dag_folder_path = c.core.export_dag_config.dags_local_path;
      export_wait_time_seconds = c.core.export_dag_config.export_wait_time_seconds;
      dags_creation_cooldown_seconds = c.core.dags_creation_cooldown_seconds;
      default_pool_size = c.default_pool_size;
    };
  })

-- The controllers of `ExperimentRunner`.
unfoldable pub get_controllers : List ControllerConfiguration → Result JsonError (List Controller)
unfolding get_controller
get_controllers [] = ok []
get_controllers (c ∷ cs) = do first ← get_controller c; rest ← get_controllers cs; ok (first ∷ rest)

-- What the runner does with its threads: a controller's run of an experiment is started, or awaited.
pub data ThreadEvent : Type 0 where
  start join : Controller → ExperimentConfiguration → ThreadEvent

-- `__run_experiment`, and `run`.
unfoldable pub run_experiment_on : List Controller → ExperimentConfiguration → List ThreadEvent
run_experiment_on controllers e =
    map (λ c. start c e) controllers ++ map (λ c. join c e) controllers

unfoldable pub run : List Controller → List ExperimentConfiguration → List ThreadEvent
unfolding run_experiment_on
run controllers [] = []
run controllers (e ∷ experiments) = run_experiment_on controllers e ++ run controllers experiments
