-- ===== src/Services/Configuration.antt =====
-- packages/config/config.py (under src/python/beeflow).
use beeflow.Prelude.{
  ◌≡◌, refl, Option, none, some, String, ◌==◌, string_eq, if◌then◌else◌, inl, inr,
}
use beeflow.Prelude.Result.{Result, ok, err, ◌>>=◌, Result-cases}
use beeflow.Events.Json.{Error, key_error}

-- The arguments of `Configuration.load`.
pub record Arguments : Type 0 where
  pub app_config_name : Option String
  pub environment : Option String
  pub application : Option String
  pub airflow_home : Option String
  pub config_bucket : Option String
  pub config_bucket_key : Option String

abbrev pub skip_config_pull : String
skip_config_pull = "BEEFLOW__SKIP_CONFIG_PULL"

abbrev pub app_config_name_var : String
app_config_name_var = "BEEFLOW__APP_CONFIG_NAME"

abbrev pub environment_var : String
environment_var = "BEEFLOW__ENVIRONMENT"

abbrev pub application_var : String
application_var = "BEEFLOW__APPLICATION"

abbrev pub airflow_home_var : String
airflow_home_var = "AIRFLOW_HOME"

abbrev pub config_bucket_var : String
config_bucket_var = "BEEFLOW__CONFIGURATION_BUCKET_NAME"

abbrev pub config_bucket_key_var : String
config_bucket_key_var = "BEEFLOW__CONFIGURATION_BUCKET_KEY"

-- What was pulled, and the file that it was written to.
pub data Pulled : Type 0 where
  skipped : Pulled
  from_bucket : String → String → String → Pulled
  from_app_config : String → String → String → String → Pulled

-- An argument, or what the environment has in place of None.
abbrev pub or_environ : Option String → Option String → Option String
or_environ (some v) other = some v
or_environ none other = other

-- The same with `os.environ[key]`.
abbrev pub required : String → Option String → Result Error String
required key none = err (key_error key)
required key (some v) = ok v

module _ (join : String → String → String) (environ : String → Option String) (a : Arguments) where
  -- The end of the function.
  unfoldable pub pull_app_config : String → Result Error Pulled
  pull_app_config full_airflow_config_path = do
    name ← required app_config_name_var (or_environ a.app_config_name (environ app_config_name_var))
    environment ← required environment_var (or_environ a.environment (environ environment_var))
    application ← required application_var (or_environ a.application (environ application_var))
    ok (from_app_config application environment name full_airflow_config_path)

  -- The branch on the bucket and its key.
  unfoldable pub pull_config : Option String → Option String → String → Result Error Pulled
  unfolding pull_app_config
  pull_config (some bucket) (some key) full_airflow_config_path =
      ok (from_bucket bucket key full_airflow_config_path)
  pull_config _ _ full_airflow_config_path = pull_app_config full_airflow_config_path

  unfoldable pub load_unless : Option String → Result Error Pulled
  unfolding pull_config
  load_unless (some skip) = ok skipped
  load_unless none = do
    home ← required airflow_home_var (or_environ a.airflow_home (environ airflow_home_var))
    pull_config (or_environ a.config_bucket (environ config_bucket_var))
        (or_environ a.config_bucket_key (environ config_bucket_key_var)) (join home "airflow.cfg")

  -- `Configuration.load`
  unfoldable pub load : Result Error Pulled
  unfolding load_unless
  load = load_unless (environ skip_config_pull)

-- The argument that a variable stands for.
abbrev pub argument : Arguments → String → Option String
argument a key =
    if key == app_config_name_var
    then a.app_config_name
    else if key == environment_var
    then a.environment
    else if key == application_var
    then a.application
    else if key == airflow_home_var
    then a.airflow_home
    else if key == config_bucket_var
    then a.config_bucket
    else if key == config_bucket_key_var
    then a.config_bucket_key
    else none

-- The environment in which every argument that is not None is set as its variable.
abbrev pub as_environ : Arguments → (String → Option String) → String → Option String
as_environ a environ key = or_environ (argument a key) (environ key)

abbrev pub no_arguments : Arguments
no_arguments = record {
  app_config_name = none;
  environment = none;
  application = none;
  airflow_home = none;
  config_bucket = none;
  config_bucket_key = none;
}

module _ (join : String → String → String) (environ : String → Option String) (a : Arguments) where
  pull_config-as_environ :
      (bucket key : Option String) (path : String)
      → pull_config join (as_environ a environ) no_arguments bucket key path
        ≡ pull_config join environ a bucket key path
  unfolding pull_config pull_app_config
  pull_config-as_environ none key path = refl
  pull_config-as_environ (some bucket) none path = refl
  pull_config-as_environ (some bucket) (some key) path = refl

  load_unless-as_environ :
      (skip : Option String)
      → load_unless join (as_environ a environ) no_arguments skip ≡ load_unless join environ a skip
  unfolding load_unless
  load_unless-as_environ (some skip) = refl
  load_unless-as_environ none =
      let home = required airflow_home_var (or_environ a.airflow_home (environ airflow_home_var)) in
      elim (Result-cases home) [
        | inr (e, missing) ↦ rw missing refl
        | inl (directory, found) ↦ rw found (
            pull_config-as_environ (or_environ a.config_bucket (environ config_bucket_var))
              (or_environ a.config_bucket_key (environ config_bucket_key_var))
              (join directory "airflow.cfg"))
      ]

-- Passing an argument comes to the same as setting its variable in the environment, whatever the
-- variable had: an argument goes before the environment, also where the call raises.
pub load-as_environ :
    (join : String → String → String) (environ : String → Option String) (a : Arguments)
    → load join (as_environ a environ) no_arguments ≡ load join environ a
unfolding load
load-as_environ join environ a = load_unless-as_environ join environ a (environ skip_config_pull)
