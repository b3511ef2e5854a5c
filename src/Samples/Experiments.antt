-- ===== src/Samples/Experiments.antt =====
-- Samples of the experiments (src/python/beeflow/experiments).
use beeflow.Prelude.{
  ℕ, ◌+◌, ◌≡◌, refl, true, some, List, [], ◌∷◌, ◌++◌, ◌⊎◌, arith, ltb, ◌==◌, String, string_eq,
  lookup, insert, contains,
}
use beeflow.Prelude.Result.{Result, ok, err}
use beeflow.Experiments.Controller.{
  ExperimentConfiguration, ExperimentControllerConfiguration, Call, Services,
}
use beeflow.Experiments.Bucket.{Bucket, FileSystem, clear_dags, publish_dags}
use beeflow.Experiments.Bucket.Published.{Holds, publish_dags-clear_dags}
use beeflow.Experiments.Managers.{Error, exception, Check, wait_until}
use beeflow.Experiments.Managers.Waiting.{HasRaised, HasLooked, wait_until_total}

abbrev of_controller : ExperimentControllerConfiguration
of_controller = record {
  dags_deletion_time_seconds = 1;
  dags_deployment_wait_seconds = 300;
  dags_creation_cooldown_seconds = 2;
  dags_start_wait_time_seconds = 3;
  controller_id = "beeflow";
  export_dag_id = "export";
  export_dag_folder_path = "export/";
  export_wait_time_seconds = 4;
  default_pool_size = 8;
}

abbrev of_experiment : ExperimentConfiguration
of_experiment = record {
  dags_local_path = "dags/";
  dag_ids = "a" ∷ "b" ∷ [];
  metrics_collection_time_seconds = 60;
  experiment_id = "e1";
}

-- Every deletion fails; the state is the list of the calls.
abbrev answer_of : Call → Result Error (Unit {0})
answer_of (Call.delete_dag dag_id) = err exception
answer_of _ = ok tt

abbrev without_deletions : Services (List Call) Error
without_deletions call log = (answer_of call, log ++ call ∷ [])

-- A DAG that is there from second 20 on; the state is the time.
abbrev there_from : Check ℕ
there_from now = (ok (ltb 19 now), now)

wait_until_total_example :
    (out : Result Error (Unit {0}) × ℕ) × (wait_until
        (λ now. now)
        (λ n now. now + n)
        there_from
        300
        0
      ≡ some out)
    × (HasRaised (λ now. now) there_from 300 out ⊎ HasLooked (λ now. now) there_from 300 out)
wait_until_total_example =
    wait_until_total (λ now. now) (λ n now. now + n) there_from 300 0 (λ n now. omega arith)
      (λ now. omega arith)

-- Two DAGs and a build file, in a directory.
abbrev local : FileSystem
local = record {
  isdir = λ path. path == "dags/";
  isfile = λ path. true;
  listdir = λ path. ok ("a.py" ∷ "BUILD" ∷ "b.py" ∷ []);
  join = λ path file. file;
  upload_file = λ path key. ok path;
}

abbrev bucket_before : Bucket
bucket_before = ("dags/old.py", "old") ∷ ("plugins/p.py", "p") ∷ []

abbrev bucket_after : Bucket
bucket_after = ("plugins/p.py", "p") ∷ ("dags/a.py", "a.py") ∷ ("dags/b.py", "b.py") ∷ []

published :
    publish_dags local (some "dags") "dags/" (clear_dags (some "dags") bucket_before)
    ≡ (ok ("a.py" ∷ "b.py" ∷ []), bucket_after)
unfolding publish_dags beeflow.Experiments.Bucket.publish_listed
    beeflow.Experiments.Bucket.return_files clear_dags beeflow.Experiments.Bucket.upload_files
    insert contains
published = refl

publish_dags-clear_dags_example :
    ((content : String) × (local.upload_file "b.py" "dags/b.py" ≡ ok content)
      × (lookup "dags/b.py" bucket_after ≡ some content))
    × Holds (some "dags") ("a.py" ∷ "b.py" ∷ []) bucket_before bucket_after "dags/old.py"
unfolding contains
publish_dags-clear_dags_example =
    publish_dags-clear_dags local (some "dags") "dags/" bucket_before bucket_after
      ("a.py" ∷ "b.py" ∷ []) "b.py" "dags/old.py" published refl
