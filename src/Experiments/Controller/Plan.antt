-- ===== src/Experiments/Controller/Plan.antt =====
-- The calls of a whole experiment, in order, against Experiments/Controller.
use beeflow.Prelude.{List, [], ◌∷◌, ◌++◌, map}
use beeflow.Prelude.Result.{Result}
use beeflow.Prelude.Actions.Follows.{Follows}
use beeflow.Experiments.Controller.{
  ExperimentConfiguration, ExperimentControllerConfiguration, Call,
}
use beeflow.Experiments.Controller.Call.{
  scale_default_pool, wait_until_dag_exists, start_dag, stop_dag, delete_dag, trigger_dag,
  clear_dags, publish_dags, sleep,
}

-- The parts of the plan of an experiment.
abbrev filling : ExperimentControllerConfiguration → ExperimentConfiguration → List Call
filling k c =
    sleep k.dags_deletion_time_seconds
    ∷ publish_dags c.dags_local_path
    ∷ sleep k.dags_creation_cooldown_seconds
    ∷ map (λ dag_id. wait_until_dag_exists dag_id k.dags_deployment_wait_seconds) c.dag_ids

abbrev creation : ExperimentControllerConfiguration → ExperimentConfiguration → List Call
creation k c = map delete_dag c.dag_ids ++ clear_dags ∷ filling k c

abbrev exporting : ExperimentControllerConfiguration → List Call
exporting k =
    publish_dags k.export_dag_folder_path
    ∷ sleep k.dags_creation_cooldown_seconds
    ∷ wait_until_dag_exists k.export_dag_id k.dags_deployment_wait_seconds
    ∷ start_dag k.export_dag_id
    ∷ trigger_dag k.export_dag_id
    ∷ sleep k.export_wait_time_seconds
    ∷ stop_dag k.export_dag_id
    ∷ delete_dag k.export_dag_id
    ∷ []

abbrev measuring : ExperimentControllerConfiguration → ExperimentConfiguration → List Call
measuring k c =
    (map start_dag c.dag_ids ++ sleep k.dags_start_wait_time_seconds ∷ [])
    ++ ((sleep c.metrics_collection_time_seconds ∷ [])
        ++ (map stop_dag c.dag_ids
            ++ (exporting k
                ++ (map delete_dag c.dag_ids
                    ++ (clear_dags ∷ sleep k.dags_deletion_time_seconds ∷ [])))))

abbrev pub plan : ExperimentControllerConfiguration → ExperimentConfiguration → List Call
plan k c = (scale_default_pool k.default_pool_size ∷ []) ++ (creation k c ++ measuring k c)
