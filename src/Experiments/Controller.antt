-- ===== src/Experiments/Controller.antt =====
-- experiments/internal/adapters/controllers/experiment_controller.py (under src/python/beeflow). The
-- progress bars are left out.
pub mod Plan
use beeflow.Prelude.{ℕ, String, List}
use beeflow.Prelude.Actions.{Action, and_then, for_each, try_action}

pub record ExperimentConfiguration : Type 0 where
  pub dags_local_path : String
  pub dag_ids : List String
  pub metrics_collection_time_seconds : ℕ
  pub experiment_id : String

pub record ExperimentControllerConfiguration : Type 0 where
  pub dags_deletion_time_seconds : ℕ
  pub dags_deployment_wait_seconds : ℕ
  pub dags_creation_cooldown_seconds : ℕ
  pub dags_start_wait_time_seconds : ℕ
  pub controller_id : String
  pub export_dag_id : String
  pub export_dag_folder_path : String
  pub export_wait_time_seconds : ℕ
  pub default_pool_size : ℕ

-- The calls that the controller makes.
pub data Call : Type 0 where
  scale_default_pool : ℕ → Call
  wait_until_dag_exists : String → ℕ → Call
  start_dag stop_dag delete_dag trigger_dag : String → Call
  clear_dags : Call
  publish_dags : String → Call
  sleep : ℕ → Call

-- `IBucketManager`, `IDagsManager` and `sleep`: what each call does to the world.
abbrev pub Services : Type 0 → Type 0 → Type 0
Services S E = Call → Action S E

module _ {S E : Type 0} (services : Services S E) where
  unfoldable pub stop_dags : ExperimentConfiguration → Action S E
  unfolding for_each
  stop_dags c = for_each (λ dag_id. services (stop_dag dag_id)) c.dag_ids

  unfoldable pub collect_metrics : ExperimentConfiguration → Action S E
  collect_metrics c = services (sleep c.metrics_collection_time_seconds)

  unfoldable pub start_dags :
      ExperimentControllerConfiguration → ExperimentConfiguration → Action S E
  unfolding for_each and_then
  start_dags k c =
      and_then (for_each (λ dag_id. services (start_dag dag_id)) c.dag_ids)
        (services (sleep k.dags_start_wait_time_seconds))

  unfoldable pub try_delete_dags : ExperimentConfiguration → Action S E
  unfolding for_each try_action
  try_delete_dags c = for_each (λ dag_id. try_action (services (delete_dag dag_id))) c.dag_ids

  unfoldable pub create_dags :
      ExperimentControllerConfiguration → ExperimentConfiguration → Action S E
  unfolding try_delete_dags for_each and_then
  create_dags k c = and_then (try_delete_dags c) (
      and_then (services clear_dags) (
        and_then (services (sleep k.dags_deletion_time_seconds)) (
          and_then (services (publish_dags c.dags_local_path)) (
            and_then (services (sleep k.dags_creation_cooldown_seconds)) (
              for_each
                (λ dag_id. services (wait_until_dag_exists dag_id k.dags_deployment_wait_seconds))
                c.dag_ids)))))

  unfoldable pub export_metrics : ExperimentControllerConfiguration → Action S E
  unfolding and_then
  export_metrics k = and_then (services (publish_dags k.export_dag_folder_path)) (
      and_then (services (sleep k.dags_creation_cooldown_seconds)) (
        and_then (services (wait_until_dag_exists k.export_dag_id k.dags_deployment_wait_seconds)) (
          and_then (services (start_dag k.export_dag_id)) (
            and_then (services (trigger_dag k.export_dag_id)) (
              and_then (services (sleep k.export_wait_time_seconds)) (
                and_then (services (stop_dag k.export_dag_id))
                  (services (delete_dag k.export_dag_id))))))))

  unfoldable pub clean_up : ExperimentControllerConfiguration → Action S E
  unfolding and_then
  clean_up k = and_then (services clear_dags) (services (sleep k.dags_deletion_time_seconds))

  unfoldable pub delete_dags : ExperimentConfiguration → Action S E
  unfolding for_each
  delete_dags c = for_each (λ dag_id. services (delete_dag dag_id)) c.dag_ids

  unfoldable pub prepare_environment : ExperimentControllerConfiguration → Action S E
  prepare_environment k = services (scale_default_pool k.default_pool_size)

  unfoldable pub run_experiment :
      ExperimentControllerConfiguration → ExperimentConfiguration → Action S E
  unfolding and_then
  run_experiment k c = and_then (prepare_environment k) (
      and_then (create_dags k c) (
        and_then (start_dags k c) (
          and_then (collect_metrics c) (
            and_then (stop_dags c)
              (and_then (export_metrics k) (and_then (delete_dags c) (clean_up k)))))))
