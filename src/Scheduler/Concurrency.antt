-- ===== src/Scheduler/Concurrency.antt =====
-- `__get_concurrency_maps` of lambdas/scheduler/scheduler_job.py (under src/python/beeflow).
pub mod Counts
use beeflow.Prelude.{
  ℕ, ◌+◌, Bool, Option, List, [], ◌∷◌, String, if◌then◌else◌, ◌==◌, string_eq, pair_eq, update,
}
use beeflow.Scheduler.Tables.{TaskInstance, TaskState, task_of}

-- `GROUP BY` with `count('*')`: one more for a key's group.
unfoldable pub bump_group :
    String × String → List ((String × String) × ℕ) → List ((String × String) × ℕ)
bump_group k [] = (k, 1) ∷ []
bump_group k ((j, n) ∷ groups) =
    if j == k then (j, n + 1) ∷ groups else (j, n) ∷ bump_group k groups

unfoldable pub group_by_task :
    (Option TaskState → Bool) → List TaskInstance → List ((String × String) × ℕ)
unfolding bump_group
group_by_task in_states [] = []
group_by_task in_states (ti ∷ tis) =
    let groups = group_by_task in_states tis in
    if in_states ti.state then bump_group (task_of ti) groups else groups

-- The loop of `__get_concurrency_maps` over the result of its query.
unfoldable pub sum_dags : List ((String × String) × ℕ) → (String → ℕ) → String → ℕ
sum_dags [] dag_map = dag_map
sum_dags ((k, n) ∷ groups) dag_map = sum_dags groups (update dag_map k.0 (dag_map k.0 + n))

unfoldable pub set_tasks :
    List ((String × String) × ℕ) → (String × String → ℕ) → String × String → ℕ
set_tasks [] task_map = task_map
set_tasks ((k, n) ∷ groups) task_map = set_tasks groups (update task_map k n)

unfoldable pub get_concurrency_maps :
    (Option TaskState → Bool) → List TaskInstance → (String → ℕ) × (String × String → ℕ)
unfolding group_by_task sum_dags set_tasks
get_concurrency_maps in_states tis =
    let groups = group_by_task in_states tis in
    (sum_dags groups (λ _. 0), set_tasks groups (λ _. 0))
