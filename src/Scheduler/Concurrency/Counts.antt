-- ===== src/Scheduler/Concurrency/Counts.antt =====
-- The maps of `__get_concurrency_maps` (Scheduler/Concurrency) against plain counts of the table.
use beeflow.Prelude.{
  ℕ, ◌+◌, ◌≡◌, refl, sym, ◌∙◌, Bool, true, false, ◌&&◌, Option, List, [], ◌∷◌, String, arith,
  if◌then◌else◌, ◌==◌, string_eq, pair_eq, nat_eq, update, sum_by, count, All, Bool-cases, inl, inr,
  pair_beq_iff,
}
use beeflow.Scheduler.Tables.{TaskInstance, TaskState, task_of}
use beeflow.Scheduler.Concurrency.{
  bump_group, group_by_task, sum_dags, set_tasks, get_concurrency_maps,
}
use text.Mathlib.TextEquality.{eq_iff}

abbrev Groups : Type 0
Groups = List ((String × String) × ℕ)

-- The specification: the task instances of a DAG, or of a task, in the given states.
abbrev pub active_of_dag : (Option TaskState → Bool) → List TaskInstance → String → ℕ
active_of_dag in_states tis dag_id = count (λ ti. in_states ti.state && ti.dag_id == dag_id) tis

abbrev pub active_of_task : (Option TaskState → Bool) → List TaskInstance → String × String → ℕ
active_of_task in_states tis task = count (λ ti. in_states ti.state && task_of ti == task) tis

abbrev dag_total : String → Groups → ℕ
dag_total dag_id groups = sum_by (λ g. if g.0.0 == dag_id then g.1 else 0) groups

abbrev task_total : String × String → Groups → ℕ
task_total task groups = sum_by (λ g. if g.0 == task then g.1 else 0) groups

dag_total-bump_group :
    (dag_id : String) (k : String × String) (groups : Groups)
    → dag_total dag_id (bump_group k groups)
      ≡ dag_total dag_id groups + (if k.0 == dag_id then 1 else 0)
unfolding bump_group
dag_total-bump_group dag_id k [] = ground arith
dag_total-bump_group dag_id k ((j, n) ∷ groups) =
    ground (arith, dag_total-bump_group dag_id k groups, eq_iff j.0 k.0)

task_total-bump_group :
    (task k : String × String) (groups : Groups)
    → task_total task (bump_group k groups) ≡ task_total task groups + (if k == task then 1 else 0)
unfolding bump_group
task_total-bump_group task k [] = ground arith
task_total-bump_group task k ((j, n) ∷ groups) =
    ground (arith, task_total-bump_group task k groups, eq_iff j.0 k.0, eq_iff j.1 k.1)

sum_dags_lem :
    (groups : Groups) (dag_map : String → ℕ) (dag_id : String)
    → sum_dags groups dag_map dag_id ≡ dag_map dag_id + dag_total dag_id groups
unfolding sum_dags update
sum_dags_lem [] dag_map dag_id = omega arith
sum_dags_lem ((k, n) ∷ groups) dag_map dag_id =
    ground
      (arith, sum_dags_lem groups (update dag_map k.0 (dag_map k.0 + n)) dag_id, eq_iff k.0 dag_id)

-- No two groups of the query have one key.
abbrev IsNew : String × String → Groups → Type 0
IsNew k = All (λ g. (g.0 == k) ≡ false)

abbrev IsDistinct : Groups → Type 0
IsDistinct [] = Unit
IsDistinct (g ∷ groups) = IsNew g.0 groups × IsDistinct groups

bump_group-IsNew :
    (k j : String × String) (groups : Groups)
    → (k == j) ≡ false
    → IsNew j groups
    → IsNew j (bump_group k groups)
unfolding bump_group
bump_group-IsNew k j [] ne h = (ne, tt)
bump_group-IsNew k j ((i, n) ∷ groups) ne h = elim (Bool-cases (i == k)) [
  | inl t ↦ rw t h
  | inr f ↦ rw f (h.0, bump_group-IsNew k j groups ne h.1)
]

flip_ne : (j k : String × String) → (j == k) ≡ false → (k == j) ≡ false
flip_ne j k f = ground (arith, eq_iff j.0 k.0, eq_iff j.1 k.1, eq_iff k.0 j.0, eq_iff k.1 j.1)

bump_group-IsDistinct :
    (k : String × String) (groups : Groups) → IsDistinct groups → IsDistinct (bump_group k groups)
unfolding bump_group
bump_group-IsDistinct k [] h = (tt, tt)
bump_group-IsDistinct k ((j, n) ∷ groups) h = elim (Bool-cases (j == k)) [
  | inl t ↦ rw t h
  | inr f ↦
      rw f (bump_group-IsNew k j groups (flip_ne j k f) h.0, bump_group-IsDistinct k groups h.1)
]

set_tasks_new :
    (groups : Groups) (task_map : String × String → ℕ) (task : String × String)
    → IsNew task groups
    → (set_tasks groups task_map task ≡ task_map task) × (task_total task groups ≡ 0)
unfolding set_tasks update
set_tasks_new [] task_map task h = (refl, refl)
set_tasks_new ((k, n) ∷ groups) task_map task h =
    let rest = set_tasks_new groups (update task_map k n) task h.1 in
    (rest.0 ∙ rw h.0 refl, rw h.0 (omega (arith, rest.1)))

update_here :
    (f : String × String → ℕ) (k task : String × String) (n : ℕ)
    → (k == task) ≡ true
    → update f k n task ≡ n
unfolding update
update_here f k task n t = rw t refl

set_tasks_lem :
    (groups : Groups) (task_map : String × String → ℕ) (task : String × String)
    → IsDistinct groups
    → task_map task ≡ 0
    → set_tasks groups task_map task ≡ task_total task groups
unfolding set_tasks update
set_tasks_lem [] task_map task h zero_there = zero_there
set_tasks_lem ((k, n) ∷ groups) task_map task h zero_there = elim (Bool-cases (k == task)) [
  | inl t ↦
      let same : k ≡ task = (pair_beq_iff k task).0 t in
      let rest = set_tasks_new groups (update task_map k n) task (rw (sym same) h.0) in
      rw t (omega (arith, rest.0 ∙ update_here task_map k task n t, rest.1))
  | inr f ↦
      rw f (omega (arith, set_tasks_lem groups (update task_map k n) task h.1 (rw f zero_there)))
]

module _ (in_states : Option TaskState → Bool) where
  group_by_task-IsDistinct : (tis : List TaskInstance) → IsDistinct (group_by_task in_states tis)
  unfolding group_by_task
  group_by_task-IsDistinct [] = tt
  group_by_task-IsDistinct (ti ∷ tis) = elim (Bool-cases (in_states ti.state)) [
    | inl t ↦ rw t (bump_group-IsDistinct (task_of ti) _ (group_by_task-IsDistinct tis))
    | inr f ↦ rw f (group_by_task-IsDistinct tis)
  ]

  group_by_task_dags :
      (tis : List TaskInstance) (dag_id : String)
      → dag_total dag_id (group_by_task in_states tis) ≡ active_of_dag in_states tis dag_id
  unfolding group_by_task
  group_by_task_dags [] dag_id = refl
  group_by_task_dags (ti ∷ tis) dag_id = ground (
    arith,
    group_by_task_dags tis dag_id,
    dag_total-bump_group dag_id (task_of ti) (group_by_task in_states tis),
  )

  group_by_task_tasks :
      (tis : List TaskInstance) (task : String × String)
      → task_total task (group_by_task in_states tis) ≡ active_of_task in_states tis task
  unfolding group_by_task
  group_by_task_tasks [] task = refl
  group_by_task_tasks (ti ∷ tis) task = ground (
    arith,
    group_by_task_tasks tis task,
    task_total-bump_group task (task_of ti) (group_by_task in_states tis),
  )

  -- The first map counts the DAG's task instances in the given states, and the second the task's.
  pub get_concurrency_maps_counts :
      (tis : List TaskInstance) (dag_id : String) (task : String × String)
      → ((get_concurrency_maps in_states tis).0 dag_id ≡ active_of_dag in_states tis dag_id)
        × ((get_concurrency_maps in_states tis).1 task ≡ active_of_task in_states tis task)
  unfolding get_concurrency_maps
  get_concurrency_maps_counts tis dag_id task = (
    sum_dags_lem (group_by_task in_states tis) (λ _. 0) dag_id
        ∙ (omega (arith, group_by_task_dags tis dag_id)),
    set_tasks_lem (group_by_task in_states tis) (λ _. 0) task (group_by_task-IsDistinct tis) refl
        ∙ group_by_task_tasks tis task,
  )
