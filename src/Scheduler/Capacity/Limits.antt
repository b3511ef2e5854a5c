-- ===== src/Scheduler/Capacity/Limits.antt =====
-- The limits on pools, DAGs and tasks, as Airflow and the database report them to a critical section
-- of lambdas/scheduler/scheduler_job.py (under src/python/beeflow).
use beeflow.Prelude.{
  ℕ, ◌+◌, ◌-◌, ◌≤◌, ◌≡◌, refl, ap, Bool, true, false, Option, none, some, List, [], ◌∷◌, String,
  if◌then◌else◌, ◌==◌, string_eq, pair_eq, All, sum_by, arith, inl, inr, Bool-cases, Option-cases,
  some_inj,
}
use text.Mathlib.TextEquality.{eq_iff}
use beeflow.Prelude.Result.{ok}
use beeflow.Scheduler.Tables.{TaskInstance, TaskState, DagModel, Dag, Database}
use beeflow.Scheduler.Query.{find_dag_model}
use beeflow.Scheduler.World.{World}
use beeflow.Scheduler.Examine.{task_concurrency_limit}
use beeflow.Scheduler.Examine.Limits.{of_dag, of_task}
use beeflow.Scheduler.Concurrency.Counts.{active_of_dag, active_of_task}
use beeflow.Scheduler.CriticalSection.{Outcome, executable_task_instances_to_queued}
use beeflow.Scheduler.CriticalSection.Slots.{open_of}
use beeflow.Scheduler.CriticalSection.Bounds.{
  chosen_within_pool, chosen_within_dag, chosen_within_task,
}
use beeflow.Scheduler.CriticalSection.Effect.{IsEligible, chosen-IsEligible}
use beeflow.Scheduler.Capacity.{
  job_of, is_executing, Measure, slots_of, tasks_of_dag, tasks_of, weight, load,
}
use beeflow.Scheduler.Capacity.Among.{taken}

-- The total slots of each pool, the `max_active_tasks` of each DAG, and the
-- `max_active_tis_per_dag` of each task that has one.
pub record Limits : Type 0 where
  pub pool_total : String → ℕ
  pub max_active_tasks : String → ℕ
  pub max_active_tis : String × String → Option ℕ

abbrev pub bound : Limits → Measure → Option ℕ
bound l (slots_of name) = some (l.pool_total name)
bound l (tasks_of_dag dag_id) = some (l.max_active_tasks dag_id)
bound l (tasks_of task) = l.max_active_tis task

-- A DAG that has limits for its tasks, and the one for a task.
pub record IsLimited (w : World) (model : DagModel) (task : String × String) (limit : ℕ)
    : Type 0 where
  pub has_limits : model.has_task_concurrency_limits ≡ true
  pub dag : Dag
  pub found : w.get_dag task.0 ≡ some dag
  pub limited : task_concurrency_limit dag task.1 ≡ some limit

-- What a critical section is told: `EXECUTION_STATES` is the queued and the running state, a pool has
-- open what its executing task instances leave of its total, and the models and the serialized DAGs
-- carry the limits of the DAGs and the tasks.
pub record IsFaithful (l : Limits) (w : World) (db : Database) : Type 0 where
  pub executing : (state : Option TaskState) → w.in_execution_states state ≡ is_executing state
  pub pools :
      (name : String)
      → open_of (w.slots_stats db) name
        ≡ l.pool_total name - load (weight (slots_of name)) db.task_instances
  pub dags :
      (dag_id : String) (model : DagModel)
      → find_dag_model db.dag_models dag_id ≡ some model
      → model.max_active_tasks ≡ l.max_active_tasks dag_id
  pub tasks :
      (task : String × String) (limit : ℕ) (model : DagModel)
      → l.max_active_tis task ≡ some limit
      → find_dag_model db.dag_models task.0 ≡ some model
      → IsLimited w model task limit

-- The counts of the critical section are loads.
active_of_dag-load :
    (in_states : Option TaskState → Bool)
    → ((state : Option TaskState) → in_states state ≡ is_executing state)
    → (dag_id : String) (tis : List TaskInstance)
    → active_of_dag in_states tis dag_id ≡ load (weight (tasks_of_dag dag_id)) tis
active_of_dag-load in_states same dag_id [] = refl
active_of_dag-load in_states same dag_id (ti ∷ tis) =
    ground (arith, same ti.state, active_of_dag-load in_states same dag_id tis)

active_of_task-load :
    (in_states : Option TaskState → Bool)
    → ((state : Option TaskState) → in_states state ≡ is_executing state)
    → (task : String × String) (tis : List TaskInstance)
    → active_of_task in_states tis task ≡ load (weight (tasks_of task)) tis
active_of_task-load in_states same task [] = refl
active_of_task-load in_states same task (ti ∷ tis) =
    ground (arith, same ti.state, active_of_task-load in_states same task tis)

of_dag-taken :
    (dag_id : String) (tis : List TaskInstance)
    → of_dag dag_id tis ≡ taken (weight (tasks_of_dag dag_id)) tis
of_dag-taken dag_id [] = refl
of_dag-taken dag_id (ti ∷ tis) = omega (arith, of_dag-taken dag_id tis)

of_task-taken :
    (task : String × String) (tis : List TaskInstance)
    → of_task task tis ≡ taken (weight (tasks_of task)) tis
of_task-taken task [] = refl
of_task-taken task (ti ∷ tis) = omega (arith, of_task-taken task tis)

module _ (l : Limits) (w : World) (max_tis : ℕ) (db : Database) (out : Outcome)
    (faithful : IsFaithful l w db)
    (e : executable_task_instances_to_queued w max_tis db ≡ some (ok out)) where
  -- Nothing is chosen of a DAG that is not in the database.
  none_of_dag :
      (dag_id : String) (chosen : List TaskInstance)
      → find_dag_model db.dag_models dag_id ≡ none
      → All (IsEligible w db) chosen
      → (ti_weight : TaskInstance → ℕ)
      → ((ti : TaskInstance) → (ti.dag_id == dag_id) ≡ false → ti_weight ti ≡ 0)
      → sum_by ti_weight chosen ≡ 0
  none_of_dag dag_id [] missing eligible f zero_of = refl
  none_of_dag dag_id (c ∷ chosen) missing eligible f zero_of =
      elim (Bool-cases (c.dag_id == dag_id)) [
        | inl same ↦
            let found = eligible.0.found_model in
            let here = ap (find_dag_model db.dag_models) ((eq_iff c.dag_id dag_id).0 same) in cc
        | inr other ↦
            omega (arith, zero_of c other, none_of_dag dag_id chosen missing eligible.1 f zero_of)
      ]

  pool_within :
      (name : String) (n : ℕ)
      → l.pool_total name ≤ n
      → load (weight (slots_of name)) db.task_instances ≤ n
      → load (weight (slots_of name)) db.task_instances + taken (weight (slots_of name)) out.chosen
        ≤ n
  pool_within name n total now =
      omega (arith, chosen_within_pool w max_tis db out name e, faithful.pools name, total, now)

  dag_within :
      (dag_id : String) (n : ℕ)
      → l.max_active_tasks dag_id ≤ n
      → load (weight (tasks_of_dag dag_id)) db.task_instances ≤ n
      → load (weight (tasks_of_dag dag_id)) db.task_instances
          + taken (weight (tasks_of_dag dag_id)) out.chosen
        ≤ n
  dag_within dag_id n limit now = elim (Option-cases (find_dag_model db.dag_models dag_id)) [
    | inl missing ↦
        let nothing =
          none_of_dag dag_id out.chosen missing (chosen-IsEligible w max_tis db out e)
            (λ ti. weight (tasks_of_dag dag_id) (job_of ti))
            (λ ti other. ap (λ b. if b then 1 else 0) other) in
        omega (arith, nothing, now)
    | inr (model, known) ↦
        let counted =
          active_of_dag-load w.in_execution_states faithful.executing dag_id db.task_instances in
        let chosen = of_dag-taken dag_id out.chosen in
        let is_limit = faithful.dags dag_id model known in
        elim (chosen_within_dag w max_tis db out dag_id model e known) [
          | inl nothing ↦ omega (arith, nothing, chosen, now)
          | inr within ↦ omega (arith, within, counted, chosen, is_limit, limit)
        ]
  ]

  task_within :
      (task : String × String) (limit n : ℕ)
      → l.max_active_tis task ≡ some limit
      → limit ≤ n
      → load (weight (tasks_of task)) db.task_instances ≤ n
      → load (weight (tasks_of task)) db.task_instances + taken (weight (tasks_of task)) out.chosen
        ≤ n
  task_within task limit n limited fits now =
      elim (Option-cases (find_dag_model db.dag_models task.0)) [
        | inl missing ↦
            let nothing =
              none_of_dag task.0 out.chosen missing (chosen-IsEligible w max_tis db out e)
                (λ ti. weight (tasks_of task) (job_of ti)) (λ ti other. ground (arith, other)) in
            omega (arith, nothing, now)
        | inr (model, known) ↦
            let counted =
              active_of_task-load w.in_execution_states faithful.executing task db.task_instances in
            let chosen = of_task-taken task out.chosen in
            let carried = faithful.tasks task limit model limited known in
            elim (chosen_within_task w max_tis db out task model carried.dag limit e known
              carried.has_limits carried.found carried.limited) [
                | inl nothing ↦ omega (arith, nothing, chosen, now)
                | inr within ↦ omega (arith, within, counted, chosen, fits)
              ]
      ]

  -- What a critical section adds to a measure with a limit stays within whatever the limit and what
  -- executes already are within.
  pub queued_within :
      (m : Measure) (limit n : ℕ)
      → bound l m ≡ some limit
      → limit ≤ n
      → load (weight m) db.task_instances ≤ n
      → load (weight m) db.task_instances + taken (weight m) out.chosen ≤ n
  queued_within (slots_of name) limit n limited fits now =
      pool_within name n (omega (arith, some_inj limited, fits)) now
  queued_within (tasks_of_dag dag_id) limit n limited fits now =
      dag_within dag_id n (omega (arith, some_inj limited, fits)) now
  queued_within (tasks_of task) limit n limited fits now = task_within task limit n limited fits now
