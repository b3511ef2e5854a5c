-- ===== src/Scheduler/Examine/Limits.antt =====
-- The bounds of a DAG and of a task on what the loop of Scheduler/Examine takes.
use beeflow.Prelude.{
  ℕ, ◌+◌, ◌≤◌, ◌<◌, ◌≡◌, ap, true, List, [], ◌∷◌, String, arith, if◌then◌else◌, ◌==◌, string_eq,
  pair_eq, nat_eq, update, count, count-append, Bool-cases, inl, inr, ◌⊎◌, pair_beq_iff,
}
use beeflow.Scheduler.Tables.{TaskInstance, PoolStats, task_of}
use beeflow.Scheduler.Query.{Row}
use beeflow.Scheduler.World.{World}
use beeflow.Scheduler.Examine.{Round, take_ti}
use beeflow.Scheduler.Examine.Rule.{BelowLimit, Rule}
use text.Mathlib.TextEquality.{eq_iff}

abbrev pub of_dag : String → List TaskInstance → ℕ
of_dag dag_id tis = count (λ ti. ti.dag_id == dag_id) tis

abbrev pub of_task : String × String → List TaskInstance → ℕ
of_task task tis = count (λ ti. task_of ti == task) tis

-- The map counts what was there and what is taken, and what is taken keeps within the bound.
abbrev pub DagWithin : ℕ → String → ℕ → Round → Type 0
DagWithin base dag_id bound s =
    (s.dag_active_tasks_map dag_id ≡ base + of_dag dag_id s.executable_tis)
    × ((of_dag dag_id s.executable_tis ≡ 0) ⊎ (s.dag_active_tasks_map dag_id ≤ bound))

abbrev pub TaskWithin : ℕ → String × String → ℕ → Round → Type 0
TaskWithin base task bound s =
    (s.task_concurrency_map task ≡ base + of_task task s.executable_tis)
    × ((of_task task s.executable_tis ≡ 0) ⊎ (s.task_concurrency_map task ≤ bound))

take_ti-dag :
    (ti : TaskInstance) (stats : PoolStats) (s : Round) (dag_id : String)
    → ((take_ti ti stats s).dag_active_tasks_map dag_id
        ≡ s.dag_active_tasks_map dag_id + (if ti.dag_id == dag_id then 1 else 0))
      × (of_dag dag_id (take_ti ti stats s).executable_tis
          ≡ of_dag dag_id s.executable_tis + (if ti.dag_id == dag_id then 1 else 0))
unfolding take_ti update
take_ti-dag ti stats s dag_id = (
  ground (arith, eq_iff ti.dag_id dag_id),
  ground (arith, count-append (λ t. t.dag_id == dag_id) s.executable_tis (ti ∷ [])),
)

take_ti-task :
    (ti : TaskInstance) (stats : PoolStats) (s : Round) (task : String × String)
    → ((take_ti ti stats s).task_concurrency_map task
        ≡ s.task_concurrency_map task + (if task_of ti == task then 1 else 0))
      × (of_task task (take_ti ti stats s).executable_tis
          ≡ of_task task s.executable_tis + (if task_of ti == task then 1 else 0))
unfolding take_ti update
take_ti-task ti stats s task = (
  ground (arith, eq_iff ti.dag_id task.0, eq_iff ti.task_id task.1),
  ground (arith, count-append (λ t. task_of t == task) s.executable_tis (ti ∷ [])),
)

-- A DAG's bound is that of its rows.
pub DagWithin-Rule :
    (base : ℕ) (dag_id : String) (bound : ℕ) (w : World) (row : Row)
    → ((row.ti.dag_id == dag_id) ≡ true → row.dag_model.max_active_tasks ≡ bound)
    → Rule (DagWithin base dag_id bound) w row
DagWithin-Rule base dag_id bound w row same = record {
  idle = λ s s' i h. ground (arith, i.taken, i.dags, h);
  takes = λ stats s opened _ h. elim (Bool-cases (row.ti.dag_id == dag_id)) [
    | inl t ↦
        let room : s.dag_active_tasks_map dag_id < bound =
          ground (arith, same t, eq_iff row.ti.dag_id dag_id) in
        let step = take_ti-dag row.ti stats s dag_id in
        (ground (arith, step, h.0), inr (ground (arith, step)))
    | inr f ↦ let step = take_ti-dag row.ti stats s dag_id in ground (arith, step, h)
  ];
}

-- A task's bound is the one that its serialized DAG sets, where its DAG has such bounds.
pub TaskWithin-Rule :
    (base : ℕ) (task : String × String) (bound : ℕ) (w : World) (row : Row)
    → ((task_of row.ti == task) ≡ true
        → (s : Round) → BelowLimit w row s
        → s.task_concurrency_map (task_of row.ti) < bound)
    → Rule (TaskWithin base task bound) w row
TaskWithin-Rule base task bound w row same = record {
  idle = λ s s' i h. ground (arith, i.taken, i.tasks, h);
  takes = λ stats s _ below h. elim (Bool-cases (task_of row.ti == task)) [
    | inl t ↦
        let room : s.task_concurrency_map task < bound = ground (
          arith,
          same t s below,
          ap s.task_concurrency_map ((pair_beq_iff (task_of row.ti) task).0 t),
        ) in
        let step = take_ti-task row.ti stats s task in
        (ground (arith, step, h.0), inr (ground (arith, step)))
    | inr f ↦ let step = take_ti-task row.ti stats s task in ground (arith, step, h)
  ];
}
