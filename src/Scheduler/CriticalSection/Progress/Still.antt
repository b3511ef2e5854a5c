-- ===== src/Scheduler/CriticalSection/Progress/Still.antt =====
-- What is known of the starved sets of `_executable_task_instances_to_queued`
-- (lambdas/scheduler/scheduler_job.py, under src/python/beeflow) while nothing is taken.
use beeflow.Prelude.{
  ◌≡◌, true, false, List, String, arith, ◌==◌, Eq, string_eq, pair_eq, nat_eq, contains,
  contains-add, add, Bool-cases, inl, inr,
}
use mathlib.Core.Path.{subst}
use beeflow.Scheduler.Tables.{TaskInstance, Database, task_of}
use beeflow.Scheduler.Query.{Starved, admits}
use beeflow.Scheduler.World.{World}
use beeflow.Scheduler.Concurrency.Counts.{active_of_dag, active_of_task}
use beeflow.Scheduler.Examine.{Round, starve_pool, starve_dag, starve_task}
use beeflow.Scheduler.CriticalSection.Progress.{PoolShut, DagShut, TaskShut, Shut}

-- A property of the members of a set is one of the set with a member more.
contains-add_all {κ} :
    {K : Type 0} ⦃e : Eq K⦄ (P : K → Type κ) (k : K) (s : List K)
    → P k
    → ((j : K) → contains j s ≡ true → P j)
    → (j : K) → contains j (add k s) ≡ true
    → P j
contains-add_all ⦃e⦄ P k s p ps j h = elim (Bool-cases (k == j)) [
  | inl same ↦ subst P ((e.agrees_iff k j).0 same) p
  | inr other ↦ ps j (ground (arith, contains-add k j s))
]

module _ (w : World) (db : Database) where
  -- Whatever is starved is shut.
  pub record IsShut (s : Starved) : Type 0 where
    pub pools : (name : String) → contains name s.pools ≡ true → PoolShut w db name
    pub dags : (dag_id : String) → contains dag_id s.dags ≡ true → DagShut w db dag_id
    pub tasks : (task : String × String) → contains task s.tasks ≡ true → TaskShut w db task

  -- Nothing has been taken: the pools and the maps are those of the beginning.
  pub record IsStill (s : Round) : Type 0 where
    pub pools : s.pools ≡ w.slots_stats db
    pub dags :
        (dag_id : String)
        → s.dag_active_tasks_map dag_id
          ≡ active_of_dag w.in_execution_states db.task_instances dag_id
    pub tasks :
        (task : String × String)
        → s.task_concurrency_map task ≡ active_of_task w.in_execution_states db.task_instances task
    pub shut : IsShut s.starved

  pub IsShut-out : (s : Starved) (ti : TaskInstance) → IsShut s → admits s ti ≡ false → Shut w db ti
  unfolding admits
  IsShut-out s ti h out = elim (Bool-cases (contains ti.pool s.pools)) [
    | inl t ↦ inl (h.pools ti.pool t)
    | inr f ↦ elim (Bool-cases (contains ti.dag_id s.dags)) [
      | inl t ↦ inr (inl (h.dags ti.dag_id t))
      | inr g ↦ inr (inr (h.tasks (task_of ti) (ground (arith, out, f, g))))
    ]
  ]

  pub starve_pool-IsStill :
      (name : String) (s : Round) → PoolShut w db name → IsStill s → IsStill (starve_pool name s)
  starve_pool-IsStill name s p h = record {
    pools = h.pools;
    dags = h.dags;
    tasks = h.tasks;
    shut = record {
      pools = contains-add_all (PoolShut w db) name s.starved.pools p h.shut.pools;
      dags = h.shut.dags;
      tasks = h.shut.tasks;
    };
  }

  pub starve_dag-IsStill :
      (dag_id : String) (s : Round)
      → DagShut w db dag_id
      → IsStill s
      → IsStill (starve_dag dag_id s)
  starve_dag-IsStill dag_id s p h = record {
    pools = h.pools;
    dags = h.dags;
    tasks = h.tasks;
    shut = record {
      pools = h.shut.pools;
      dags = contains-add_all (DagShut w db) dag_id s.starved.dags p h.shut.dags;
      tasks = h.shut.tasks;
    };
  }

  pub starve_task-IsStill :
      (ti : TaskInstance) (s : Round)
      → TaskShut w db (task_of ti)
      → IsStill s
      → IsStill (starve_task ti s)
  starve_task-IsStill ti s p h = record {
    pools = h.pools;
    dags = h.dags;
    tasks = h.tasks;
    shut = record {
      pools = h.shut.pools;
      dags = h.shut.dags;
      tasks = contains-add_all (TaskShut w db) (task_of ti) s.starved.tasks p h.shut.tasks;
    };
  }
