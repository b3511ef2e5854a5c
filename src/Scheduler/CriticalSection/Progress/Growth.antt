-- ===== src/Scheduler/CriticalSection/Progress/Growth.antt =====
-- The starved sets of `_executable_task_instances_to_queued` (lambdas/scheduler/scheduler_job.py, under
-- src/python/beeflow) get longer where they change at all.
use beeflow.Prelude.{
  ℕ, ◌≤◌, ◌<◌, ◌≡◌, refl, ◌∙◌, false, Option, none, some, List, [], ◌∷◌, String, arith, Eq,
  string_eq, pair_eq, nat_eq, lookup, length, contains, add, Bool-cases, Option-cases, inl, inr,
  ◌⊎◌, leb,
}
use beeflow.Scheduler.Tables.{TaskInstance, Dag, PoolStats, task_of}
use beeflow.Scheduler.Query.{Row, Starved}
use beeflow.Scheduler.World.{World}
use beeflow.Scheduler.Examine.{
  Round, take_ti, starve_pool, starve_dag, starve_task, count_starving, examine_limit,
  examine_concurrency, examine_pool, examine, examine_all,
}
use beeflow.Scheduler.CriticalSection.{found_new_filters}

-- The sets are the same, or one of them has more members, and none has fewer.
pub record Lengthens (s s' : Starved) : Type 0 where
  pub pools : length s.pools ≤ length s'.pools
  pub dags : length s.dags ≤ length s'.dags
  pub tasks : length s.tasks ≤ length s'.tasks
  pub same : found_new_filters s s' ≡ false → s' ≡ s

Lengthens-refl : (s : Starved) → Lengthens s s
Lengthens-refl s = record {
  pools = omega arith;
  dags = omega arith;
  tasks = omega arith;
  same = λ _. refl;
}

pub Lengthens-trans : (a b c : Starved) → Lengthens a b → Lengthens b c → Lengthens a c
unfolding found_new_filters
Lengthens-trans a b c x y = record {
  pools = omega (arith, x.pools, y.pools);
  dags = omega (arith, x.dags, y.dags);
  tasks = omega (arith, x.tasks, y.tasks);
  same = λ none_new.
      y.same (ground (arith, none_new, x.pools, x.dags, x.tasks, y.pools, y.dags, y.tasks))
      ∙ x.same (ground (arith, none_new, x.pools, x.dags, x.tasks, y.pools, y.dags, y.tasks));
}

add_cases :
    {K : Type 0} ⦃e : Eq K⦄ (k : K) (s : List K) → (add k s ≡ s) ⊎ (length s < length (add k s))
unfolding add
add_cases k s = elim (Bool-cases (contains k s)) [
  | inl t ↦ inl (rw t refl)
  | inr f ↦ inr (rw f (omega arith))
]

starve_pool-Lengthens :
    (name : String) (s : Round) → Lengthens s.starved (starve_pool name s).starved
unfolding found_new_filters
starve_pool-Lengthens name s = elim (add_cases name s.starved.pools) [
  | inl same ↦ rw same (Lengthens-refl s.starved)
  | inr more ↦ record {
    pools = omega (arith, more);
    dags = omega arith;
    tasks = omega arith;
    same = λ none_new. ground (arith, none_new, more);
  }
]

starve_dag-Lengthens :
    (dag_id : String) (s : Round) → Lengthens s.starved (starve_dag dag_id s).starved
unfolding found_new_filters
starve_dag-Lengthens dag_id s = elim (add_cases dag_id s.starved.dags) [
  | inl same ↦ rw same (Lengthens-refl s.starved)
  | inr more ↦ record {
    pools = omega arith;
    dags = omega (arith, more);
    tasks = omega arith;
    same = λ none_new. ground (arith, none_new, more);
  }
]

starve_task-Lengthens :
    (ti : TaskInstance) (s : Round) → Lengthens s.starved (starve_task ti s).starved
unfolding found_new_filters
starve_task-Lengthens ti s = elim (add_cases (task_of ti) s.starved.tasks) [
  | inl same ↦ rw same (Lengthens-refl s.starved)
  | inr more ↦ record {
    pools = omega arith;
    dags = omega arith;
    tasks = omega (arith, more);
    same = λ none_new. ground (arith, none_new, more);
  }
]

examine_limit-Lengthens :
    (ti : TaskInstance) (stats : PoolStats) (limit : Option ℕ) (s : Round)
    → Lengthens s.starved (examine_limit ti stats limit s).starved
unfolding examine_limit take_ti
examine_limit-Lengthens ti stats none s = Lengthens-refl s.starved
examine_limit-Lengthens ti stats (some limit) s =
    elim (Bool-cases (leb limit (s.task_concurrency_map (task_of ti)))) [
      | inl t ↦ rw t (starve_task-Lengthens ti s)
      | inr f ↦ rw f (Lengthens-refl s.starved)
    ]

examine_concurrency-Lengthens :
    (dag : Option Dag) (ti : TaskInstance) (stats : PoolStats) (s : Round)
    → Lengthens s.starved (examine_concurrency dag ti stats s).starved
unfolding examine_concurrency
examine_concurrency-Lengthens none ti stats s = Lengthens-refl s.starved
examine_concurrency-Lengthens (some dag) ti stats s = examine_limit-Lengthens ti stats _ s

examine_pool-Lengthens :
    (w : World) (row : Row) (stats : PoolStats) (s : Round)
    → Lengthens s.starved (examine_pool w row stats s).starved
unfolding examine_pool
examine_pool-Lengthens w row stats s =
    let ti = row.ti in
    ground (
      arith,
      starve_pool-Lengthens ti.pool (count_starving ti.pool s),
      starve_task-Lengthens ti (count_starving ti.pool s),
      starve_dag-Lengthens ti.dag_id s,
      examine_concurrency-Lengthens (w.get_dag ti.dag_id) ti stats s,
      examine_limit-Lengthens ti stats none s,
    )

pub examine-Lengthens :
    (w : World) (row : Row) (s : Round) → Lengthens s.starved (examine w row s).starved
unfolding examine
examine-Lengthens w row s = elim (Option-cases (lookup row.ti.pool s.pools)) [
  | inl missing ↦ rw (missing, examine) (starve_pool-Lengthens row.ti.pool s)
  | inr (stats, found) ↦ rw (found, examine) (examine_pool-Lengthens w row stats _)
]

-- A round that finds no new filter leaves the starved sets as they are.
pub examine_all-Lengthens :
    (w : World) (rows : List Row) (s : Round) → Lengthens s.starved (examine_all w rows s).starved
unfolding examine_all
examine_all-Lengthens w [] s = Lengthens-refl s.starved
examine_all-Lengthens w (row ∷ rows) s =
    Lengthens-trans _ _ _ (examine-Lengthens w row s)
      (examine_all-Lengthens w rows (examine w row s))
