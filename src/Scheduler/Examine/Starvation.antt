-- ===== src/Scheduler/Examine/Starvation.antt =====
-- The starved sets in the loop of Scheduler/Examine: they only grow, and what is added keeps the
-- examined task instance out of the next query.
use beeflow.Prelude.{
  ℕ, ◌≡◌, refl, ◌∙◌, true, false, Option, none, some, List, [], ◌∷◌, String, arith, string_eq,
  pair_eq, nat_eq, lookup, contains-add, Bool-cases, inl, inr, ◌⊎◌, Option-cases, In,
}
use beeflow.Scheduler.Tables.{TaskInstance, PoolStats, Dag, task_of}
use beeflow.Scheduler.Query.{Row, Starved, rows, admits}
use beeflow.Scheduler.World.{World}
use beeflow.Scheduler.Examine.{
  Round, starve_pool, starve_dag, starve_task, count_starving, take_ti, examine_limit,
  examine_concurrency, examine_pool, examine, examine_all,
}
use text.Mathlib.TextEquality.{eq_iff}

-- Whatever the first sets keep out, the second do too.
abbrev pub Grows : Starved → Starved → Type 0
Grows s s' = (ti : TaskInstance) → admits s ti ≡ false → admits s' ti ≡ false

pub starve_pool-out :
    (ti : TaskInstance) (s : Round) → admits (starve_pool ti.pool s).starved ti ≡ false
unfolding admits
starve_pool-out ti s =
    ground (arith, contains-add ti.pool ti.pool s.starved.pools, eq_iff ti.pool ti.pool)

pub starve_dag-out :
    (ti : TaskInstance) (s : Round) → admits (starve_dag ti.dag_id s).starved ti ≡ false
unfolding admits
starve_dag-out ti s =
    ground (arith, contains-add ti.dag_id ti.dag_id s.starved.dags, eq_iff ti.dag_id ti.dag_id)

pub starve_task-out : (ti : TaskInstance) (s : Round) → admits (starve_task ti s).starved ti ≡ false
unfolding admits
starve_task-out ti s = ground (
  arith,
  contains-add (task_of ti) (task_of ti) s.starved.tasks,
  eq_iff ti.dag_id ti.dag_id,
  eq_iff ti.task_id ti.task_id,
)

starve_pool-Grows : (name : String) (s : Round) → Grows s.starved (starve_pool name s).starved
unfolding admits
starve_pool-Grows name s ti h = ground (arith, contains-add name ti.pool s.starved.pools)

starve_dag-Grows : (dag_id : String) (s : Round) → Grows s.starved (starve_dag dag_id s).starved
unfolding admits
starve_dag-Grows dag_id s ti h = ground (arith, contains-add dag_id ti.dag_id s.starved.dags)

starve_task-Grows : (x : TaskInstance) (s : Round) → Grows s.starved (starve_task x s).starved
unfolding admits
starve_task-Grows x s ti h = ground (arith, contains-add (task_of x) (task_of ti) s.starved.tasks)

examine_limit-out :
    (ti : TaskInstance) (stats : PoolStats) (limit : Option ℕ) (s : Round)
    → admits (examine_limit ti stats limit s).starved ti ≡ true
    → (examine_limit ti stats limit s).starved ≡ s.starved
unfolding examine_limit take_ti
examine_limit-out ti stats none s h = refl
examine_limit-out ti stats (some limit) s h = ground (arith, starve_task-out ti s)

examine_concurrency-out :
    (dag : Option Dag) (ti : TaskInstance) (stats : PoolStats) (s : Round)
    → admits (examine_concurrency dag ti stats s).starved ti ≡ true
    → (examine_concurrency dag ti stats s).starved ≡ s.starved
unfolding examine_concurrency
examine_concurrency-out none ti stats s h = refl
examine_concurrency-out (some dag) ti stats s h = examine_limit-out ti stats _ s h

examine_pool-out :
    (w : World) (row : Row) (stats : PoolStats) (s : Round)
    → admits (examine_pool w row stats s).starved row.ti ≡ true
    → (examine_pool w row stats s).starved ≡ s.starved
unfolding examine_pool
examine_pool-out w row stats s h =
    let ti = row.ti in
    ground (
      arith,
      starve_pool-out ti (count_starving ti.pool s),
      starve_task-out ti (count_starving ti.pool s),
      starve_dag-out ti s,
      examine_concurrency-out (w.get_dag ti.dag_id) ti stats s,
      examine_limit-out ti stats none s,
    )

examine_limit-Grows :
    (ti : TaskInstance) (stats : PoolStats) (limit : Option ℕ) (s : Round)
    → Grows s.starved (examine_limit ti stats limit s).starved
unfolding examine_limit take_ti
examine_limit-Grows ti stats none s t h = h
examine_limit-Grows ti stats (some limit) s t h = ground (arith, starve_task-Grows ti s t h)

examine_concurrency-Grows :
    (dag : Option Dag) (ti : TaskInstance) (stats : PoolStats) (s : Round)
    → Grows s.starved (examine_concurrency dag ti stats s).starved
unfolding examine_concurrency
examine_concurrency-Grows none ti stats s t h = h
examine_concurrency-Grows (some dag) ti stats s t h = examine_limit-Grows ti stats _ s t h

examine_pool-Grows :
    (w : World) (row : Row) (stats : PoolStats) (s : Round)
    → Grows s.starved (examine_pool w row stats s).starved
unfolding examine_pool
examine_pool-Grows w row stats s t h =
    let ti = row.ti in
    ground (
      arith,
      starve_pool-Grows ti.pool (count_starving ti.pool s) t h,
      starve_task-Grows ti (count_starving ti.pool s) t h,
      starve_dag-Grows ti.dag_id s t h,
      examine_concurrency-Grows (w.get_dag ti.dag_id) ti stats s t h,
      examine_limit-Grows ti stats none s t h,
    )

pub examine-Grows : (w : World) (row : Row) (s : Round) → Grows s.starved (examine w row s).starved
unfolding examine
examine-Grows w row s t h = elim (Option-cases (lookup row.ti.pool s.pools)) [
  | inl missing ↦ rw (missing, examine) (starve_pool-Grows row.ti.pool s t h)
  | inr (stats, found) ↦ rw (found, examine) (examine_pool-Grows w row stats _ t h)
]

pub examine-out :
    (w : World) (row : Row) (s : Round)
    → admits (examine w row s).starved row.ti ≡ true
    → (examine w row s).starved ≡ s.starved
unfolding examine
examine-out w row s h = elim (Option-cases (lookup row.ti.pool s.pools)) [
  | inl missing ↦ cc (starve_pool-out row.ti s, rw (missing, examine) at h)
  | inr (stats, found) ↦
      rw (found, examine) (examine_pool-out w row stats _ (rw (found, examine) at h))
]

pub examine_all-Grows :
    (w : World) (rows : List Row) (s : Round) → Grows s.starved (examine_all w rows s).starved
unfolding examine_all
examine_all-Grows w [] s t h = h
examine_all-Grows w (row ∷ rows) s t h =
    examine_all-Grows w rows (examine w row s) t (examine-Grows w row s t h)

-- A round leaves the sets as they are, or keeps one of its own task instances out of the next query.
pub examine_all-out :
    (w : World) (rows : List Row) (s : Round)
    → ((examine_all w rows s).starved ≡ s.starved)
      ⊎ ((row : Row) × In row rows × (admits (examine_all w rows s).starved row.ti ≡ false))
unfolding examine_all
examine_all-out w [] s = inl refl
examine_all-out w (row ∷ rows) s =
    let s' = examine w row s in
    elim (Bool-cases (admits s'.starved row.ti)) [
      | inr out ↦ inr (row, inl refl, examine_all-Grows w rows s' row.ti out)
      | inl still ↦ elim (examine_all-out w rows s') [
        | inl same ↦ inl (same ∙ examine-out w row s still)
        | inr (other, at_other, out) ↦ inr (other, inr at_other, out)
      ]
    ]
