-- ===== src/Scheduler/CriticalSection/Progress/Examined.antt =====
-- What the loop of Scheduler/Examine finds out about a task instance that it does not take, while
-- nothing is taken (lambdas/scheduler/scheduler_job.py, under src/python/beeflow).
use beeflow.Prelude.{
  ℕ, ◌<◌, ◌≡◌, refl, sym, ap, ◌∙◌, true, false, ◌||◌, Option, none, some, List, [], ◌∷◌, arith, ltb,
  leb, string_eq, pair_eq, nat_eq, lookup, length, length-append, lookup-In, Bool-cases,
  Option-cases, inl, inr, ◌⊎◌,
}
use beeflow.Prelude.Int.{pos, ltb_ℤ, leb_ℤ}
use beeflow.Scheduler.Tables.{TaskInstance, Dag, PoolStats, Database, task_of}
use beeflow.Scheduler.Query.{Row, find_dag_model, admits}
use beeflow.Scheduler.World.{World}
use beeflow.Scheduler.Examine.{
  Round, take_ti, starve_task, count_starving, task_concurrency_limit, examine_limit,
  examine_concurrency, examine_dag, examine_pool, examine,
}
use beeflow.Scheduler.Examine.Starvation.{starve_pool-out, starve_dag-out, starve_task-out}
use beeflow.Scheduler.CriticalSection.Effect.{IsEligible}
use beeflow.Scheduler.CriticalSection.Progress.{unknown, full, no_slots, reached}
use beeflow.Scheduler.CriticalSection.Progress.Still.{
  IsStill, starve_pool-IsStill, starve_dag-IsStill, starve_task-IsStill,
}

module _ (w : World) (db : Database) where
  -- The task instance is taken; or nothing is, and it is starved from now on, or its DAG is missing.
  pub data Verdict (before : List TaskInstance) (s' : Round) (ti : TaskInstance) : Type 0 where
    takes : length before < length s'.executable_tis → Verdict before s' ti
    passes :
        IsStill w db s'
        → s'.executable_tis ≡ before
        → (admits s'.starved ti ≡ false) ⊎ (w.get_dag ti.dag_id ≡ none)
        → Verdict before s' ti

  take_ti-Verdict :
      (ti : TaskInstance) (stats : PoolStats) (s : Round)
      → Verdict s.executable_tis (take_ti ti stats s) ti
  unfolding take_ti
  take_ti-Verdict ti stats s = takes (omega (arith, length-append s.executable_tis (ti ∷ [])))

  module _ (row : Row) (eligible : IsEligible w db row.ti)
      (found_model : find_dag_model db.dag_models row.ti.dag_id ≡ some row.dag_model) where
    limit-Verdict :
        (stats : PoolStats) (dag : Dag) (limit : Option ℕ) (s : Round)
        → IsStill w db s
        → w.get_dag row.ti.dag_id ≡ some dag
        → task_concurrency_limit dag row.ti.task_id ≡ limit
        → Verdict s.executable_tis (examine_limit row.ti stats limit s) row.ti
    unfolding examine_limit
    limit-Verdict stats dag none s h found limited = take_ti-Verdict row.ti stats s
    limit-Verdict stats dag (some limit) s h found limited =
        elim (Bool-cases (leb limit (s.task_concurrency_map (task_of row.ti)))) [
          | inl t ↦ rw t (
              passes
                (starve_task-IsStill w db row.ti s
                  (reached dag limit found limited (ground (arith, h.tasks (task_of row.ti)))) h)
                refl (inl (starve_task-out row.ti s)))
          | inr f ↦ rw f (take_ti-Verdict row.ti stats s)
        ]

    concurrency-Verdict :
        (stats : PoolStats) (dag : Option Dag) (s : Round)
        → IsStill w db s
        → w.get_dag row.ti.dag_id ≡ dag
        → Verdict s.executable_tis (examine_concurrency dag row.ti stats s) row.ti
    unfolding examine_concurrency
    concurrency-Verdict stats none s h missing =
        passes (record { pools = h.pools; dags = h.dags; tasks = h.tasks; shut = h.shut }) refl
          (inr missing)
    concurrency-Verdict stats (some dag) s h found = limit-Verdict stats dag _ s h found refl

    dag-Verdict :
        (stats : PoolStats) (s : Round)
        → IsStill w db s
        → Verdict s.executable_tis (examine_dag w row stats s) row.ti
    unfolding examine_dag examine_limit
    dag-Verdict stats s h =
        elim (Bool-cases
          (leb row.dag_model.max_active_tasks (s.dag_active_tasks_map row.ti.dag_id))) [
            | inl t ↦ rw t (
                passes
                  (starve_dag-IsStill w db row.ti.dag_id s
                    (record {
                      model = row.dag_model;
                      found = found_model;
                      reached = ground (arith, h.dags row.ti.dag_id);
                    })
                    h)
                  refl (inl (starve_dag-out row.ti s)))
            | inr f ↦ rw f (elim (Bool-cases row.dag_model.has_task_concurrency_limits) [
              | inl t ↦ rw t (concurrency-Verdict stats (w.get_dag row.ti.dag_id) s h refl)
              | inr g ↦ rw g (take_ti-Verdict row.ti stats s)
            ])
          ]

    count_starving-IsStill :
        (s : Round) → IsStill w db s → IsStill w db (count_starving row.ti.pool s)
    count_starving-IsStill s h = record {
      pools = h.pools;
      dags = h.dags;
      tasks = h.tasks;
      shut = h.shut;
    }

    too_big-Verdict :
        (stats : PoolStats) (s : Round)
        → IsStill w db s
        → lookup row.ti.pool s.pools ≡ some stats
        → (ltb stats.total row.ti.pool_slots || ltb_ℤ stats.open_slots (pos row.ti.pool_slots))
          ≡ true
        → Verdict s.executable_tis (starve_task row.ti (count_starving row.ti.pool s)) row.ti
    too_big-Verdict stats s h found big =
        passes
          (starve_task-IsStill w db row.ti (count_starving row.ti.pool s)
            (no_slots row.ti refl eligible (record {
              stats = stats;
              found = sym (ap (lookup row.ti.pool) h.pools) ∙ found;
              too_big = big;
            }))
            (count_starving-IsStill s h))
          refl (inl (starve_task-out row.ti (count_starving row.ti.pool s)))

    pool-Verdict :
        (stats : PoolStats) (s : Round)
        → IsStill w db s
        → lookup row.ti.pool s.pools ≡ some stats
        → Verdict s.executable_tis (examine_pool w row stats s) row.ti
    unfolding examine_pool
    pool-Verdict stats s h found = elim (Bool-cases (leb_ℤ stats.open_slots (pos 0))) [
      | inl t ↦ rw t (
          passes
            (starve_pool-IsStill w db row.ti.pool (count_starving row.ti.pool s)
              (full stats
                (lookup-In row.ti.pool stats (w.slots_stats db)
                  (sym (ap (lookup row.ti.pool) h.pools) ∙ found))
                t)
              (count_starving-IsStill s h))
            refl (inl (starve_pool-out row.ti (count_starving row.ti.pool s))))
      | inr f ↦ rw f (elim (Bool-cases (ltb stats.total row.ti.pool_slots)) [
        | inl t ↦ rw t (too_big-Verdict stats s h found (ground (arith, t)))
        | inr g ↦ rw g (elim (Bool-cases (ltb_ℤ stats.open_slots (pos row.ti.pool_slots))) [
          | inl t ↦ rw t (too_big-Verdict stats s h found (ground (arith, t)))
          | inr k ↦ rw k (dag-Verdict stats s h)
        ])
      ])
    ]

    pub examine-Verdict :
        (s : Round) → IsStill w db s → Verdict s.executable_tis (examine w row s) row.ti
    unfolding examine
    examine-Verdict s h = elim (Option-cases (lookup row.ti.pool s.pools)) [
      | inl missing ↦
          rw (missing, examine)
            (passes
              (starve_pool-IsStill w db row.ti.pool s
                (unknown (sym (ap (lookup row.ti.pool) h.pools) ∙ missing)) h)
              refl (inl (starve_pool-out row.ti s)))
      | inr (stats, found) ↦
          rw (found, examine)
            (pool-Verdict stats _
              (record { pools = h.pools; dags = h.dags; tasks = h.tasks; shut = h.shut }) found)
    ]
