-- ===== src/Scheduler/Capacity/Steps.antt =====
-- The database under any number of schedulers, workers and other programs: critical sections of
-- lambdas/scheduler/scheduler_job.py (under src/python/beeflow) in any order, and whatever else is
-- written between them.
use beeflow.Prelude.{ℕ, ◌≤◌, ◌≡◌, sym, some, List, arith}
use mathlib.Core.Path.{subst}
use beeflow.Prelude.Result.{ok}
use beeflow.Scheduler.Tables.{TaskInstance, DagRun, DagModel, Database}
use beeflow.Scheduler.World.{World}
use beeflow.Scheduler.Enqueue.{max_tis, critical_section_enqueue_task_instances}
use beeflow.Scheduler.Enqueue.Queued.{critical_section_enqueue_task_instances_lem}
use beeflow.Scheduler.ExecutorEvents.Handled.{IsKeyed}
use beeflow.Scheduler.Capacity.{Measure, weight, load, Evolves}
use beeflow.Scheduler.Capacity.Evolution.{load-Evolves}
use beeflow.Scheduler.Capacity.Queued.{executable_task_instances_to_queued-load}
use beeflow.Scheduler.Capacity.Limits.{Limits, bound, IsFaithful, queued_within}

-- One transaction. The primary key keeps the keys of the rows apart.
pub data Step (l : Limits) (db : Database) : Database → Type 0 where
  queue :
      (w : World) (max_tis_per_query slots_available n : ℕ) {after : Database}
      → IsFaithful l w db
      → critical_section_enqueue_task_instances w max_tis_per_query slots_available db
        ≡ some (ok (n, after))
      → Step l db after
  evolve :
      {tis : List TaskInstance}
      → Evolves db.task_instances tis
      → IsKeyed tis
      → Step l db (record db { task_instances = tis })
  replace :
      (runs : List DagRun) (models : List DagModel)
      → Step l db (record db { dag_runs = runs; dag_models = models })

pub data Reach (l : Limits) (db : Database) : Database → Type 0 where
  start : Reach l db db
  later : {mid after : Database} → Reach l db mid → Step l mid after → Reach l db after

pub Reach-trans : {l : Limits} {a b c : Database} → Reach l a b → Reach l b c → Reach l a c
Reach-trans first start = first
Reach-trans first (later second step) = later (Reach-trans first second) step

Step-IsKeyed :
    {l : Limits} {db after : Database}
    → Step l db after
    → IsKeyed db.task_instances
    → IsKeyed after.task_instances
Step-IsKeyed {db} {after} (queue w q slots k faithful ran) keyed =
    let (out, selected, left, _, _) =
      critical_section_enqueue_task_instances_lem w q slots db k after ran in
    let kept =
      executable_task_instances_to_queued-load (λ _. 0) w (max_tis q slots) db out keyed selected in
    subst (λ (d : Database). IsKeyed d.task_instances) (sym left) kept.1
Step-IsKeyed (evolve changed keyed) _ = keyed
Step-IsKeyed (replace runs models) keyed = keyed

pub Reach-IsKeyed :
    {l : Limits} {db after : Database}
    → Reach l db after
    → IsKeyed db.task_instances
    → IsKeyed after.task_instances
Reach-IsKeyed start keyed = keyed
Reach-IsKeyed (later earlier step) keyed = Step-IsKeyed step (Reach-IsKeyed earlier keyed)

-- The rows have keys of their own, and those that execute take no more than so much.
pub record IsWithin (m : Measure) (n : ℕ) (db : Database) : Type 0 where
  pub keyed : IsKeyed db.task_instances
  pub within : load (weight m) db.task_instances ≤ n

module _ (l : Limits) (m : Measure) (limit n : ℕ) (limited : bound l m ≡ some limit)
    (fits : limit ≤ n) where
  Step-IsWithin : {db after : Database} → Step l db after → IsWithin m n db → IsWithin m n after
  Step-IsWithin {db} {after} (queue w q slots k faithful ran) h =
      let (out, selected, left, _, _) =
        critical_section_enqueue_task_instances_lem w q slots db k after ran in
      let (more, keyed) =
        executable_task_instances_to_queued-load (weight m) w (max_tis q slots) db out h.keyed
          selected in
      let room =
        queued_within l w (max_tis q slots) db out faithful selected m limit n limited fits
          h.within in
      subst (IsWithin m n) (sym left) (record { keyed = keyed; within = omega (arith, more, room) })
  Step-IsWithin {db} (evolve {tis} changed keyed) h = record {
    keyed = keyed;
    within = omega (arith, load-Evolves (weight m) db.task_instances tis changed, h.within);
  }
  Step-IsWithin (replace runs models) h = record { keyed = h.keyed; within = h.within }

  -- However critical sections of any schedulers and other transactions follow each other, what executes
  -- in a pool, of a DAG or of a task stays within any bound that is no less than its limit and that it
  -- is within at first, and the rows keep keys of their own. After another transaction that writes task
  -- instances the rows have keys of their own, and a row that executes has executed before it, with the
  -- same key, pool and slots; each critical section is told the limits and what executes.
  pub Reach-IsWithin :
      {db after : Database} → Reach l db after → IsWithin m n db → IsWithin m n after
  Reach-IsWithin start h = h
  Reach-IsWithin (later earlier step) h = Step-IsWithin step (Reach-IsWithin earlier h)
