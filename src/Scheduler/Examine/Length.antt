-- ===== src/Scheduler/Examine/Length.antt =====
-- A step of the loop of Scheduler/Examine takes at most one task instance.
use beeflow.Prelude.{
  ℕ, ◌+◌, ◌≤◌, Option, none, some, List, [], ◌∷◌, arith, string_eq, pair_eq, nat_eq, lookup, length,
  length-append, inl, inr, Option-cases,
}
use beeflow.Scheduler.Tables.{TaskInstance, PoolStats, Dag}
use beeflow.Scheduler.Query.{Row, rows}
use beeflow.Scheduler.World.{World}
use beeflow.Scheduler.Examine.{
  Round, take_ti, examine_limit, examine_concurrency, examine_pool, examine, examine_all,
}

take_ti-length :
    (ti : TaskInstance) (stats : PoolStats) (s : Round)
    → length (take_ti ti stats s).executable_tis ≤ length s.executable_tis + 1
unfolding take_ti
take_ti-length ti stats s = omega (arith, length-append s.executable_tis (ti ∷ []))

examine_limit-length :
    (ti : TaskInstance) (stats : PoolStats) (limit : Option ℕ) (s : Round)
    → length (examine_limit ti stats limit s).executable_tis ≤ length s.executable_tis + 1
unfolding examine_limit
examine_limit-length ti stats none s = take_ti-length ti stats s
examine_limit-length ti stats (some limit) s = ground (arith, take_ti-length ti stats s)

examine_concurrency-length :
    (dag : Option Dag) (ti : TaskInstance) (stats : PoolStats) (s : Round)
    → length (examine_concurrency dag ti stats s).executable_tis ≤ length s.executable_tis + 1
unfolding examine_concurrency
examine_concurrency-length none ti stats s = omega arith
examine_concurrency-length (some dag) ti stats s = examine_limit-length ti stats _ s

examine_pool-length :
    (w : World) (row : Row) (stats : PoolStats) (s : Round)
    → length (examine_pool w row stats s).executable_tis ≤ length s.executable_tis + 1
unfolding examine_pool
examine_pool-length w row stats s = ground (
  arith,
  examine_concurrency-length (w.get_dag row.ti.dag_id) row.ti stats s,
  examine_limit-length row.ti stats none s,
)

examine-length :
    (w : World) (row : Row) (s : Round)
    → length (examine w row s).executable_tis ≤ length s.executable_tis + 1
unfolding examine
examine-length w row s = elim (Option-cases (lookup row.ti.pool s.pools)) [
  | inl missing ↦ rw (missing, examine) (omega arith)
  | inr (stats, found) ↦ rw (found, examine) (examine_pool-length w row stats _)
]

pub examine_all-length :
    (w : World) (rows : List Row) (s : Round)
    → length (examine_all w rows s).executable_tis ≤ length s.executable_tis + length rows
unfolding examine_all
examine_all-length w [] s = omega arith
examine_all-length w (row ∷ rows) s =
    omega (arith, examine-length w row s, examine_all-length w rows (examine w row s))
