-- ===== src/Scheduler/CriticalSection/Slots.antt =====
-- Pool slots in the critical section (Scheduler/Examine and Scheduler/CriticalSection).
use beeflow.Prelude.{
  ℕ, ◌+◌, ◌≡◌, refl, false, Option, none, some, List, [], ◌∷◌, String, arith, if◌then◌else◌, ◌==◌,
  string_eq, lookup, lookup-insert, sum_by, sum_by-append, Bool-cases, inl, inr, ◌∙◌, Option-cases,
}
use beeflow.Prelude.Int.{pos, pos_part, pos_part-sub, ltb_ℤ}
use beeflow.Scheduler.Tables.{TaskInstance, PoolStats, Dag}
use beeflow.Scheduler.Query.{Row}
use beeflow.Scheduler.World.{World}
use beeflow.Scheduler.Examine.{
  Round, take_ti, examine_limit, examine_concurrency, examine_pool, examine, examine_all,
}
use text.Mathlib.TextEquality.{eq_iff}

-- The slots that the task instances of a list take from a pool, and the open slots of a pool.
abbrev pub used : String → List TaskInstance → ℕ
used name tis = sum_by (λ ti. if ti.pool == name then ti.pool_slots else 0) tis

abbrev pub open_stats : Option PoolStats → ℕ
open_stats none = 0
open_stats (some stats) = pos_part stats.open_slots

abbrev pub open_of : List (String × PoolStats) → String → ℕ
open_of pools name = open_stats (lookup name pools)

abbrev pub balance : Round → String → ℕ
balance s name = open_of s.pools name + used name s.executable_tis

take_ti-balance :
    (ti : TaskInstance) (stats : PoolStats) (s : Round) (name : String)
    → lookup ti.pool s.pools ≡ some stats
    → ltb_ℤ stats.open_slots (pos ti.pool_slots) ≡ false
    → balance (take_ti ti stats s) name ≡ balance s name
unfolding take_ti
take_ti-balance ti stats s name found fits =
    rw
      (
        lookup-insert ti.pool name _ s.pools,
        sum_by-append (λ t. if t.pool == name then t.pool_slots else 0) s.executable_tis (ti ∷ []),
      )
      (elim (Bool-cases (ti.pool == name)) [
        | inl same ↦
            ground (arith, pos_part-sub stats.open_slots ti.pool_slots, eq_iff ti.pool name)
        | inr other ↦ ground arith
      ])

examine_limit-balance :
    (ti : TaskInstance) (stats : PoolStats) (limit : Option ℕ) (s : Round) (name : String)
    → lookup ti.pool s.pools ≡ some stats
    → ltb_ℤ stats.open_slots (pos ti.pool_slots) ≡ false
    → balance (examine_limit ti stats limit s) name ≡ balance s name
unfolding examine_limit
examine_limit-balance ti stats none s name found fits = take_ti-balance ti stats s name found fits
examine_limit-balance ti stats (some limit) s name found fits =
    ground (arith, take_ti-balance ti stats s name found fits)

examine_concurrency-balance :
    (dag : Option Dag) (ti : TaskInstance) (stats : PoolStats) (s : Round) (name : String)
    → lookup ti.pool s.pools ≡ some stats
    → ltb_ℤ stats.open_slots (pos ti.pool_slots) ≡ false
    → balance (examine_concurrency dag ti stats s) name ≡ balance s name
unfolding examine_concurrency
examine_concurrency-balance none ti stats s name found fits = refl
examine_concurrency-balance (some dag) ti stats s name found fits =
    examine_limit-balance ti stats _ s name found fits

examine_pool-balance :
    (w : World) (row : Row) (stats : PoolStats) (s : Round) (name : String)
    → lookup row.ti.pool s.pools ≡ some stats
    → balance (examine_pool w row stats s) name ≡ balance s name
unfolding examine_pool
examine_pool-balance w row stats s name found = ground (
  arith,
  examine_concurrency-balance (w.get_dag row.ti.dag_id) row.ti stats s name found,
  examine_limit-balance row.ti stats none s name found,
)

examine-balance :
    (w : World) (row : Row) (s : Round) (name : String)
    → balance (examine w row s) name ≡ balance s name
unfolding examine
examine-balance w row s name = elim (Option-cases (lookup row.ti.pool s.pools)) [
  | inl missing ↦ rw (missing, examine) refl
  | inr (stats, found) ↦ rw (found, examine) (examine_pool-balance w row stats _ name found)
]

-- What a round of the loop takes from a pool is missing from its open slots.
pub examine_all-balance :
    (w : World) (rows : List Row) (s : Round) (name : String)
    → balance (examine_all w rows s) name ≡ balance s name
unfolding examine_all
examine_all-balance w [] s name = refl
examine_all-balance w (row ∷ rows) s name =
    examine_all-balance w rows (examine w row s) name ∙ examine-balance w row s name
