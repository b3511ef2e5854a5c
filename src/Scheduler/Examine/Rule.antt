-- ===== src/Scheduler/Examine/Rule.antt =====
-- A rule for the loop of Scheduler/Examine: what is taken is taken behind the tests on the DAG and
-- on the task, and every other branch leaves what is taken and the two maps alone.
use beeflow.Prelude.{
  ℕ, ◌<◌, ◌≡◌, refl, sym, ap, ◌∙◌, true, false, Option, none, some, List, [], ◌∷◌, String, arith,
  ltb, leb, string_eq, pair_eq, nat_eq, lookup, All, Bool-cases, inl, inr, Option-cases, some_inj,
}
use beeflow.Prelude.Int.{pos, ltb_ℤ, leb_ℤ}
use beeflow.Scheduler.Tables.{PoolStats, Dag, task_of}
use beeflow.Scheduler.Query.{Row, rows}
use beeflow.Scheduler.World.{World}
use beeflow.Scheduler.Examine.{
  Round, take_ti, task_concurrency_limit, examine_limit, examine_concurrency, examine_dag,
  examine_pool, examine, examine_all,
}

-- The task has no limit of its own, or is below it.
abbrev pub BelowLimit : World → Row → Round → Type 0
BelowLimit w row s =
    row.dag_model.has_task_concurrency_limits ≡ true
    → (dag : Dag) → w.get_dag row.ti.dag_id ≡ some dag
    → (limit : ℕ) → task_concurrency_limit dag row.ti.task_id ≡ some limit
    → s.task_concurrency_map (task_of row.ti) < limit

-- The second state differs from the first in other things than what is taken.
pub record IsIdle (s s' : Round) : Type 0 where
  pub taken : s'.executable_tis ≡ s.executable_tis
  pub dags : s'.dag_active_tasks_map ≡ s.dag_active_tasks_map
  pub tasks : s'.task_concurrency_map ≡ s.task_concurrency_map

IsIdle-by :
    {s s' : Round}
    → s'.executable_tis ≡ s.executable_tis
    → s'.dag_active_tasks_map ≡ s.dag_active_tasks_map
    → s'.task_concurrency_map ≡ s.task_concurrency_map
    → IsIdle s s'
IsIdle-by a b c = record { taken = a; dags = b; tasks = c }

one_limit :
    (task_id : String) {o : Option Dag} {dag dag' : Dag} {limit : Option ℕ} {l : ℕ}
    → o ≡ some dag
    → o ≡ some dag'
    → task_concurrency_limit dag task_id ≡ limit
    → task_concurrency_limit dag' task_id ≡ some l
    → limit ≡ some l
one_limit task_id found found' e e' =
    sym e ∙ ap (λ d. task_concurrency_limit d task_id) (some_inj (sym found ∙ found')) ∙ e'

pub record Rule {κ} (P : Round → Type κ) (w : World) (row : Row) : Type κ where
  pub idle : (s s' : Round) → IsIdle s s' → P s → P s'
  pub takes :
      (stats : PoolStats) (s : Round)
      → leb row.dag_model.max_active_tasks (s.dag_active_tasks_map row.ti.dag_id) ≡ false
      → BelowLimit w row s
      → P s
      → P (take_ti row.ti stats s)

module _ {κ} {P : Round → Type κ} {w : World} {row : Row} (rule : Rule P w row) (stats : PoolStats)
    (s : Round) (p : P s) where
  stay : (s' : Round) → IsIdle s s' → P s'
  stay s' same = rule.idle s s' same p

  module _
      (open_dag : leb row.dag_model.max_active_tasks (s.dag_active_tasks_map row.ti.dag_id)
        ≡ false) where
    limit_rule :
        (dag : Dag) (limit : Option ℕ)
        → w.get_dag row.ti.dag_id ≡ some dag
        → task_concurrency_limit dag row.ti.task_id ≡ limit
        → P (examine_limit row.ti stats limit s)
    unfolding examine_limit
    limit_rule dag none found e =
        rule.takes stats s open_dag (λ _ dag' found' l e'. cc (one_limit _ found found' e e')) p
    limit_rule dag (some limit) found e =
        elim (Bool-cases (leb limit (s.task_concurrency_map (task_of row.ti)))) [
          | inl t ↦ rw t (stay _ (IsIdle-by refl refl refl))
          | inr f ↦ rw f (
              rule.takes stats s open_dag
                (λ _ dag' found' l e'. ground (arith, some_inj (one_limit _ found found' e e'))) p)
        ]

    concurrency_rule :
        (dag : Option Dag)
        → w.get_dag row.ti.dag_id ≡ dag
        → P (examine_concurrency dag row.ti stats s)
    unfolding examine_concurrency
    concurrency_rule none found = stay _ (IsIdle-by refl refl refl)
    concurrency_rule (some dag) found = limit_rule dag _ found refl

  dag_rule : P (examine_dag w row stats s)
  unfolding examine_dag examine_limit
  dag_rule =
      elim (Bool-cases
        (leb row.dag_model.max_active_tasks (s.dag_active_tasks_map row.ti.dag_id))) [
          | inl t ↦ rw t (stay _ (IsIdle-by refl refl refl))
          | inr f ↦ rw f (elim (Bool-cases row.dag_model.has_task_concurrency_limits) [
            | inl t ↦ rw t (concurrency_rule f (w.get_dag row.ti.dag_id) refl)
            | inr g ↦ rw g (rule.takes stats s f (λ has _ _ _ _. cc) p)
          ])
        ]

module _ {κ} {P : Round → Type κ} {w : World} {row : Row} (rule : Rule P w row) where
  pool_rule : (stats : PoolStats) (s : Round) → P s → P (examine_pool w row stats s)
  unfolding examine_pool
  pool_rule stats s p = elim (Bool-cases (leb_ℤ stats.open_slots (pos 0))) [
    | inl t ↦ rw t (stay rule stats s p _ (IsIdle-by refl refl refl))
    | inr f ↦ rw f (elim (Bool-cases (ltb stats.total row.ti.pool_slots)) [
      | inl t ↦ rw t (stay rule stats s p _ (IsIdle-by refl refl refl))
      | inr g ↦ rw g (elim (Bool-cases (ltb_ℤ stats.open_slots (pos row.ti.pool_slots))) [
        | inl t ↦ rw t (stay rule stats s p _ (IsIdle-by refl refl refl))
        | inr k ↦ rw k (dag_rule rule stats s p)
      ])
    ])
  ]

  examine_rule : (s : Round) → P s → P (examine w row s)
  unfolding examine
  examine_rule s p = elim (Option-cases (lookup row.ti.pool s.pools)) [
    | inl missing ↦ rw (missing, examine) (rule.idle s _ (IsIdle-by refl refl refl) p)
    | inr (stats, found) ↦
        rw (found, examine) (pool_rule stats _ (rule.idle s _ (IsIdle-by refl refl refl) p))
  ]

pub examine_all_rule {κ} :
    (P : Round → Type κ) (w : World) (rows : List Row)
    → All (λ row. Rule P w row) rows
    → (s : Round) → P s
    → P (examine_all w rows s)
unfolding examine_all
examine_all_rule P w [] rules s p = p
examine_all_rule P w (row ∷ rows) rules s p =
    examine_all_rule P w rows rules.1 (examine w row s) (examine_rule rules.0 s p)
