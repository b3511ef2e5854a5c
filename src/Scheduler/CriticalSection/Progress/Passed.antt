-- ===== src/Scheduler/CriticalSection/Progress/Passed.antt =====
-- What a round of `_executable_task_instances_to_queued` (lambdas/scheduler/scheduler_job.py, under
-- src/python/beeflow) that takes nothing has found out about each of its rows.
use beeflow.Prelude.{
  ℕ, ◌≤◌, ◌≡◌, ap, ◌∙◌, false, none, some, List, [], ◌∷◌, arith, string_eq, pair_eq, nat_eq, length,
  length-append, All, inl, inr, ◌⊎◌,
}
use beeflow.Scheduler.Tables.{Database}
use beeflow.Scheduler.Query.{Row, Starved, find_dag_model, admits}
use beeflow.Scheduler.World.{World}
use beeflow.Scheduler.Examine.{Round, take_ti, examine, examine_all}
use beeflow.Scheduler.Examine.Starvation.{examine_all-Grows}
use beeflow.Scheduler.Examine.Rule.{Rule, examine_all_rule}
use beeflow.Scheduler.CriticalSection.Effect.{IsEligible}
use beeflow.Scheduler.CriticalSection.Progress.Still.{IsStill}
use beeflow.Scheduler.CriticalSection.Progress.Examined.{takes, passes, examine-Verdict}

module _ (w : World) (db : Database) where
  Grown-Rule : (n : ℕ) (row : Row) → Rule (λ s. n ≤ length s.executable_tis) w row
  unfolding take_ti
  Grown-Rule n row = record {
    idle = λ s s' i h. omega (arith, ap length i.taken, h);
    takes = λ stats s _ _ h. omega (arith, length-append s.executable_tis (row.ti ∷ []), h);
  }

  Grown-Rules : (n : ℕ) (rows : List Row) → All (Rule (λ s. n ≤ length s.executable_tis) w) rows
  Grown-Rules n [] = tt
  Grown-Rules n (row ∷ rows) = (Grown-Rule n row, Grown-Rules n rows)

  -- A row of an eligible task instance, with the model of its DAG.
  pub record IsQueried (row : Row) : Type 0 where
    pub eligible : IsEligible w db row.ti
    pub found_model : find_dag_model db.dag_models row.ti.dag_id ≡ some row.dag_model

  -- Why a row was not taken: it is starved after the round, or its DAG is missing.
  abbrev pub Passed : Starved → Row → Type 0
  Passed starved row = (admits starved row.ti ≡ false) ⊎ (w.get_dag row.ti.dag_id ≡ none)

  -- If the loop takes nothing, it has found out of each of its rows why.
  pub examine_all-Passed :
      (rows : List Row) (s : Round)
      → All IsQueried rows
      → IsStill w db s
      → s.executable_tis ≡ []
      → (examine_all w rows s).executable_tis ≡ []
      → IsStill w db (examine_all w rows s) × All (Passed (examine_all w rows s).starved) rows
  unfolding examine_all
  examine_all-Passed [] s queried h before after = (h, tt)
  examine_all-Passed (row ∷ rows) s queried h before after =
      elim (examine-Verdict w db row queried.0.eligible queried.0.found_model s h) [
        | takes more ↦ absurd (
            omega (
              arith,
              more,
              ap length before,
              ap length after,
              examine_all_rule (λ t. 1 ≤ length t.executable_tis) w rows (Grown-Rules 1 rows)
                  (examine w row s) (omega (arith, more, ap length before)),
            ))
        | passes still same why ↦
            let (still_after, others) =
              examine_all-Passed rows (examine w row s) queried.1 still (same ∙ before) after in
            (
              still_after,
              (
                elim why [
                  | inl out ↦ inl (examine_all-Grows w rows (examine w row s) row.ti out)
                  | inr missing ↦ inr missing
                ],
                others,
              ),
            )
      ]
