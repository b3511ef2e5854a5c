-- ===== src/Scheduler/CriticalSection/Progress/Waits.antt =====
-- `_executable_task_instances_to_queued` (lambdas/scheduler/scheduler_job.py, under src/python/beeflow)
-- and a task instance that it does not queue: what each end of its loop says of it.
use beeflow.Prelude.{
  ℕ, ◌≤◌, ◌<◌, ◌≡◌, refl, sym, ap, ◌∙◌, Bool, true, false, List, [], ◌∷◌, arith, string_eq, pair_eq,
  nat_eq, length, count, All, All-imp, In, All-In, Bool-cases, inl, inr, ◌⊎◌,
}
use beeflow.Scheduler.Tables.{TaskInstance, Database}
use beeflow.Scheduler.Query.{Row, admits}
use beeflow.Scheduler.World.{World}
use beeflow.Scheduler.Examine.{Round}
use beeflow.Scheduler.Examine.Table.{Changes}
use beeflow.Scheduler.Query.Facts.{IsSelected, select-IsSelected}
use beeflow.Scheduler.CriticalSection.{is_nil, is_finished, found_new_filters}
use beeflow.Scheduler.CriticalSection.Rounds.{table, examined, round}
use beeflow.Scheduler.CriticalSection.Effect.{IsEligible, selected-IsEligible, runnable-scheduled}
use beeflow.Scheduler.CriticalSection.Progress.{Blocked}
use beeflow.Scheduler.CriticalSection.Progress.Still.{IsStill, IsShut-out}
use beeflow.Scheduler.CriticalSection.Progress.Passed.{IsQueried, Passed}
use beeflow.Scheduler.CriticalSection.Progress.Growth.{examine_all-Lengthens}
use beeflow.Scheduler.CriticalSection.Progress.Queried.{join_row-found, select-In}
use beeflow.Scheduler.CriticalSection.Progress.Orphans.{
  is_orphan, missing-orphan, select-orphans, In-Changes,
}

pub nil_length {ℓ} : {A : Type ℓ} (xs : List A) → is_nil xs ≡ true → length xs ≡ 0
nil_length [] h = refl
nil_length (x ∷ xs) h = cc

taken_nil {ℓ} : {A : Type ℓ} (xs : List A) → xs ≡ [] → is_nil xs ≡ true
taken_nil xs e = ap is_nil e

-- A full query of task instances whose DAG is missing.
pub record IsCrowded (w : World) (limit : ℕ) (db : Database) : Type 0 where
  pub positive : 1 ≤ limit
  pub orphans : limit ≤ count (is_orphan w) db.task_instances

All-both {ℓ κ μ} :
    {A : Type ℓ} (P : A → Type κ) (Q : A → Type μ) (xs : List A)
    → All P xs
    → All Q xs
    → All (λ x. P x × Q x) xs
All-both P Q [] h k = tt
All-both P Q (x ∷ xs) h k = ((h.0, k.0), All-both P Q xs h.1 k.1)

module _ (w : World) (max_tis : ℕ) (db : Database) (ti : TaskInstance)
    (eligible : IsEligible w db ti) where
  -- A query below its limit returns the task instance, unless it is blocked.
  pub few_rows :
      (s : Round)
      → Changes w db.task_instances s.tis
      → IsStill w db s
      → length (examined w max_tis db s) < max_tis
      → Blocked w db ti ⊎ ((row : Row) × (row.ti ≡ ti) × In row (examined w max_tis db s))
  few_rows s changed still few = elim (Bool-cases (admits s.starved ti)) [
    | inr out ↦ inl (inl (IsShut-out w db s.starved ti still.shut out))
    | inl admitted ↦ elim (In-Changes w ti db.task_instances s.tis changed eligible.listed) [
      | inr missing ↦ inl (inr missing)
      | inl there ↦ inr (
        record {
          ti = ti;
          execution_date = eligible.run.execution_date;
          dag_model = eligible.model;
        },
        refl,
        select-In w.row_locked max_tis (table db s) s.starved ti _ few
            (join_row-found db.dag_runs db.dag_models ti eligible.run eligible.model
              eligible.found_run eligible.found_model eligible.holds)
            there admitted eligible.unlocked,
      )
    ]
  ]

  Passed-Blocked :
      (s : Round) (row : Row)
      → IsStill w db s
      → row.ti ≡ ti
      → Passed w db s.starved row
      → Blocked w db ti
  Passed-Blocked s row still same (inl out) =
      inl (IsShut-out w db s.starved ti still.shut (sym (ap (admits s.starved) same) ∙ out))
  Passed-Blocked s row still same (inr missing) =
      inr (sym (ap (λ (t : TaskInstance). w.get_dag t.dag_id) same) ∙ missing)

  -- What is found out about the task instance when the loop ends and has taken nothing.
  abbrev pub Found : Type 0
  Found = Blocked w db ti ⊎ IsCrowded w max_tis db

  pub few_round :
      (s : Round)
      → Changes w db.task_instances s.tis
      → IsStill w db s
      → IsStill w db (round w max_tis db s)
      → All (Passed w db (round w max_tis db s).starved) (examined w max_tis db s)
      → length (examined w max_tis db s) < max_tis
      → Found
  few_round s changed still still_after passed few = elim (few_rows s changed still few) [
    | inl blocked ↦ inl blocked
    | inr (row, same, returned) ↦ inl (
        Passed-Blocked (round w max_tis db s) row still_after same (
          All-In (Passed w db (round w max_tis db s).starved) row (examined w max_tis db s) passed
            returned))
  ]

  orphan_row :
      (s : Round)
      → Changes w db.task_instances s.tis
      → (after : Round) → after.starved ≡ s.starved
      → (row : Row)
      → IsSelected w.row_locked (table db s) s.starved row × Passed w db after.starved row
      → is_orphan w row.ti ≡ true
  orphan_row s changed after same row (sel, inl out) =
      absurd (clash (sym (ap (λ st. admits st row.ti) same) ∙ out) sel.admitted)
    where
      clash : {b : Bool} → b ≡ false → b ≡ true → ⊥
      clash f t = cc
  orphan_row s changed after same row (sel, inr missing) =
      missing-orphan w row.ti
        (runnable-scheduled sel.joined.run row.dag_model row.ti sel.joined.holds) missing

  -- A full round without a new filter has met orphans alone.
  pub full_round :
      (s : Round)
      → 1 ≤ max_tis
      → Changes w db.task_instances s.tis
      → All (Passed w db (round w max_tis db s).starved) (examined w max_tis db s)
      → max_tis ≤ length (examined w max_tis db s)
      → found_new_filters s.starved (round w max_tis db s).starved ≡ false
      → Found
  full_round s positive changed passed enough none_new =
      let same = (examine_all-Lengthens w (examined w max_tis db s) s).same none_new in
      let both =
        All-both _ _ (examined w max_tis db s)
          (select-IsSelected w.row_locked max_tis (table db s) s.starved) passed in
      let orphans =
        All-imp _ (λ (row : Row). is_orphan w row.ti ≡ true)
          (orphan_row s changed (round w max_tis db s) same) (examined w max_tis db s) both in
      inr (record {
        positive = positive;
        orphans = omega (
          arith,
          enough,
          select-orphans w (table db s) s.starved max_tis db.task_instances changed orphans,
        );
      })

  pub queried :
      (s : Round)
      → Changes w db.task_instances s.tis
      → All (IsQueried w db) (examined w max_tis db s)
  queried s changed =
      All-imp _ (IsQueried w db)
        (λ row (sel : IsSelected w.row_locked (table db s) s.starved row). record {
          eligible = selected-IsEligible w max_tis db s changed row sel;
          found_model = sel.joined.found_model;
        })
        (examined w max_tis db s) (select-IsSelected w.row_locked max_tis (table db s) s.starved)

  pub finished_cases :
      (s s' : Round)
      → s'.executable_tis ≡ []
      → is_finished max_tis (examined w max_tis db s) s s' ≡ true
      → (length (examined w max_tis db s) < max_tis)
        ⊎ ((max_tis ≤ length (examined w max_tis db s))
            × (found_new_filters s.starved s'.starved ≡ false))
  unfolding is_finished
  finished_cases s s' nothing finished =
      ground (arith, finished, taken_nil s'.executable_tis nothing)
