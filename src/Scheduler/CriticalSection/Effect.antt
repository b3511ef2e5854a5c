-- ===== src/Scheduler/CriticalSection/Effect.antt =====
-- Which task instances the critical section queues, and what it does to the tables.
use beeflow.Prelude.{
  ℕ, ◌≡◌, refl, true, false, some, List, [], ◌∷◌, arith, string_eq, pair_eq, nat_eq, All,
  All-append, All-imp, inl, inr, ◌⊎◌, In,
}
use beeflow.Prelude.Result.{ok}
use beeflow.Scheduler.Tables.{TaskInstance, DagRun, DagModel, Database, is_scheduled}
use beeflow.Scheduler.Query.{Row, find_dag_run, find_dag_model, runnable}
use beeflow.Scheduler.World.{World}
use beeflow.Scheduler.Examine.{Round, take_ti}
use beeflow.Scheduler.CriticalSection.{
  loop, start_round, is_among, mark_queued, set_queued, Outcome, finish, enough_fuel,
  executable_task_instances_to_queued,
}
use beeflow.Scheduler.Query.Facts.{IsSelected, select-IsSelected}
use beeflow.Scheduler.Examine.Rule.{Rule, examine_all_rule}
use beeflow.Scheduler.Examine.Table.{
  Changes, Lost, In-Fades, Changes-refl, Changes-trans, examine_all-Changes, Changes-Fades,
}
use beeflow.Scheduler.CriticalSection.Rounds.{
  table, examined, round, room, loop_rule, outcome_cases,
}

-- A scheduled row of the table, of a running run that is no backfill and a DAG that is not paused,
-- that no other session has locked.
pub record IsEligible (w : World) (db : Database) (ti : TaskInstance) : Type 0 where
  pub listed : In ti db.task_instances
  pub run : DagRun
  pub model : DagModel
  pub found_run : find_dag_run db.dag_runs ti ≡ some run
  pub found_model : find_dag_model db.dag_models ti.dag_id ≡ some model
  pub holds : runnable run model ti ≡ true
  pub unlocked : w.row_locked ti ≡ false

pub runnable-scheduled :
    (run : DagRun) (model : DagModel) (ti : TaskInstance)
    → runnable run model ti ≡ true
    → is_scheduled ti.state ≡ true
runnable-scheduled run model ti h = ground arith

abbrev Sound : World → Database → Round → Type 0
Sound w db s = Changes w db.task_instances s.tis × All (IsEligible w db) s.executable_tis

module _ (w : World) (max_tis : ℕ) (db : Database) where
  pub selected-IsEligible :
      (s : Round)
      → Changes w db.task_instances s.tis
      → (row : Row) → IsSelected w.row_locked (table db s) s.starved row
      → IsEligible w db row.ti
  selected-IsEligible s changed row sel = record {
    listed =
        In-Fades row.ti _ _ (Changes-Fades w _ _ changed)
          (runnable-scheduled sel.joined.run row.dag_model row.ti sel.joined.holds) sel.occurs;
    run = sel.joined.run;
    model = row.dag_model;
    found_run = sel.joined.found_run;
    found_model = sel.joined.found_model;
    holds = sel.joined.holds;
    unlocked = sel.unlocked;
  }

  IsEligible-Rule :
      (row : Row)
      → IsEligible w db row.ti
      → Rule (λ s. All (IsEligible w db) s.executable_tis) w row
  unfolding take_ti
  IsEligible-Rule row ok_row = record {
    idle = λ s s' i h. rw i.taken h;
    takes =
        λ stats s _ _ h. All-append (IsEligible w db) s.executable_tis (row.ti ∷ []) h (ok_row, tt);
  }

  round-Sound : (s : Round) → Sound w db s → Sound w db (round w max_tis db s)
  round-Sound s (changed, chosen) = (
    Changes-trans w _ _ _ changed (examine_all-Changes w (examined w max_tis db s) s),
    examine_all_rule (λ t. All (IsEligible w db) t.executable_tis) w (examined w max_tis db s)
        (All-imp _ _ (λ row sel. IsEligible-Rule row (selected-IsEligible s changed row sel)) _
          (select-IsSelected w.row_locked max_tis (table db s) s.starved))
        s chosen,
  )

loop-Sound :
    (w : World) (max_tis : ℕ) (db : Database) (last : Round)
    → loop w max_tis db (enough_fuel db) (start_round w db) ≡ some last
    → Sound w db last
unfolding start_round
loop-Sound w max_tis db last ran =
    loop_rule w max_tis db (Sound w db) (round-Sound w max_tis db) _ (start_round w db) last
      (Changes-refl w db.task_instances, tt) ran

-- Whatever the critical section queues is a scheduled task instance of the table, in a running run
-- that is no backfill, of a DAG that is not paused, and not locked by another session.
pub chosen-IsEligible :
    (w : World) (max_tis : ℕ) (db : Database) (out : Outcome)
    → executable_task_instances_to_queued w max_tis db ≡ some (ok out)
    → All (IsEligible w db) out.chosen
unfolding finish
chosen-IsEligible w max_tis db out e = elim (outcome_cases w max_tis db out e) [
  | inl (idle, _) ↦ rw idle tt
  | inr (last, ran, settled) ↦ rw settled (loop-Sound w (room w max_tis db) db last ran).1
]

-- What becomes of a row: it may be failed for want of its DAG, and it is marked if it is chosen.
abbrev pub Settles : World → List TaskInstance → List TaskInstance → List TaskInstance → Type 0
Settles w chosen [] [] = Unit
Settles w chosen (x ∷ xs) (y ∷ ys) =
    ((mid : TaskInstance) × ((x ≡ mid) ⊎ Lost w x mid) × (y ≡ mark_queued w chosen mid))
    × Settles w chosen xs ys
Settles w chosen _ _ = ⊥

Changes-Settles :
    (w : World) (chosen xs ys : List TaskInstance)
    → Changes w xs ys
    → Settles w chosen xs (set_queued w chosen ys)
unfolding set_queued
Changes-Settles w chosen [] [] h = tt
Changes-Settles w chosen [] (y ∷ ys) h = elim h [ ]
Changes-Settles w chosen (x ∷ xs) [] h = elim h [ ]
Changes-Settles w chosen (x ∷ xs) (y ∷ ys) h = ((y, h.0, refl), Changes-Settles w chosen xs ys h.1)

nothing-Settles : (w : World) (tis : List TaskInstance) → Settles w [] tis tis
unfolding mark_queued is_among
nothing-Settles w [] = tt
nothing-Settles w (ti ∷ tis) = ((ti, inl refl, refl), nothing-Settles w tis)

pub db-Settles :
    (w : World) (max_tis : ℕ) (db : Database) (out : Outcome)
    → executable_task_instances_to_queued w max_tis db ≡ some (ok out)
    → Settles w out.chosen db.task_instances out.db.task_instances
      × (out.db.dag_runs ≡ db.dag_runs)
      × (out.db.dag_models ≡ db.dag_models)
unfolding finish
db-Settles w max_tis db out e = elim (outcome_cases w max_tis db out e) [
  | inl (idle, _) ↦ rw idle (nothing-Settles w db.task_instances, refl, refl)
  | inr (last, ran, settled) ↦ rw settled (
    Changes-Settles w last.executable_tis _ _ (loop-Sound w (room w max_tis db) db last ran).0,
    refl,
    refl,
  )
]
