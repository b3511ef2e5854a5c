-- ===== src/Scheduler/Upkeep/Settled.antt =====
-- What the checks of Scheduler/Upkeep leave behind.
use beeflow.Prelude.{
  ℕ, ◌+◌, ◌<◌, ◌≡◌, refl, true, Option, none, some, arith, List, [], ◌∷◌, string_eq, nat_eq, inl,
  inr, Bool-cases,
}
use mathlib.Core.Path.{subst}
use beeflow.Scheduler.Tables.{TaskInstance, TaskState, is_deferred}
use beeflow.Scheduler.Upkeep.{is_before, is_timed_out, fail_timed_out, check_trigger_timeouts}

-- A row that the update is for: deferred, with a timeout that has passed.
abbrev pub TimesOut : ℕ → TaskInstance → Type 0
TimesOut now ti =
    (ti.state ≡ some TaskState.deferred)
    × (date : ℕ) × (ti.trigger_timeout ≡ some date)
    × (date < now)

-- An update of the rows that have timed out, row by row, with the number of those rows.
pub data Updates (now : ℕ) : List TaskInstance → ℕ → List TaskInstance → Type 0 where
  done : Updates now [] 0 []
  failed :
      {ti : TaskInstance} {n : ℕ} {tis after : List TaskInstance}
      → TimesOut now ti
      → Updates now tis n after
      → Updates now (ti ∷ tis) (1 + n) (
          record ti {
            state = some TaskState.scheduled;
            next_method = some "__fail__";
            next_kwargs = ("error", "Trigger/execution timeout") ∷ [];
            trigger_id = none;
          }
          ∷ after)
  kept :
      {ti : TaskInstance} {n : ℕ} {tis after : List TaskInstance}
      → ¬ TimesOut now ti
      → Updates now tis n after
      → Updates now (ti ∷ tis) n (ti ∷ after)

deferred-state : (s : Option TaskState) → is_deferred s ≡ true → s ≡ some TaskState.deferred
deferred-state none h = cc
deferred-state (some s) h = ground arith

is_before-lt :
    (t : Option ℕ) (now : ℕ) → is_before t now ≡ true → (date : ℕ) × (t ≡ some date) × (date < now)
is_before-lt none now h = cc
is_before-lt (some date) now h = (date, refl, ground (arith, h))

is_timed_out-TimesOut : (now : ℕ) (ti : TaskInstance) → is_timed_out now ti ≡ true → TimesOut now ti
is_timed_out-TimesOut now ti h =
    let (date, dated, passed) = is_before-lt ti.trigger_timeout now (ground (arith, h)) in
    (deferred-state ti.state (ground (arith, h)), date, dated, passed)

TimesOut-is_timed_out : (now : ℕ) (ti : TaskInstance) → TimesOut now ti → is_timed_out now ti ≡ true
TimesOut-is_timed_out now ti (deferred, date, dated, passed) =
    rw (deferred, dated) (ground (arith, passed))

-- `check_trigger_timeouts` counts and updates exactly the rows that are deferred with a timeout before
-- now: they are scheduled for the method `__fail__` with the text of the timeout and without a trigger,
-- and every other row is left as it is. Right after it, it finds none and changes nothing.
pub check_trigger_timeouts_lem :
    (now : ℕ) (tis : List TaskInstance)
    → Updates now tis (check_trigger_timeouts now tis).0 (check_trigger_timeouts now tis).1
      × (check_trigger_timeouts now (check_trigger_timeouts now tis).1
          ≡ (0, (check_trigger_timeouts now tis).1))
unfolding check_trigger_timeouts fail_timed_out
check_trigger_timeouts_lem now [] = (done, refl)
check_trigger_timeouts_lem now (ti ∷ tis) =
    let (updated, settled) = check_trigger_timeouts_lem now tis in
    elim (Bool-cases (is_timed_out now ti)) [
      | inl late ↦
          (rw late (failed (is_timed_out-TimesOut now ti late) updated), rw (late, settled) refl)
      | inr other ↦ (
        rw other (
            subst (λ n. Updates now (ti ∷ tis) n (ti ∷ (check_trigger_timeouts now tis).1))
              (omega arith) (kept (λ h. let late = TimesOut-is_timed_out now ti h in cc) updated)),
        rw (other, settled, other) refl,
      )
    ]
