-- ===== src/Scheduler/Capacity/Runs.antt =====
-- A whole run of the scheduler's loop (lambdas/scheduler/scheduler_job.py, under src/python/beeflow)
-- and what executes.
use beeflow.Prelude.{ℕ, zero, suc, ◌+◌, ◌≤◌, ◌≡◌, sym, ap, ◌∙◌, some, inl, inr, some_inj}
use mathlib.Core.Path.{subst}
use beeflow.Prelude.Int.{pos}
use beeflow.Prelude.Result.{ok, ok_inj, Result-cases}
use beeflow.Scheduler.ExecutorEvents.Handled.{IsKeyed}
use beeflow.Scheduler.Loop.{TurnSetting, JobState, turn, next_turn, run_scheduler_loop}
use beeflow.Scheduler.Loop.Turns.{turns, turn_total, run_scheduler_loop-turns}
use beeflow.Scheduler.Capacity.{Measure}
use beeflow.Scheduler.Capacity.Limits.{Limits, bound}
use beeflow.Scheduler.Capacity.Steps.{
  Reach, start, Reach-trans, Reach-IsKeyed, IsWithin, Reach-IsWithin,
}
use beeflow.Scheduler.Capacity.Turns.{IsTrusted, turn-Reach}

-- Each of so many turns can be trusted, in the state that the turns before it leave.
abbrev pub AreTrusted : Limits → (ℕ → TurnSetting) → ℕ → ℕ → JobState → Type 0
AreTrusted l x zero loop_count s = Unit
AreTrusted l x (suc n) loop_count s =
    IsTrusted l (x loop_count) s
    × ((next : JobState)
        → turn (x loop_count) s ≡ some (ok next)
        → AreTrusted l x n (suc loop_count) next)

-- So many turns are a sequence of transactions.
turns-Reach :
    (l : Limits) (x : ℕ → TurnSetting) (n loop_count : ℕ) (s after : JobState)
    → AreTrusted l x n loop_count s
    → IsKeyed s.state.db.task_instances
    → turns x n loop_count s ≡ some (ok after)
    → Reach l s.state.db after.state.db
unfolding turns next_turn
turns-Reach l x zero loop_count s after trusted keyed e =
    subst (λ (t : JobState). Reach l s.state.db t.state.db) (ok_inj (some_inj e)) start
turns-Reach l x (suc n) loop_count s after trusted keyed e =
    let (r, ran) = turn_total (x loop_count) s in
    elim (Result-cases r) [
      | inr (raised, failed) ↦ cc (rw (ran, failed) at e)
      | inl (next, returned) ↦
          let turned = ran ∙ ap some returned in
          let first = turn-Reach l (x loop_count) s next trusted.0 keyed turned in
          Reach-trans first (
            turns-Reach l x n (suc loop_count) next after (trusted.1 next turned)
              (Reach-IsKeyed first keyed) (rw (ran, returned) at e))
    ]

-- When the loop returns after its number of runs, what executes in a pool, of a DAG or of a task is
-- within any bound that is no less than its limit and that it was within before, and the rows have keys
-- of their own. They had them before, and each turn can be trusted: its critical section is told the
-- limits and what executes; what Airflow does to the task instances in the decisions on runs and in
-- `update_state` for paused DAGs keeps the keys of the rows apart, starts none, and leaves those that go
-- on executing their key, pool and slots; and one that fails keeps its key, pool and slots.
pub run_scheduler_loop-IsWithin :
    (l : Limits) (m : Measure) (limit most : ℕ) (x : ℕ → TurnSetting) (n more : ℕ)
    (s after : JobState)
    → bound l m ≡ some limit
    → limit ≤ most
    → AreTrusted l x (suc n) 1 s
    → IsWithin m most s.state.db
    → run_scheduler_loop x (pos (suc n)) (suc (n + more)) s ≡ some (ok after)
    → IsWithin m most after.state.db
run_scheduler_loop-IsWithin l m limit most x n more s after limited fits trusted before e =
    Reach-IsWithin l m limit most limited fits
      (turns-Reach l x (suc n) 1 s after trusted before.keyed
        (sym (run_scheduler_loop-turns x n more s).0 ∙ e))
      before
