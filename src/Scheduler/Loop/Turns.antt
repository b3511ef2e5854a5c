-- ===== src/Scheduler/Loop/Turns.antt =====
-- How many turns the loop of Scheduler/Loop takes.
use beeflow.Prelude.{
  ℕ, zero, suc, ◌+◌, ◌≡◌, ◌≤◌, refl, sym, ap, ◌∙◌, true, false, none, some, [], inl, inr, arith,
}
use beeflow.Prelude.Int.{ℤ, pos, leb_ℤ}
use beeflow.Prelude.Result.{Result, ok, err, Result-cases}
use beeflow.Scheduler.ExecutorEvents.{EventError, Processed, process_executor_events}
use beeflow.Scheduler.Scheduling.{State, Failure}
use beeflow.Scheduler.Scheduling.Termination.{do_scheduling_total}
use beeflow.Scheduler.Loop.{
  TurnSetting, JobState, LoopError, Outcome, after_events, after_scheduling, turn, is_last,
  next_turn, loop_from, run_scheduler_loop, without_sleep, handler,
}

-- So many turns, one after the other; an exception ends them.
unfoldable pub turns : (ℕ → TurnSetting) → ℕ → ℕ → JobState → Outcome
unfolding turn next_turn
turns x zero loop_count s = some (ok s)
turns x (suc n) loop_count s = next_turn false (turns x n (suc loop_count)) (turn (x loop_count) s)

after_events_total :
    (x : TurnSetting) (n : ℕ) (s : JobState) (r : Result EventError (ℕ × Processed))
    → (result : Result LoopError JobState) × (after_events x n s r ≡ some result)
unfolding after_events
after_events_total x n s (err e) = (_, refl)
after_events_total x n s (ok p) = (_, refl)

after_scheduling_total :
    (x : TurnSetting) (s : JobState) (r : Result Failure (ℕ × State))
    → (result : Result LoopError JobState) × (after_scheduling x s (some r) ≡ some result)
unfolding after_scheduling
after_scheduling_total x s (err e) = (_, refl)
after_scheduling_total x s (ok (n, state)) =
    after_events_total x n (record s { state = state })
      (process_executor_events x.executor state.db.dag_models state.db.task_instances
        (x.get_event_buffer state))

pub turn_total :
    (x : TurnSetting) (s : JobState)
    → (result : Result LoopError JobState) × (turn x s ≡ some result)
unfolding turn
turn_total x s =
    let (r, ran) = do_scheduling_total x.setting s.state in
    let (result, done) = after_scheduling_total x s r in
    (result, ap (after_scheduling x s) ran ∙ done)

turns_total :
    (x : ℕ → TurnSetting) (n loop_count : ℕ) (s : JobState)
    → (result : Result LoopError JobState) × (turns x n loop_count s ≡ some result)
unfolding turns next_turn
turns_total x zero loop_count s = (_, refl)
turns_total x (suc n) loop_count s =
    let (r, ran) = turn_total (x loop_count) s in
    elim (Result-cases r) [
      | inr (e, raised) ↦ (err e, rw (ran, raised) refl)
      | inl (next, returned) ↦
          let (result, done) = turns_total x n (suc loop_count) next in
          (result, rw (ran, returned) done)
    ]

loop_from-turns :
    (x : ℕ → TurnSetting) (n loop_count more : ℕ) (s : JobState)
    → 1 ≤ loop_count
    → loop_from x (pos (loop_count + n)) (suc (n + more)) loop_count s
      ≡ turns x (suc n) loop_count s
unfolding loop_from turns next_turn
loop_from-turns x zero loop_count more s h =
    let (r, ran) = turn_total (x loop_count) s in
    let last : is_last (pos (loop_count + 0)) loop_count ≡ true = ground (arith, h) in
    elim (Result-cases r) [
      | inr (e, raised) ↦ rw (ran, raised) refl
      | inl (next, returned) ↦ rw (ran, returned, last) refl
    ]
loop_from-turns x (suc n) loop_count more s h =
    let (r, ran) = turn_total (x loop_count) s in
    let on : is_last (pos (loop_count + suc n)) loop_count ≡ false = ground (arith, h) in
    let moved : loop_count + suc n ≡ suc loop_count + n = omega arith in
    let fuel : suc n + more ≡ suc (n + more) = omega arith in
    elim (Result-cases r) [
      | inr (e, raised) ↦ rw (ran, raised) refl
      | inl (next, returned) ↦
          rw (ran, returned, on)
            (ap (λ k. loop_from x (pos k) (suc n + more) (suc loop_count) next) moved
              ∙ ap (λ k. loop_from x (pos (suc loop_count + n)) k (suc loop_count) next) fuel
              ∙ loop_from-turns x n (suc loop_count) more next (omega arith))
    ]

loop_from-never :
    (x : ℕ → TurnSetting) (num_runs : ℤ) (fuel loop_count : ℕ) (s after : JobState)
    → leb_ℤ num_runs (pos 0) ≡ true
    → turns x fuel loop_count s ≡ some (ok after)
    → loop_from x num_runs fuel loop_count s ≡ none
unfolding loop_from turns next_turn
loop_from-never x num_runs zero loop_count s after unlimited h = refl
loop_from-never x num_runs (suc fuel) loop_count s after unlimited h =
    let (r, ran) = turn_total (x loop_count) s in
    elim (Result-cases r) [
      | inr (e, raised) ↦ cc (rw (ran, raised) at h)
      | inl (next, returned) ↦
          let on : is_last num_runs loop_count ≡ false = ground (arith, unlimited) in
          rw (ran, returned, on)
            (loop_from-never x num_runs fuel (suc loop_count) next after unlimited
              (rw (ran, returned) at h))
    ]

-- With a positive number of runs, the loop takes exactly that many turns, unless a turn raises an
-- exception, and comes to a result: fuel for that many turns is enough, and more changes nothing.
pub run_scheduler_loop-turns :
    (x : ℕ → TurnSetting) (n more : ℕ) (s : JobState)
    → (run_scheduler_loop x (pos (suc n)) (suc (n + more)) s ≡ turns x (suc n) 1 s)
      × ((result : Result LoopError JobState) × (turns x (suc n) 1 s ≡ some result))
unfolding run_scheduler_loop
run_scheduler_loop-turns x n more s =
    let runs : 1 + n ≡ suc n = omega arith in
    (
      ap (λ k. loop_from x (pos k) (suc (n + more)) 1 s) (sym runs)
          ∙ loop_from-turns x n 1 more s (omega arith),
      turns_total x (suc n) 1 s,
    )

-- Without a record in the event, the handler does not return: as long as no turn raises an exception,
-- no amount of fuel is enough for its loop.
pub handler_never :
    (Record : Type 0) (x : ℕ → TurnSetting) (fuel : ℕ) (s after : JobState)
    → turns (without_sleep x) fuel 1 s ≡ some (ok after)
    → handler {Record = Record} x [] fuel s ≡ none
unfolding handler run_scheduler_loop
handler_never Record x fuel s after h =
    loop_from-never (without_sleep x) (pos 0) fuel 1 s after refl h
