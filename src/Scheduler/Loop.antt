-- ===== src/Scheduler/Loop.antt =====
-- `_run_scheduler_loop` of lambdas/scheduler/scheduler_job.py, and the Lambda's handler in
-- lambdas/scheduler/scheduler_runner.py (under src/python/beeflow).
pub mod Turns
use beeflow.Prelude.{
  ℕ, zero, suc, ◌-◌, min, Bool, true, false, not, ◌&&◌, Option, none, some, List, [], ◌∷◌, ◌++◌,
  String, if◌then◌else◌, nat_beq, length,
}
use beeflow.Prelude.Int.{ℤ, pos, leb_ℤ}
use beeflow.Prelude.Result.{Result, ok, err}
use beeflow.Scheduler.Tables.{Database}
use beeflow.Scheduler.ExecutorEvents.{
  EventBuffer, EventError, KilledRequest, ExecutorWorld, Processed, process_executor_events,
}
use beeflow.Scheduler.Callbacks.{Paused, PausedState, update_dag_run_state_for_paused_dags}
use beeflow.Scheduler.Upkeep.{
  LocalTaskJob, TaskCallbackRequest, check_trigger_timeouts, find_zombies,
}
use beeflow.Scheduler.Scheduling.{Setting, State, Failure, do_scheduling}

-- The functions that the timers call.
pub data TimedEvent : Type 0 where
  trigger_timeouts pool_metrics zombies paused_dags : TimedEvent

-- What one turn of the loop takes from outside.
pub record TurnSetting : Type 0 where
  pub setting : Setting
  pub executor : ExecutorWorld
  -- what the executor reports after its heartbeat
  pub get_event_buffer : State → EventBuffer
  -- `timers.run`: the events that are due, and the time to the next one
  pub due : List TimedEvent × Option ℕ
  pub now : ℕ
  pub zombie_threshold_secs : ℕ
  pub jobs : List LocalTaskJob
  pub show_map_index : ℤ → String
  pub paused : Paused
  -- `DagModel.get_all_paused_dag_ids`
  pub paused_dag_ids : State → List String
  pub is_unit_test : Bool
  pub scheduler_idle_sleep_time : ℕ

-- The state of the job: the tables, the requests for task instances, and the times it has slept.
pub record JobState : Type 0 where
  pub state : State
  pub killed : List KilledRequest
  pub zombies : List TaskCallbackRequest
  pub without_running : List String
  pub naps : List ℕ

pub data LoopError : Type 0 where
  scheduling_failure : Failure → LoopError
  event_failure : EventError → LoopError

-- What a turn comes to. `none` means that the fuel of the critical section ran out.
abbrev pub Outcome : Type 0
Outcome = Option (Result LoopError JobState)

unfoldable pub fail_timed_out_tasks : TurnSetting → JobState → JobState
unfolding check_trigger_timeouts
fail_timed_out_tasks x s = record s {
  state = record s.state {
    db = record s.state.db {
      task_instances = (check_trigger_timeouts x.now s.state.db.task_instances).1;
    };
  };
}

unfoldable pub report_zombies : TurnSetting → JobState → JobState
unfolding find_zombies
report_zombies x s = record s {
  zombies =
      s.zombies
      ++ find_zombies x.show_map_index x.setting.world.job_id (x.now - x.zombie_threshold_secs)
          x.jobs s.state.db.dag_models s.state.db.task_instances;
}

unfoldable pub update_paused_dags : TurnSetting → JobState → JobState
unfolding update_dag_run_state_for_paused_dags
update_paused_dags x s =
    let after =
      update_dag_run_state_for_paused_dags x.setting.callbacks x.paused s.state.db.dag_models
        (x.paused_dag_ids s.state)
        (record {
          dag_runs = s.state.db.dag_runs;
          task_instances = s.state.db.task_instances;
          sent = s.state.sent;
          without_running = s.without_running;
        }) in
    record s {
      state = record s.state {
        db = record s.state.db { dag_runs = after.dag_runs; task_instances = after.task_instances };
        sent = after.sent;
      };
      without_running = after.without_running;
    }

-- `_emit_pool_metrics` only sends gauges.
unfoldable pub run_event : TurnSetting → TimedEvent → JobState → JobState
unfolding fail_timed_out_tasks report_zombies update_paused_dags
run_event x trigger_timeouts s = fail_timed_out_tasks x s
run_event x pool_metrics s = s
run_event x TimedEvent.zombies s = report_zombies x s
run_event x paused_dags s = update_paused_dags x s

unfoldable pub run_timers : TurnSetting → List TimedEvent → JobState → JobState
unfolding run_event
run_timers x [] s = s
run_timers x (event ∷ events) s = run_timers x events (run_event x event s)

-- `next_event if next_event else 0`
abbrev pub or_zero : Option ℕ → ℕ
or_zero none = 0
or_zero (some n) = n

-- The nap at the end of a turn in which there was nothing to do.
unfoldable pub sleep_if_idle : TurnSetting → ℕ → ℕ → JobState → JobState
sleep_if_idle x num_queued_tis num_finished_events s =
    if not x.is_unit_test && nat_beq num_queued_tis 0 && nat_beq num_finished_events 0
    then record s { naps = s.naps ++ min x.scheduler_idle_sleep_time (or_zero x.due.1) ∷ [] }
    else s

-- The turn after the executor's events.
unfoldable pub after_events :
    TurnSetting → ℕ → JobState → Result EventError (ℕ × Processed) → Outcome
unfolding run_timers sleep_if_idle
after_events x num_queued_tis s (err e) = some (err (event_failure e))
after_events x num_queued_tis s (ok (n, p)) =
    let processed = record s {
      state = record s.state { db = record s.state.db { task_instances = p.tis } };
      killed = s.killed ++ p.callbacks;
    } in
    some (ok (sleep_if_idle x num_queued_tis n (run_timers x x.due.0 processed)))

-- The turn after `_do_scheduling`.
unfoldable pub after_scheduling :
    TurnSetting → JobState → Option (Result Failure (ℕ × State)) → Outcome
unfolding after_events process_executor_events
after_scheduling x s none = none
after_scheduling x s (some (err e)) = some (err (scheduling_failure e))
after_scheduling x s (some (ok (n, state))) =
    after_events x n (record s { state = state })
      (process_executor_events x.executor state.db.dag_models state.db.task_instances
        (x.get_event_buffer state))

-- The loop's body.
unfoldable pub turn : TurnSetting → JobState → Outcome
unfolding after_scheduling do_scheduling
turn x s = after_scheduling x s (do_scheduling x.setting s.state)

-- `loop_count >= self.num_runs > 0`
abbrev pub is_last : ℤ → ℕ → Bool
is_last num_runs loop_count = leb_ℤ num_runs (pos loop_count) && not (leb_ℤ num_runs (pos 0))

-- What follows a turn: an exception or the last turn ends the loop.
unfoldable pub next_turn : Bool → (JobState → Outcome) → Outcome → Outcome
next_turn last rest none = none
next_turn last rest (some (err e)) = some (err e)
next_turn last rest (some (ok s)) = if last then some (ok s) else rest s

-- `for loop_count in itertools.count(start=1)`, from a count on. `none` means that fuel ran out.
unfoldable pub loop_from : (ℕ → TurnSetting) → ℤ → ℕ → ℕ → JobState → Outcome
unfolding turn next_turn
loop_from x num_runs zero loop_count s = none
loop_from x num_runs (suc fuel) loop_count s =
    next_turn (is_last num_runs loop_count) (loop_from x num_runs fuel (suc loop_count))
      (turn (x loop_count) s)

-- `_run_scheduler_loop`, with the settings of each turn.
unfoldable pub run_scheduler_loop : (ℕ → TurnSetting) → ℤ → ℕ → JobState → Outcome
unfolding loop_from
run_scheduler_loop x num_runs fuel s = loop_from x num_runs fuel 1 s

-- The job of the handler, for the records of the event: it does not sleep when it is idle.
abbrev pub without_sleep : (ℕ → TurnSetting) → ℕ → TurnSetting
without_sleep x loop_count = record (x loop_count) { scheduler_idle_sleep_time = 0 }

unfoldable pub handler {ℓ} :
    {Record : Type ℓ} → (ℕ → TurnSetting) → List Record → ℕ → JobState → Outcome
unfolding run_scheduler_loop
handler x records fuel s = run_scheduler_loop (without_sleep x) (pos (length records)) fuel s
