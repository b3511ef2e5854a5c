-- ===== src/Scheduler/Capacity/Turns.antt =====
-- A turn of the scheduler's loop (lambdas/scheduler/scheduler_job.py, under src/python/beeflow) as
-- transactions of Scheduler/Capacity/Steps.
use beeflow.Prelude.{
  ℕ, Bool, true, false, String, contains, string_eq, ◌≡◌, refl, sym, ap, ◌∙◌, Option, none, some,
  List, [], ◌∷◌, not, ◌&&◌, nat_beq, inl, inr, Bool-cases, Option-cases, some_inj,
}
use mathlib.Core.Path.{subst}
use beeflow.Prelude.Result.{Result, ok, err, ok_inj, Result-cases}
use beeflow.Scheduler.Tables.{TaskInstance, DagRun, DagModel, Dag, Database}
use beeflow.Scheduler.Callbacks.{
  Callbacks, Callback, CallbackError, Paused, PausedUpdate, PausedState, PausedRuns, is_live,
  send_if, update_if, after_send, update_runs, mark_paused, update_dags,
}
use beeflow.Scheduler.World.{Error}
use beeflow.Scheduler.Enqueue.{critical_section_enqueue_task_instances}
use beeflow.Scheduler.ExecutorEvents.{Report, EventBuffer, process_executor_events}
use beeflow.Scheduler.ExecutorEvents.Handled.{IsKeyed}
use beeflow.Scheduler.Scheduling.{
  Setting, State, before_critical, after_critical, critical, then_critical, do_scheduling,
}
use beeflow.Scheduler.Loop.{
  TurnSetting, JobState, TimedEvent, trigger_timeouts, pool_metrics, paused_dags,
  fail_timed_out_tasks, report_zombies, update_paused_dags, run_event, run_timers, sleep_if_idle,
  after_events, after_scheduling, turn,
}
use beeflow.Scheduler.Capacity.{job_of}
use beeflow.Scheduler.Capacity.Operations.{
  check_trigger_timeouts-Advances, process_executor_events-Advances,
}
use beeflow.Scheduler.Capacity.Limits.{Limits, IsFaithful}
use beeflow.Scheduler.Capacity.Steps.{
  queue, evolve, replace, Reach, start, later, Reach-trans, Reach-IsKeyed,
}
use beeflow.Scheduler.Capacity.Scheduling.{
  Tame, Tame-refl, Tame-trans, Advances-Tame, IsTame, before_critical-Tame,
}

-- What a turn is told and what Airflow does in it: the critical section is told the limits and what
-- executes, the decisions start nothing, and a task instance keeps what it is when it fails.
pub record IsTrusted (l : Limits) (x : TurnSetting) (s : JobState) : Type 0 where
  pub faithful :
      (committed : State)
      → before_critical x.setting s.state ≡ ok committed
      → IsFaithful l x.setting.world committed.db
  pub tame : IsTame x.setting.decisions
  pub keeps : (r : Report) (ti : TaskInstance) → job_of (x.executor.handle_failure r ti) ≡ job_of ti
  pub paused_tame :
      (dag : Dag) (run : DagRun) (tis : List TaskInstance)
      → Tame tis (x.paused.update_state dag run tis).task_instances

-- The check of the paused DAGs starts nothing either.
module _ (k : Callbacks) (p : Paused)
    (tame : (dag : Dag) (run : DagRun) (tis : List TaskInstance)
      → Tame tis (p.update_state dag run tis).task_instances)
    (models : List DagModel) where
  update_if-Tame :
      (dag : Dag) (live : Bool) (run : DagRun) (tis : List TaskInstance)
      → Tame tis (update_if p dag live run tis).task_instances
  unfolding update_if
  update_if-Tame dag true run tis = tame dag run tis
  update_if-Tame dag false run tis = Tame-refl tis

  after_send-Tame :
      (tis : List TaskInstance) (u : PausedUpdate) (runs : List DagRun)
      (r : Result CallbackError (List Callback)) (rest : PausedRuns)
      → Tame tis u.task_instances
      → Tame u.task_instances rest.task_instances
      → Tame tis (after_send u runs r rest).task_instances
  unfolding after_send
  after_send-Tame tis u runs (err e) rest first second = first
  after_send-Tame tis u runs (ok callbacks) rest first second = Tame-trans tis _ _ first second

  update_runs-Tame :
      (dag : Dag) (dag_id : String) (runs : List DagRun) (tis : List TaskInstance)
      → Tame tis (update_runs k p models dag dag_id runs tis).task_instances
  unfolding update_runs
  update_runs-Tame dag dag_id [] tis = Tame-refl tis
  update_runs-Tame dag dag_id (run ∷ runs) tis =
      let u = update_if p dag (is_live dag_id run) run tis in
      after_send-Tame tis u runs (send_if k models dag u.callback) _
        (update_if-Tame dag (is_live dag_id run) run tis)
        (update_runs-Tame dag dag_id runs u.task_instances)

  update_dags-Tame :
      (dag_ids : List String) (s : PausedState)
      → Tame s.task_instances (update_dags k p models dag_ids s).task_instances
  unfolding update_dags mark_paused
  update_dags-Tame [] s = Tame-refl s.task_instances
  update_dags-Tame (dag_id ∷ dag_ids) s = elim (Bool-cases (contains dag_id s.without_running)) [
    | inl known ↦ rw known (update_dags-Tame dag_ids s)
    | inr fresh ↦ elim (Option-cases (p.get_dag dag_id)) [
      | inl missing ↦ rw (fresh, missing) (update_dags-Tame dag_ids s)
      | inr (dag, found) ↦
          let after = update_runs k p models dag dag_id s.dag_runs s.task_instances in
          let first = update_runs-Tame dag dag_id s.dag_runs s.task_instances in
          elim (Bool-cases after.raised) [
            | inl raised ↦ rw (fresh, found, raised) first
            | inr passed ↦
                rw (fresh, found, passed)
                  (Tame-trans s.task_instances after.task_instances _ first
                    (update_dags-Tame dag_ids _))
          ]
    ]
  ]

module _ (l : Limits) where
  -- Databases that differ in what a tame change may differ in.
  Tame-Reach :
      (db after : Database)
      → IsKeyed db.task_instances
      → Tame db.task_instances after.task_instances
      → Reach l db after
  Tame-Reach db after keyed t =
      later (later start (evolve t.evolves (t.keyed keyed)))
        (replace after.dag_runs after.dag_models)

  after_critical-Reach :
      (x : Setting) (s : State) (n : ℕ) (after : State) (r : Option (Result Error (ℕ × Database)))
      → IsFaithful l x.world s.db
      → critical_section_enqueue_task_instances x.world x.max_tis_per_query x.slots_available s.db
        ≡ r
      → after_critical x s r ≡ some (ok (n, after))
      → Reach l s.db after.db
  unfolding after_critical
  after_critical-Reach x s n after none faithful ran e = cc
  after_critical-Reach x s n after (some (ok (k, db))) faithful ran e =
      let left : db ≡ after.db = ap (λ p. p.1.db) (ok_inj (some_inj e)) in
      subst (Reach l s.db) left
        (later start (queue x.world x.max_tis_per_query x.slots_available k faithful ran))
  after_critical-Reach x s n after (some (err raised)) faithful ran e =
      elim (Bool-cases (x.is_lock_not_available_error raised)) [
        | inl busy ↦
            let left : s.db ≡ after.db = ap (λ p. p.1.db) (ok_inj (some_inj (rw busy at e))) in
            subst (Reach l s.db) left start
        | inr other ↦ cc (rw other at e)
      ]

  critical-Reach :
      (x : Setting) (s : State) (n : ℕ) (after : State)
      → IsFaithful l x.world s.db
      → critical x s ≡ some (ok (n, after))
      → Reach l s.db after.db
  unfolding critical
  critical-Reach x s n after faithful e = elim (Bool-cases (nat_beq x.slots_available 0)) [
    | inl full ↦
        let left : s.db ≡ after.db = ap (λ p. p.1.db) (ok_inj (some_inj (rw full at e))) in
        subst (Reach l s.db) left start
    | inr room ↦ after_critical-Reach x s n after _ faithful refl (rw room at e)
  ]

  -- The keys stay apart through a call of `_do_scheduling`, and what it leaves is reached.
  do_scheduling-Reach :
      (x : Setting) (s : State) (n : ℕ) (after : State)
      → IsTame x.decisions
      → ((committed : State)
          → before_critical x s ≡ ok committed
          → IsFaithful l x.world committed.db)
      → IsKeyed s.db.task_instances
      → do_scheduling x s ≡ some (ok (n, after))
      → Reach l s.db after.db
  unfolding do_scheduling then_critical
  do_scheduling-Reach x s n after tame faithful keyed e =
      elim (Result-cases (before_critical x s)) [
        | inr (raised, failed) ↦ cc (rw failed at e)
        | inl (committed, returned) ↦
            Reach-trans
              (Tame-Reach s.db committed.db keyed
                (before_critical-Tame x tame s committed returned))
              (critical-Reach x committed n after (faithful committed returned) (rw returned at e))
      ]

  fail_timed_out_tasks-Tame :
      (x : TurnSetting) (s : JobState)
      → Tame s.state.db.task_instances (fail_timed_out_tasks x s).state.db.task_instances
  unfolding fail_timed_out_tasks
  fail_timed_out_tasks-Tame x s =
      Advances-Tame s.state.db.task_instances _
        (check_trigger_timeouts-Advances x.now s.state.db.task_instances)

  update_paused_dags-Tame :
      (x : TurnSetting) (s : JobState)
      → ((dag : Dag) (run : DagRun) (tis : List TaskInstance)
          → Tame tis (x.paused.update_state dag run tis).task_instances)
      → Tame s.state.db.task_instances (update_paused_dags x s).state.db.task_instances
  unfolding update_paused_dags beeflow.Scheduler.Callbacks.update_dag_run_state_for_paused_dags
  update_paused_dags-Tame x s paused =
      update_dags-Tame x.setting.callbacks x.paused paused s.state.db.dag_models
        (x.paused_dag_ids s.state)
        (record {
          dag_runs = s.state.db.dag_runs;
          task_instances = s.state.db.task_instances;
          sent = s.state.sent;
          without_running = s.without_running;
        })

  run_event-Tame :
      (x : TurnSetting)
      → ((dag : Dag) (run : DagRun) (tis : List TaskInstance)
          → Tame tis (x.paused.update_state dag run tis).task_instances)
      → (event : TimedEvent) (s : JobState)
      → Tame s.state.db.task_instances (run_event x event s).state.db.task_instances
  unfolding run_event report_zombies
  run_event-Tame x paused trigger_timeouts s = fail_timed_out_tasks-Tame x s
  run_event-Tame x paused pool_metrics s = Tame-refl s.state.db.task_instances
  run_event-Tame x paused TimedEvent.zombies s = Tame-refl s.state.db.task_instances
  run_event-Tame x paused paused_dags s = update_paused_dags-Tame x s paused

  run_timers-Tame :
      (x : TurnSetting)
      → ((dag : Dag) (run : DagRun) (tis : List TaskInstance)
          → Tame tis (x.paused.update_state dag run tis).task_instances)
      → (events : List TimedEvent) (s : JobState)
      → Tame s.state.db.task_instances (run_timers x events s).state.db.task_instances
  unfolding run_timers
  run_timers-Tame x paused [] s = Tame-refl s.state.db.task_instances
  run_timers-Tame x paused (event ∷ events) s =
      Tame-trans s.state.db.task_instances _ _ (run_event-Tame x paused event s)
        (run_timers-Tame x paused events (run_event x event s))

  sleep_if_idle-db :
      (x : TurnSetting) (n finished : ℕ) (s : JobState)
      → (sleep_if_idle x n finished s).state ≡ s.state
  unfolding sleep_if_idle
  sleep_if_idle-db x n finished s =
      elim (Bool-cases (not x.is_unit_test && nat_beq n 0 && nat_beq finished 0)) [
        | inl idle ↦ rw idle refl
        | inr busy ↦ rw busy refl
      ]

  -- What comes after the scheduling: the executor's events, and the timers.
  after_events-Tame :
      (x : TurnSetting) (n : ℕ) (s after : JobState) (buffer : EventBuffer)
      → ((r : Report) (ti : TaskInstance) → job_of (x.executor.handle_failure r ti) ≡ job_of ti)
      → ((dag : Dag) (run : DagRun) (tis : List TaskInstance)
          → Tame tis (x.paused.update_state dag run tis).task_instances)
      → after_events x n s (
          process_executor_events x.executor s.state.db.dag_models s.state.db.task_instances buffer)
        ≡ some (ok after)
      → Tame s.state.db.task_instances after.state.db.task_instances
  unfolding after_events
  after_events-Tame x n s after buffer keeps paused e =
      let tis = s.state.db.task_instances in
      let models = s.state.db.dag_models in
      elim (Result-cases (process_executor_events x.executor models tis buffer)) [
        | inr (raised, failed) ↦ cc (rw failed at e)
        | inl ((m, p), returned) ↦
            let advanced =
              process_executor_events-Advances x.executor keeps models tis buffer m p returned in
            let last = ok_inj (some_inj (rw returned at e)) in
            let table = λ (t : JobState). t.state.db.task_instances in
            subst (Tame tis)
              (sym (ap (λ (t : State). t.db.task_instances) (sleep_if_idle-db x n m _))
                ∙ ap table last)
              (Tame-trans tis p.tis _ (Advances-Tame tis p.tis advanced)
                (run_timers-Tame x paused x.due.0 _))
      ]

  -- A turn of the loop that returns is a sequence of transactions: the critical section is one of them,
  -- and in what the turn writes outside it, a row that executes afterwards has executed before, with the
  -- same key, pool and slots. The rows have keys of their own; the critical section is told the limits
  -- and what executes; what Airflow does to the task instances in the decisions on runs and in
  -- `update_state` for paused DAGs keeps the keys of the rows apart, starts none, and leaves those that
  -- go on executing their key, pool and slots; and one that fails keeps its key, pool and slots.
  pub turn-Reach :
      (x : TurnSetting) (s after : JobState)
      → IsTrusted l x s
      → IsKeyed s.state.db.task_instances
      → turn x s ≡ some (ok after)
      → Reach l s.state.db after.state.db
  unfolding turn after_scheduling
  turn-Reach x s after trusted keyed e = elim (Option-cases (do_scheduling x.setting s.state)) [
    | inl out_of_fuel ↦ cc (rw out_of_fuel at e)
    | inr (r, some_result) ↦ elim (Result-cases r) [
      | inr (raised, failed) ↦ cc (rw (some_result, failed) at e)
      | inl ((n, state), returned) ↦
          let scheduled =
            do_scheduling-Reach x.setting s.state n state trusted.tame trusted.faithful keyed
              (some_result ∙ ap some returned) in
          Reach-trans scheduled (
            Tame-Reach state.db after.state.db (Reach-IsKeyed scheduled keyed) (
              after_events-Tame x n (record s { state = state }) after (x.get_event_buffer state)
                trusted.keeps trusted.paused_tame (rw (some_result, returned) at e)))
    ]
  ]
