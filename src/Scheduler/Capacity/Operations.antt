-- ===== src/Scheduler/Capacity/Operations.antt =====
-- The operations of lambdas/scheduler/scheduler_job.py (under src/python/beeflow) that write task
-- instances outside the critical section: `check_trigger_timeouts`, the timeout of a run in
-- `_schedule_dag_run`, and `_process_executor_events`.
use beeflow.Prelude.{
  ℕ, ◌≡◌, refl, sym, ap, ◌∙◌, Bool, true, false, Option, none, some, List, [], ◌∷◌, map, string_eq,
  nat_eq, arith, inl, inr, Bool-cases,
}
use mathlib.Core.Path.{subst}
use beeflow.Prelude.Int.{int_eq}
use beeflow.Prelude.Result.{ok, ok_inj, Result-cases, >>=-eq-ok}
use beeflow.Scheduler.Tables.{TaskInstance, TaskState, DagRun, DagModel, is_queued}
use beeflow.Scheduler.Query.{find_dag_model}
use beeflow.Scheduler.CriticalSection.{is_nil}
use beeflow.Scheduler.Upkeep.{is_timed_out, fail_timed_out, check_trigger_timeouts}
use beeflow.Scheduler.Decisions
use beeflow.Scheduler.Decisions.{is_unfinished_of, skip_unfinished}
use beeflow.Scheduler.ExecutorEvents.{
  Report, EventBuffer, ExecutorWorld, Handling, send_request, fail_killed, respond, was_killed,
  Processed, is_examined, tis_with_right_state, handle_row, visit, handle_rows,
  process_executor_events, found, pop, key_of, try_number_of,
}
use beeflow.Scheduler.Capacity.{job_of, is_executing, Evolves, done, change}
use beeflow.Scheduler.Capacity.Evolution.{Evolves-refl}

-- The rows stay in their places, keep what they are, and do not begin to execute.
pub record Advances (xs ys : List TaskInstance) : Type 0 where
  pub evolves : Evolves xs ys
  pub same_jobs : map job_of ys ≡ map job_of xs

pub Advances-refl : (tis : List TaskInstance) → Advances tis tis
Advances-refl tis = record { evolves = Evolves-refl tis; same_jobs = refl }

-- One row of an operation that advances.
record Moves (x y : TaskInstance) : Type 0 where
  same_job : job_of y ≡ job_of x
  stays : is_executing y.state ≡ true → is_executing x.state ≡ true

Moves-refl : (ti : TaskInstance) → Moves ti ti
Moves-refl ti = record { same_job = refl; stays = λ h. h }

Advances-cons :
    (x y : TaskInstance) (xs ys : List TaskInstance)
    → Moves x y
    → Advances xs ys
    → Advances (x ∷ xs) (y ∷ ys)
Advances-cons x y xs ys m a = record {
  evolves = change (λ h. (m.stays h, m.same_job)) a.evolves;
  same_jobs = ap (λ j. j ∷ map job_of ys) m.same_job ∙ ap (λ js. job_of x ∷ js) a.same_jobs;
}

-- A task instance whose trigger times out is scheduled again, and does not execute.
pub check_trigger_timeouts-Advances :
    (now : ℕ) (tis : List TaskInstance) → Advances tis (check_trigger_timeouts now tis).1
unfolding check_trigger_timeouts fail_timed_out
check_trigger_timeouts-Advances now [] = record { evolves = done; same_jobs = refl }
check_trigger_timeouts-Advances now (ti ∷ tis) =
    Advances-cons ti (fail_timed_out now ti) _ _
      (elim (Bool-cases (is_timed_out now ti)) [
        | inl late ↦ rw late (record { same_job = refl; stays = λ h. cc })
        | inr other ↦ rw other (Moves-refl ti)
      ])
      (check_trigger_timeouts-Advances now tis)

-- The task instances of a run that times out are skipped.
pub skip_unfinished-Advances :
    (a : Decisions.Airflow) (run : DagRun) (tis : List TaskInstance)
    → Advances tis (skip_unfinished a run tis)
unfolding skip_unfinished
skip_unfinished-Advances a run [] = record { evolves = done; same_jobs = refl }
skip_unfinished-Advances a run (ti ∷ tis) =
    Advances-cons ti _ _ _
      (elim (Bool-cases (is_unfinished_of a run ti)) [
        | inl unfinished ↦ rw unfinished (record { same_job = refl; stays = λ h. cc })
        | inr other ↦ rw other (Moves-refl ti)
      ])
      (skip_unfinished-Advances a run tis)

queued-executes : (s : Option TaskState) → is_queued s ≡ true → is_executing s ≡ true
queued-executes none h = cc
queued-executes (some s) h = ground arith

module _ (x : ExecutorWorld)
    (keeps : (r : Report) (ti : TaskInstance) → job_of (x.handle_failure r ti) ≡ job_of ti)
    (models : List DagModel) where
  send_request-same :
      (r : Report) (ti : TaskInstance) (model : Option DagModel) (h : Handling)
      → send_request r ti model ≡ ok h
      → h.0 ≡ ti
  unfolding send_request
  send_request-same r ti none h e = cc
  send_request-same r ti (some model) h e = sym (ap (λ p. p.0) (ok_inj e))

  fail_killed-same_job :
      (r : Report) (ti : TaskInstance) (task : Option Bool) (h : Handling)
      → fail_killed x models r ti task ≡ ok h
      → job_of h.0 ≡ job_of ti
  unfolding fail_killed
  fail_killed-same_job r ti none h e = sym (ap (λ p. job_of p.0) (ok_inj e))
  fail_killed-same_job r ti (some true) h e =
      ap job_of (send_request-same r ti (find_dag_model models ti.dag_id) h e)
  fail_killed-same_job r ti (some false) h e = sym (ap (λ p. job_of p.0) (ok_inj e)) ∙ keeps r ti

  -- Only a queued task instance is failed, so whatever becomes of it was executing before.
  respond-Moves :
      (ti : TaskInstance) (n : ℕ) (r : Report) (h : Handling)
      → respond x models ti n r ≡ ok h
      → Moves ti h.0
  unfolding respond
  respond-Moves ti n r h e = elim (Bool-cases (is_queued (some r.state))) [
    | inl queued ↦
        let same = sym (ap (λ p. p.0) (ok_inj (rw queued at e))) in
        record {
          same_job = ap job_of same;
          stays = λ t. sym (ap (λ (y : TaskInstance). is_executing y.state) same) ∙ t;
        }
    | inr other ↦ elim (Bool-cases (was_killed x ti n)) [
      | inl killed ↦ record {
        same_job =
            fail_killed-same_job r ti (x.get_task ti.dag_id ti.task_id) h (rw (other, killed) at e);
        stays = λ t. queued-executes ti.state (ground (arith, killed));
      }
      | inr alive ↦
          let same : ti ≡ h.0 = ap (λ p. p.0) (ok_inj (rw (other, alive) at e)) in
          rw (sym same) (Moves-refl ti)
    ]
  ]

  handle_row-Moves :
      (reported : EventBuffer) (ti : TaskInstance) (buffer : EventBuffer) (h : Handling)
      (rest : EventBuffer)
      → handle_row x models reported ti buffer ≡ ok (h, rest)
      → Moves ti h.0
  unfolding handle_row
  handle_row-Moves reported ti buffer h rest e =
      elim (Result-cases (found (try_number_of (key_of ti 0) reported))) [
        | inr (raised, missing) ↦ cc (rw missing at e)
        | inl (n, tried) ↦ elim (Result-cases (found (pop (key_of ti n) buffer))) [
          | inr (raised, missing) ↦ cc (rw (tried, missing) at e)
          | inl ((r, left), popped) ↦ elim (Result-cases (respond x models ti n r)) [
            | inr (raised, failed) ↦ cc (rw (tried, popped, failed) at e)
            | inl (handled, responded) ↦
                let same : (handled, left) ≡ (h, rest) =
                  ok_inj (rw (tried, popped, responded) at e) in
                respond-Moves ti n r h (responded ∙ ap (λ q. ok q.0) same)
          ]
        ]
      ]

  handle_rows-Advances :
      (reported : EventBuffer) (tis : List TaskInstance) (buffer : EventBuffer) (p : Processed)
      → handle_rows x models reported tis buffer ≡ ok p
      → Advances tis p.tis
  unfolding handle_rows visit
  handle_rows-Advances reported [] buffer p e =
      subst (Advances []) (ap (λ (q : Processed). q.tis) (ok_inj e)) (Advances-refl [])
  handle_rows-Advances reported (ti ∷ tis) buffer p e =
      elim (Bool-cases (is_examined x (tis_with_right_state reported) ti)) [
        | inl examined ↦
            let ((h, rest), handled, e) = >>=-eq-ok _ _ (rw examined at e) in
            let (later, ran, e) = >>=-eq-ok _ _ e in
            subst (Advances (ti ∷ tis)) (ap (λ (q : Processed). q.tis) (ok_inj e)) (
              Advances-cons ti h.0 tis later.tis
                (handle_row-Moves reported ti buffer h rest handled)
                (handle_rows-Advances reported tis rest later ran))
        | inr skipped ↦
            let (later, ran, e) = >>=-eq-ok _ _ (rw skipped at e) in
            subst (Advances (ti ∷ tis)) (ap (λ (q : Processed). q.tis) (ok_inj e)) (
              Advances-cons ti ti tis later.tis (Moves-refl ti)
                (handle_rows-Advances reported tis buffer later ran))
      ]

  -- The executor's events start nothing.
  pub process_executor_events-Advances :
      (tis : List TaskInstance) (buffer : EventBuffer) (n : ℕ) (p : Processed)
      → process_executor_events x models tis buffer ≡ ok (n, p)
      → Advances tis p.tis
  unfolding process_executor_events
  process_executor_events-Advances tis buffer n p e =
      elim (Bool-cases (is_nil (tis_with_right_state buffer))) [
        | inl nothing ↦
            subst (Advances tis) (ap (λ (q : ℕ × Processed). q.1.tis) (ok_inj (rw nothing at e)))
              (Advances-refl tis)
        | inr something ↦
            let (later, ran, e) = >>=-eq-ok _ _ (rw something at e) in
            subst (Advances tis) (ap (λ (q : ℕ × Processed). q.1.tis) (ok_inj e))
              (handle_rows-Advances buffer tis buffer later ran)
      ]
