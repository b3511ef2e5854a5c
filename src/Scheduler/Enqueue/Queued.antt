-- ===== src/Scheduler/Enqueue/Queued.antt =====
-- What Scheduler/Enqueue does to the task instances that were queued.
use beeflow.Prelude.{
  ℕ, ◌≡◌, ◌≤◌, refl, sym, ap, ◌∙◌, true, false, ◌&&◌, some, List, [], ◌∷◌, if◌then◌else◌, ◌==◌,
  string_eq, length, All, arith, inl, inr, Bool-cases, Option-cases, some_inj,
}
use text.Mathlib.TextEquality.{eq_iff}
use beeflow.Prelude.Int.{int_eq}
use beeflow.Prelude.Result.{ok, ok_inj, Result-cases}
use beeflow.Scheduler.Tables.{
  TaskInstance, DagRun, DagModel, Database, RunState, same_key, is_running_run,
}
use beeflow.Scheduler.Query.{find_dag_run, runnable}
use beeflow.Scheduler.World.{World}
use beeflow.Scheduler.CriticalSection.{Outcome, is_among, executable_task_instances_to_queued}
use beeflow.Scheduler.CriticalSection.Bounds.{length-chosen-le}
use beeflow.Scheduler.CriticalSection.Effect.{IsEligible, chosen-IsEligible, db-Settles}
use beeflow.Scheduler.Decisions.{is_finished_run}
use beeflow.Scheduler.Enqueue.{
  has_finished_run, enqueue_task_instances_with_queued_state, enqueued, after_selection, max_tis,
  critical_section_enqueue_task_instances,
}

-- The run of a row is looked up by two columns of its key.
find_dag_run-same :
    (runs : List DagRun) (a b : TaskInstance)
    → same_key a b ≡ true
    → find_dag_run runs a ≡ find_dag_run runs b
unfolding find_dag_run
find_dag_run-same [] a b h = refl
find_dag_run-same (r ∷ runs) a b h =
    let dags : a.dag_id ≡ b.dag_id = (eq_iff a.dag_id b.dag_id).0 (ground (arith, h)) in
    let ids : a.run_id ≡ b.run_id = (eq_iff a.run_id b.run_id).0 (ground (arith, h)) in
    ap (λ d. if r.dag_id == d && r.run_id == a.run_id then some r else find_dag_run runs a) dags
    ∙ ap (λ i. if r.dag_id == b.dag_id && r.run_id == i then some r else find_dag_run runs a) ids
    ∙ ap (λ rest. if r.dag_id == b.dag_id && r.run_id == b.run_id then some r else rest)
        (find_dag_run-same runs a b h)

running-not_finished :
    (state : RunState) → is_running_run state ≡ true → is_finished_run state ≡ false
running-not_finished RunState.queued h = refl
running-not_finished RunState.running h = refl
running-not_finished RunState.success h = cc
running-not_finished RunState.failed h = cc

runnable-running :
    (run : DagRun) (model : DagModel) (ti : TaskInstance)
    → runnable run model ti ≡ true
    → is_running_run run.state ≡ true
runnable-running run model ti h = ground arith

module _ (w : World) (db : Database) where
  among_runs :
      (chosen : List TaskInstance) (ti : TaskInstance)
      → All (IsEligible w db) chosen
      → is_among chosen ti ≡ true
      → has_finished_run (find_dag_run db.dag_runs ti) ≡ false
  unfolding is_among
  among_runs [] ti eligible h = cc
  among_runs (c ∷ chosen) ti eligible h = elim (Bool-cases (same_key c ti)) [
    | inl same ↦
        let found = sym (find_dag_run-same db.dag_runs c ti same) ∙ eligible.0.found_run in
        ap has_finished_run found
        ∙ running-not_finished eligible.0.run.state
            (runnable-running eligible.0.run eligible.0.model c eligible.0.holds)
    | inr other ↦ among_runs chosen ti eligible.1 (ground (arith, other, h))
  ]

  none_reset :
      (chosen tis : List TaskInstance)
      → All (IsEligible w db) chosen
      → enqueue_task_instances_with_queued_state db.dag_runs chosen tis ≡ tis
  unfolding enqueue_task_instances_with_queued_state
  none_reset chosen [] eligible = refl
  none_reset chosen (ti ∷ tis) eligible = elim (Bool-cases (is_among chosen ti)) [
    | inl chosen_one ↦
        rw (chosen_one, among_runs chosen ti eligible chosen_one, none_reset chosen tis eligible)
          refl
    | inr other ↦ rw (other, none_reset chosen tis eligible) refl
  ]

enqueued_lem :
    (w : World) (db : Database) (out : Outcome)
    → All (IsEligible w db) out.chosen
    → out.db.dag_runs ≡ db.dag_runs
    → enqueued out ≡ out.db
unfolding enqueued
enqueued_lem w db out eligible kept =
    ap (λ tis. record out.db { task_instances = tis })
      (ap (λ runs. enqueue_task_instances_with_queued_state runs out.chosen out.db.task_instances)
          kept
        ∙ none_reset w db out.chosen out.db.task_instances eligible)

max_tis-le : (q slots : ℕ) → max_tis q slots ≤ slots
max_tis-le q slots = ground arith

-- What the critical section leaves is what the selection left: no task instance that it queued is in
-- a run that has finished, so none is reset. It returns how many were queued, at most as many as the
-- executor has slots.
pub critical_section_enqueue_task_instances_lem :
    (w : World) (q slots : ℕ) (db : Database) (n : ℕ) (after : Database)
    → critical_section_enqueue_task_instances w q slots db ≡ some (ok (n, after))
    → (out : Outcome) × (executable_task_instances_to_queued w (max_tis q slots) db ≡ some (ok out))
      × (after ≡ out.db)
      × (n ≡ length out.chosen)
      × (n ≤ slots)
unfolding critical_section_enqueue_task_instances after_selection enqueued
critical_section_enqueue_task_instances_lem w q slots db n after h =
    elim (Option-cases (executable_task_instances_to_queued w (max_tis q slots) db)) [
      | inl nothing ↦ cc (rw nothing at h)
      | inr (r, some_result) ↦ elim (Result-cases r) [
        | inr (e, raised) ↦ cc (rw (some_result, raised) at h)
        | inl (out, returned) ↦
            let ran : executable_task_instances_to_queued w (max_tis q slots) db ≡ some (ok out) =
              some_result ∙ ap some returned in
            let same = ok_inj (some_inj (rw ran at h)) in
            let eligible = chosen-IsEligible w (max_tis q slots) db out ran in
            let kept = (db-Settles w (max_tis q slots) db out ran).1 in
            let few = (length-chosen-le w (max_tis q slots) db out ran).0 in
            let n_is : n ≡ length out.chosen = sym (ap (λ p. p.0) same) in
            (
              out,
              ran,
              sym (ap (λ p. p.1) same) ∙ enqueued_lem w db out eligible kept,
              n_is,
              omega (arith, n_is, few, max_tis-le q slots),
            )
      ]
    ]
