-- ===== src/Scheduler/Runs/Start.antt =====
-- How many queued runs Scheduler/Runs starts.
use beeflow.Prelude.{
  ℕ, ◌+◌, ◌-◌, ◌≡◌, ◌≢◌, ◌∙◌, refl, ap, min, true, false, ◌&&◌, Option, none, some, List, [], ◌∷◌,
  String, if◌then◌else◌, ◌==◌, string_eq, nat_eq, update, count, All, arith, inl, inr, Bool-cases,
}
use text.Mathlib.TextEquality.{eq_iff}
use beeflow.Scheduler.Tables.{DagRun, Dag, RunState, is_queued_run, is_running_run}
use beeflow.Scheduler.Runs.{Airflow, is_full, start_run, start_runs, start_queued_dagruns}

abbrev pub started : String → List DagRun → ℕ
started dag_id runs = count (λ run. run.dag_id == dag_id && is_running_run run.state) runs

abbrev pub examined : String → List DagRun → ℕ
examined dag_id runs = count (λ run. run.dag_id == dag_id) runs

queued-not_running : (state : RunState) → is_queued_run state ≡ true → is_running_run state ≡ false
queued-not_running RunState.queued h = refl
queued-not_running RunState.running h = cc
queued-not_running RunState.success h = refl
queued-not_running RunState.failed h = refl

-- How many of the DAG the run counts for, once it has been examined.
abbrev one : String → DagRun → ℕ
one dag_id run = if run.dag_id == dag_id && is_running_run run.state then 1 else 0

start_run-own :
    (a : Airflow) (run : DagRun) (active : String → ℕ) (dag_id : String) (dag : Dag)
    → is_queued_run run.state ≡ true
    → run.dag_id ≡ dag_id
    → (one dag_id (start_run a (some dag) run active).0
        ≡ (if is_full dag (active dag_id) then 0 else 1))
      × ((start_run a (some dag) run active).1 dag_id
          ≡ (if is_full dag (active dag_id) then active dag_id else active dag_id + 1))
unfolding start_run update
start_run-own a run active dag_id dag waits path =
    let same = (eq_iff run.dag_id dag_id).1 path in
    elim (Bool-cases (is_full dag (active dag_id))) [
      | inl full ↦ rw (path, full, queued-not_running run.state waits) (ground arith)
      | inr room ↦ rw (path, room) (ground (arith, eq_iff dag_id dag_id))
    ]

start_run-other :
    (a : Airflow) (found : Option Dag) (run : DagRun) (active : String → ℕ) (dag_id : String)
    → (run.dag_id == dag_id) ≡ false
    → (one dag_id (start_run a found run active).0 ≡ 0)
      × ((start_run a found run active).1 dag_id ≡ active dag_id)
unfolding start_run update
start_run-other a none run active dag_id other = ground arith
start_run-other a (some dag) run active dag_id other = ground arith

start_runs-started :
    (a : Airflow) (runs : List DagRun) (active : String → ℕ) (dag_id : String) (dag : Dag)
    → All (λ run. is_queued_run run.state ≡ true) runs
    → a.get_dag dag_id ≡ some dag
    → dag.max_active_runs ≢ 0
    → started dag_id (start_runs a runs active)
      ≡ min (examined dag_id runs) (dag.max_active_runs - active dag_id)
unfolding start_runs
start_runs-started a [] active dag_id dag queued found limited = omega arith
start_runs-started a (run ∷ runs) active dag_id dag queued found limited =
    elim (Bool-cases (run.dag_id == dag_id)) [
      | inl same ↦
          let path = (eq_iff run.dag_id dag_id).0 same in
          let own = start_run-own a run active dag_id dag queued.0 path in
          let rest =
            start_runs-started a runs (start_run a (some dag) run active).1 dag_id dag queued.1
              found limited in
          rw (ap a.get_dag path ∙ found) (ground (arith, own, rest))
      | inr other ↦
          let own = start_run-other a (a.get_dag run.dag_id) run active dag_id other in
          let rest =
            start_runs-started a runs (start_run a (a.get_dag run.dag_id) run active).1 dag_id dag
              queued.1 found limited in
          ground (arith, own, rest)
    ]

-- `_start_queued_dagruns` starts as many runs of a DAG as there are among the queued runs that it
-- examines, but no more than leave its running runs at max_active_runs, where that is not 0.
pub start_queued_dagruns-started :
    (a : Airflow) (runs : List DagRun) (dag_id : String) (dag : Dag)
    → All (λ run. is_queued_run run.state ≡ true) runs
    → a.get_dag dag_id ≡ some dag
    → dag.max_active_runs ≢ 0
    → started dag_id (start_queued_dagruns a runs)
      ≡ min (examined dag_id runs) (dag.max_active_runs - a.running_runs_of_dags runs dag_id)
unfolding start_queued_dagruns
start_queued_dagruns-started a runs dag_id dag queued found limited =
    start_runs-started a runs (a.running_runs_of_dags runs) dag_id dag queued found limited
