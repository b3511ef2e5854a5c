-- ===== src/Scheduler/Runs/Datasets/Kept.antt =====
-- The loop of Scheduler/Runs/Datasets keeps the runs and their events consistent.
use beeflow.Prelude.{
  Option-cases, All, ℕ, ◌≡◌, refl, sym, ap, ◌∙◌, Bool, true, false, Option, none, some, List, [],
  ◌∷◌, String, leb, string_eq, nat_eq, lookup, arith, inl, inr, Bool-cases,
}
use beeflow.Prelude.Result.{Result, ok, ok_inj, >>=-eq-ok}
use beeflow.Scheduler.Tables.{DagModel, Dag, RunState, RunType}
use beeflow.Scheduler.Runs.{among}
use beeflow.Scheduler.Runs.Datasets.{
  DatasetEvent, Consumption, Datasets, Tables, DagInfo, DatasetError, exec_dates, existing_keys,
  is_selected, events_for, create_run, create_unless, create_at, create_for_model,
  create_for_models, create_dag_runs_dataset_triggered,
}
use beeflow.Scheduler.Runs.Datasets.Consumed.{
  MakesRuns, is_consistent, all-filter, has_run-made, is_consistent-append, all-is_apart,
}

module _ (d : Datasets) (makes : MakesRuns d) where
  create_run-is_consistent :
      (dag : Dag) (exec_date : ℕ) (s : Tables)
      → is_consistent s.dag_runs s.consumed ≡ true
      → is_consistent
          (create_run d dag exec_date s).dag_runs
          (create_run d dag exec_date s).consumed
        ≡ true
  unfolding create_run
  create_run-is_consistent dag exec_date s h =
      let events = events_for d dag.dag_id exec_date s.dag_runs in
      let hash = d.dags_hash dag.dag_id in
      let run =
        d.create_dagrun dag events RunType.dataset_triggered exec_date RunState.queued hash in
      let new : Consumption = record {
        dag_id = run.dag_id;
        execution_date = run.execution_date;
        events = events;
      } in
      let its_dag =
        makes.made_dag dag events RunType.dataset_triggered exec_date RunState.queued hash in
      let its_date =
        makes.made_date dag events RunType.dataset_triggered exec_date RunState.queued hash in
      let its_type =
        makes.made_type dag events RunType.dataset_triggered exec_date RunState.queued hash in
      let there = has_run-made run.dag_id run.execution_date s.dag_runs run refl refl its_type in
      let up_to =
        all-filter (is_selected d dag.dag_id exec_date s.dag_runs)
          (λ (e : DatasetEvent). leb e.timestamp run.execution_date)
          (λ e selected. ground (arith, selected, its_date)) d.dataset_events in
      let apart =
        all-is_apart d makes dag exec_date s.dag_runs s.consumed new h its_dag its_date refl in
      let rest = is_consistent-append s.dag_runs (run ∷ []) s.consumed h in
      rw (there, up_to, apart, rest) refl

  create_unless-is_consistent :
      (existing : List (String × ℕ)) (dag : Dag) (date : ℕ) (s : Tables)
      → is_consistent s.dag_runs s.consumed ≡ true
      → is_consistent
          (create_unless d existing dag date s).dag_runs
          (create_unless d existing dag date s).consumed
        ≡ true
  unfolding create_unless
  create_unless-is_consistent existing dag date s h =
      elim (Bool-cases (among dag.dag_id date existing)) [
        | inl t ↦ rw t h
        | inr f ↦ rw f (create_run-is_consistent dag date s h)
      ]

  returned-is_consistent :
      (s after : Tables)
      → is_consistent s.dag_runs s.consumed ≡ true
      → ◌≡◌ {A = Result DatasetError Tables} (ok s) (ok after)
      → is_consistent after.dag_runs after.consumed ≡ true
  returned-is_consistent s after h made =
      ap (λ (t : Tables). is_consistent t.dag_runs t.consumed) (sym (ok_inj made)) ∙ h

  create_at-is_consistent :
      (existing : List (String × ℕ)) (dag : Dag) (found : Option ℕ) (s after : Tables)
      → is_consistent s.dag_runs s.consumed ≡ true
      → create_at d existing dag found s ≡ ok after
      → is_consistent after.dag_runs after.consumed ≡ true
  unfolding create_at
  create_at-is_consistent existing dag none s after h made = cc
  create_at-is_consistent existing dag (some date) s after h made =
      returned-is_consistent (create_unless d existing dag date s) after
        (create_unless-is_consistent existing dag date s h) made

  create_for_model-is_consistent :
      (dates existing : List (String × ℕ)) (found : Option Dag) (s after : Tables)
      → is_consistent s.dag_runs s.consumed ≡ true
      → create_for_model d dates existing found s ≡ ok after
      → is_consistent after.dag_runs after.consumed ≡ true
  unfolding create_for_model
  create_for_model-is_consistent dates existing none s after h made =
      returned-is_consistent s after h made
  create_for_model-is_consistent dates existing (some dag) s after h made =
      elim (Bool-cases (d.has_dataset_timetable dag)) [
        | inl t ↦
            create_at-is_consistent existing dag (lookup dag.dag_id dates) s after h (rw t at made)
        | inr f ↦ returned-is_consistent s after h (rw f at made)
      ]

  create_for_models-is_consistent :
      (dates existing : List (String × ℕ)) (models : List DagModel) (s after : Tables)
      → is_consistent s.dag_runs s.consumed ≡ true
      → create_for_models d dates existing models s ≡ ok after
      → is_consistent after.dag_runs after.consumed ≡ true
  unfolding create_for_models
  create_for_models-is_consistent dates existing [] s after h made =
      returned-is_consistent s after h made
  create_for_models-is_consistent dates existing (model ∷ models) s after h made =
      let found = d.get_dag model.dag_id in
      let (next, first, rest) =
        >>=-eq-ok (create_for_model d dates existing found s)
          (create_for_models d dates existing models) made in
      create_for_models-is_consistent dates existing models next after
        (create_for_model-is_consistent dates existing found s next h first) rest

abbrev pub is_dated : Option ℕ → Bool
is_dated none = false
is_dated (some date) = true

-- The DAG that is found has a date, as the DAGs have for which the function is called.
abbrev pub has_date : List (String × ℕ) → Option Dag → Bool
has_date dates none = true
has_date dates (some dag) = is_dated (lookup dag.dag_id dates)

module _ (d : Datasets) (dates existing : List (String × ℕ)) where
  create_for_model_total :
      (found : Option Dag) (s : Tables)
      → has_date dates found ≡ true
      → (next : Tables) × (create_for_model d dates existing found s ≡ ok next)
  unfolding create_for_model create_at
  create_for_model_total none s h = (s, refl)
  create_for_model_total (some dag) s h = elim (Bool-cases (d.has_dataset_timetable dag)) [
    | inr other ↦ (s, rw other refl)
    | inl own ↦ elim (Option-cases (lookup dag.dag_id dates)) [
      | inl missing ↦ cc (rw missing at h)
      | inr (date, at) ↦ (create_unless d existing dag date s, rw (own, at) refl)
    ]
  ]

  create_for_models_total :
      (models : List DagModel) (s : Tables)
      → All (λ (m : DagModel). has_date dates (d.get_dag m.dag_id) ≡ true) models
      → (after : Tables) × (create_for_models d dates existing models s ≡ ok after)
  unfolding create_for_models
  create_for_models_total [] s h = (s, refl)
  create_for_models_total (model ∷ models) s h =
      let (next, first) = create_for_model_total (d.get_dag model.dag_id) s h.0 in
      let (after, rest) = create_for_models_total models next h.1 in (after, rw first rest)

-- If the runs and their events are consistent, and each of the DAGs that is found has a date,
-- `_create_dag_runs_dataset_triggered` returns, and they are consistent after it: each run of a DAG
-- takes events up to its own date, and none up to the date of an earlier run of the DAG that had taken
-- its events before. So no event is taken by two such runs.
pub create_dag_runs_dataset_triggered-is_consistent :
    (d : Datasets) (models : List DagModel) (info : DagInfo) (s : Tables)
    → MakesRuns d
    → is_consistent s.dag_runs s.consumed ≡ true
    → All (λ (m : DagModel). has_date (exec_dates d info) (d.get_dag m.dag_id) ≡ true) models
    → (after : Tables) × (create_dag_runs_dataset_triggered d models info s ≡ ok after)
      × (is_consistent after.dag_runs after.consumed ≡ true)
unfolding create_dag_runs_dataset_triggered
create_dag_runs_dataset_triggered-is_consistent d models info s makes h dated =
    let dates = exec_dates d info in
    let existing = existing_keys dates s.dag_runs in
    let (after, done) = create_for_models_total d dates existing models s dated in
    (after, done, create_for_models-is_consistent d makes dates existing models s after h done)
