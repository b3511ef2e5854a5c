-- ===== src/Scheduler/Runs/Create.antt =====
-- Which runs Scheduler/Runs creates.
use beeflow.Prelude.{
  ℕ, ◌+◌, ◌≡◌, ◌≤◌, ◌∙◌, sym, refl, ap, max, Bool, true, false, ◌&&◌, Option, none, some, List, [],
  ◌∷◌, ◌++◌, String, if◌then◌else◌, leb, string_eq, nat_eq, count, count-append, filter, map, arith,
  inl, inr, Bool-cases, Option-cases, nat_beq_iff,
}
use text.Mathlib.TextEquality.{eq_iff}
use beeflow.Scheduler.Tables.{DagRun, DagModel, Dag, RunState, RunType}
use beeflow.Scheduler.Runs.{
  Airflow, is_at, among, key_of, existing_dagruns, Creation, create_missing, keep_model, create_for,
  create_all, create_dag_runs,
}

-- The runs of a DAG at a date, and the models whose next run it is.
abbrev pub runs_at : String → ℕ → List DagRun → ℕ
runs_at dag_id date runs = count (λ run. is_at dag_id date (key_of run)) runs

abbrev pub wanted_at : String → ℕ → List DagModel → ℕ
wanted_at dag_id date models = count (λ m. is_at dag_id date (m.dag_id, m.next_dagrun)) models

-- The DAG that is found for an id has that id, and a run that is made has its DAG and date.
pub record IsKeyed (a : Airflow) : Type 0 where
  pub dag_keyed : (dag_id : String) (dag : Dag) → a.get_dag dag_id ≡ some dag → dag.dag_id ≡ dag_id
  pub run_keyed :
      (dag : Dag) (type : RunType) (date : ℕ) (state : RunState) (hash : Option String)
      → key_of (a.create_dagrun dag type date state hash) ≡ (dag.dag_id, date)

is_at_inv :
    (dag_id : String) (date : ℕ) (key : String × ℕ)
    → is_at dag_id date key ≡ true
    → key ≡ (dag_id, date)
is_at_inv dag_id date (k, n) h =
    cc ((eq_iff k dag_id).0 (ground arith), (nat_beq_iff n date).0 (ground arith))

among-filter :
    (dag_id : String) (date : ℕ) (w keys : List (String × ℕ))
    → among dag_id date (filter (λ (key : String × ℕ). among key.0 key.1 w) keys)
      ≡ (among dag_id date w && among dag_id date keys)
unfolding among
among-filter dag_id date w [] = ground arith
among-filter dag_id date w (key ∷ keys) = elim (Bool-cases (is_at dag_id date key)) [
  | inl here ↦
      let at : among key.0 key.1 w ≡ among dag_id date w =
        ap (λ (k : String × ℕ). among k.0 k.1 w) (is_at_inv dag_id date key here) in
      ground (arith, at, here, among-filter dag_id date w keys)
  | inr there ↦ ground (arith, there, among-filter dag_id date w keys)
]

among-runs :
    (dag_id : String) (date : ℕ) (runs : List DagRun)
    → among dag_id date (map key_of runs) ≡ leb 1 (runs_at dag_id date runs)
unfolding among
among-runs dag_id date [] = refl
among-runs dag_id date (run ∷ runs) = ground (arith, among-runs dag_id date runs)

among-models :
    (dag_id : String) (date : ℕ) (models : List DagModel)
    → among dag_id date (map (λ (m : DagModel). (m.dag_id, m.next_dagrun)) models)
      ≡ leb 1 (wanted_at dag_id date models)
unfolding among
among-models dag_id date [] = refl
among-models dag_id date (m ∷ models) = ground (arith, among-models dag_id date models)

runs_at-append :
    (dag_id : String) (date : ℕ) (runs : List DagRun) (made : DagRun) (b : Bool)
    → is_at dag_id date (key_of made) ≡ b
    → runs_at dag_id date (runs ++ made ∷ []) ≡ runs_at dag_id date runs + (if b then 1 else 0)
runs_at-append dag_id date runs made b h =
    let split = count-append (λ run. is_at dag_id date (key_of run)) runs (made ∷ []) in
    ground (arith, split, h)

none-some : {dag : Dag} → none ≡ some dag → ⊥
none-some h = cc

module _ (a : Airflow) (keyed : IsKeyed a) (dag_id : String) (date : ℕ) where
  -- What one turn of the loop adds.
  create_for-runs_at :
      (existing : List (String × ℕ)) (dag : Dag) (m : DagModel) (s : Creation)
      → a.get_dag m.dag_id ≡ some dag
      → runs_at dag_id date (create_for a existing (some dag) m s).dag_runs
        ≡ runs_at dag_id date s.dag_runs
          + (if is_at dag_id date (m.dag_id, m.next_dagrun)
              then if among dag_id date existing then 0 else 1
              else 0)
  unfolding create_for create_missing keep_model
  create_for-runs_at existing dag m s found =
      let id = keyed.dag_keyed m.dag_id dag found in
      let made =
        a.create_dagrun dag RunType.scheduled m.next_dagrun RunState.queued
          (a.dags_hash dag.dag_id) in
      let its_key : key_of made ≡ (m.dag_id, m.next_dagrun) =
        keyed.run_keyed dag _ m.next_dagrun _ _ ∙ ap (λ (i : String). (i, m.next_dagrun)) id in
      let counts : is_at dag_id date (key_of made) ≡ is_at dag_id date (m.dag_id, m.next_dagrun) =
        ap (is_at dag_id date) its_key in
      let its_date : among dag.dag_id m.next_dagrun existing
          ≡ among m.dag_id m.next_dagrun existing =
        ap (λ (i : String). among i m.next_dagrun existing) id in
      elim (Bool-cases (is_at dag_id date (m.dag_id, m.next_dagrun))) [
        | inl own ↦
            let same : among m.dag_id m.next_dagrun existing ≡ among dag_id date existing =
              ap (λ (k : String × ℕ). among k.0 k.1 existing) (is_at_inv dag_id date _ own) in
            elim (Bool-cases (among dag_id date existing)) [
              | inl there ↦ rw (its_date, same, own, there) (omega arith)
              | inr missing ↦
                  rw (its_date, same, own, missing)
                    (runs_at-append dag_id date s.dag_runs made true (counts ∙ own))
            ]
        | inr other ↦ elim (Bool-cases (among dag.dag_id m.next_dagrun existing)) [
          | inl there ↦ rw (there, other) (omega arith)
          | inr missing ↦
              rw (missing, other)
                (runs_at-append dag_id date s.dag_runs made false (counts ∙ other))
        ]
      ]

  create_all-runs_at :
      (existing : List (String × ℕ)) (dag : Dag) (models : List DagModel) (s : Creation)
      → a.get_dag dag_id ≡ some dag
      → runs_at dag_id date (create_all a existing models s).dag_runs
        ≡ runs_at dag_id date s.dag_runs
          + (if among dag_id date existing then 0 else wanted_at dag_id date models)
  unfolding create_all
  create_all-runs_at existing dag [] s found = ground arith
  create_all-runs_at existing dag (m ∷ models) s found =
      let rest =
        create_all-runs_at existing dag models (create_for a existing (a.get_dag m.dag_id) m s)
          found in
      elim (Option-cases (a.get_dag m.dag_id)) [
        | inl lost ↦ elim (Bool-cases (is_at dag_id date (m.dag_id, m.next_dagrun))) [
          | inl own ↦ absurd (
              none-some (
                sym lost
                ∙ ap (λ (k : String × ℕ). a.get_dag k.0) (is_at_inv dag_id date _ own)
                ∙ found))
          | inr other ↦
              let step : runs_at dag_id date
                    (create_for a existing (a.get_dag m.dag_id) m s).dag_runs
                  ≡ runs_at dag_id date s.dag_runs =
                rw (lost, create_for) refl in
              ground (arith, rest, step, other)
        ]
        | inr (dag', its) ↦
            let step : runs_at dag_id date (create_for a existing (a.get_dag m.dag_id) m s).dag_runs
                ≡ runs_at dag_id date s.dag_runs
                  + (if is_at dag_id date (m.dag_id, m.next_dagrun)
                      then if among dag_id date existing then 0 else 1
                      else 0) =
              rw its (create_for-runs_at existing dag' m s its) in
            ground (arith, rest, step)
      ]

-- After `_create_dag_runs`, a DAG that is found has as many runs at a date as before, and one if it
-- had none and its model's next run is at that date. A DAG has one model at most.
pub create_dag_runs-runs_at :
    (a : Airflow) (models : List DagModel) (runs : List DagRun) (dag_id : String) (date : ℕ)
    (dag : Dag)
    → IsKeyed a
    → a.get_dag dag_id ≡ some dag
    → wanted_at dag_id date models ≤ 1
    → runs_at dag_id date (create_dag_runs a models runs).dag_runs
      ≡ max (runs_at dag_id date runs) (wanted_at dag_id date models)
unfolding create_dag_runs existing_dagruns
create_dag_runs-runs_at a models runs dag_id date dag keyed found once =
    let wanted : List (String × ℕ) = map (λ (m : DagModel). (m.dag_id, m.next_dagrun)) models in
    ground (
      arith,
      create_all-runs_at a keyed dag_id date (existing_dagruns models runs) dag models
          (record { dag_runs = runs; dag_models = []; active_runs = a.active_runs_of_dags runs })
          found,
      among-filter dag_id date wanted (map key_of runs),
      among-runs dag_id date runs,
      among-models dag_id date models,
    )
