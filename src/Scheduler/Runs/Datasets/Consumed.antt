-- ===== src/Scheduler/Runs/Datasets/Consumed.antt =====
-- Which events the runs of Scheduler/Runs/Datasets consume.
use beeflow.Prelude.{
  ℕ, ◌≡◌, ◌<◌, refl, sym, ap, ◌∙◌, Bool, true, false, not, ◌&&◌, ◌||◌, Option, none, some, List, [],
  ◌∷◌, ◌++◌, String, ltb, leb, nat_beq, ◌==◌, string_eq, nat_eq, filter, arith, inl, inr,
  Bool-cases, nat_beq_iff,
}
use text.Mathlib.TextEquality.{eq_iff}
use beeflow.Scheduler.Tables.{DagRun, Dag, RunState, RunType}
use beeflow.Scheduler.Runs.Datasets.{
  DatasetEvent, Consumption, Datasets, is_dataset_triggered, is_earlier, later_run,
  previous_dag_run, is_after, is_selected, events_for,
}

-- `dag.create_dagrun` makes a run of the DAG, of the type and at the date that it is given.
pub record MakesRuns (d : Datasets) : Type 0 where
  pub made_dag :
      (dag : Dag) (events : List DatasetEvent) (type : RunType) (date : ℕ) (state : RunState)
      (hash : Option String)
      → (d.create_dagrun dag events type date state hash).dag_id ≡ dag.dag_id
  pub made_date :
      (dag : Dag) (events : List DatasetEvent) (type : RunType) (date : ℕ) (state : RunState)
      (hash : Option String)
      → (d.create_dagrun dag events type date state hash).execution_date ≡ date
  pub made_type :
      (dag : Dag) (events : List DatasetEvent) (type : RunType) (date : ℕ) (state : RunState)
      (hash : Option String)
      → (d.create_dagrun dag events type date state hash).run_type ≡ type

abbrev pub all {ℓ} : {A : Type ℓ} → (A → Bool) → List A → Bool
all p [] = true
all p (x ∷ xs) = p x && all p xs

-- Whether there is a run that datasets triggered, of a DAG and at a date.
abbrev pub has_run : String → ℕ → List DagRun → Bool
has_run dag_id date [] = false
has_run dag_id date (run ∷ runs) =
    (run.dag_id == dag_id && nat_beq run.execution_date date && is_dataset_triggered run.run_type)
    || has_run dag_id date runs

-- A run takes no event up to the date of an earlier run of its DAG.
abbrev pub is_apart : Consumption → Consumption → Bool
is_apart new old =
    not (new.dag_id == old.dag_id && ltb old.execution_date new.execution_date)
    || all (λ (e : DatasetEvent). ltb old.execution_date e.timestamp) new.events

-- Every consumption is one of a run that is there and has events up to its date, and none takes an
-- event up to the date of an earlier run of the DAG that had consumed its events before.
abbrev pub is_consistent : List DagRun → List Consumption → Bool
is_consistent runs [] = true
is_consistent runs (c ∷ consumed) =
    has_run c.dag_id c.execution_date runs
    && all (λ (e : DatasetEvent). leb e.timestamp c.execution_date) c.events
    && all (is_apart c) consumed
    && is_consistent runs consumed

pub all-filter {ℓ} :
    {A : Type ℓ} (p q : A → Bool)
    → ((x : A) → p x ≡ true → q x ≡ true)
    → (xs : List A) → all q (filter p xs) ≡ true
all-filter p q imp [] = refl
all-filter p q imp (x ∷ xs) = elim (Bool-cases (p x)) [
  | inl t ↦ rw t (ground (arith, imp x t, all-filter p q imp xs))
  | inr f ↦ rw f (all-filter p q imp xs)
]

pub has_run-append :
    (dag_id : String) (date : ℕ) (runs more : List DagRun)
    → has_run dag_id date runs ≡ true
    → has_run dag_id date (runs ++ more) ≡ true
has_run-append dag_id date [] more h = cc
has_run-append dag_id date (run ∷ runs) more h = elim (Bool-cases (has_run dag_id date runs)) [
  | inl later ↦ ground (arith, has_run-append dag_id date runs more later)
  | inr first ↦ ground (arith, h, first)
]

pub has_run-made :
    (dag_id : String) (date : ℕ) (runs : List DagRun) (made : DagRun)
    → made.dag_id ≡ dag_id
    → made.execution_date ≡ date
    → made.run_type ≡ RunType.dataset_triggered
    → has_run dag_id date (runs ++ made ∷ []) ≡ true
has_run-made dag_id date [] made its_dag its_date its_type =
    let dags = (eq_iff made.dag_id dag_id).1 its_dag in
    let dates = (nat_beq_iff made.execution_date date).1 its_date in
    let types : is_dataset_triggered made.run_type ≡ true = ap is_dataset_triggered its_type in
    ground (arith, dags, dates, types)
has_run-made dag_id date (run ∷ runs) made its_dag its_date its_type =
    ground (arith, has_run-made dag_id date runs made its_dag its_date its_type)

pub is_consistent-append :
    (runs more : List DagRun) (consumed : List Consumption)
    → is_consistent runs consumed ≡ true
    → is_consistent (runs ++ more) consumed ≡ true
is_consistent-append runs more [] h = refl
is_consistent-append runs more (c ∷ consumed) h =
    let own : has_run c.dag_id c.execution_date runs ≡ true = ground (arith, h) in
    let rest : is_consistent runs consumed ≡ true = ground (arith, h) in
    ground (
      arith,
      has_run-append c.dag_id c.execution_date runs more own,
      is_consistent-append runs more consumed rest,
      h,
    )

abbrev is_since : ℕ → Option DagRun → Bool
is_since date none = false
is_since date (some run) = leb date run.execution_date

later_run-since :
    (date : ℕ) (run : DagRun) (rest : Option DagRun)
    → (leb date run.execution_date || is_since date rest) ≡ true
    → is_since date (some (later_run run rest)) ≡ true
later_run-since date run none h = ground (arith, h)
later_run-since date run (some other) h = ground (arith, h)

previous_dag_run-since :
    (dag_id : String) (early late : ℕ) (runs : List DagRun)
    → has_run dag_id early runs ≡ true
    → early < late
    → is_since early (previous_dag_run dag_id late runs) ≡ true
unfolding previous_dag_run
previous_dag_run-since dag_id early late [] h lt = cc
previous_dag_run-since dag_id early late (run ∷ runs) h lt =
    elim (Bool-cases (has_run dag_id early runs)) [
      | inl later ↦
          let rest = previous_dag_run-since dag_id early late runs later lt in
          elim (Bool-cases (is_earlier dag_id late run)) [
            | inl t ↦ rw t (
                later_run-since early run (previous_dag_run dag_id late runs)
                  (ground (arith, rest)))
            | inr f ↦ rw f rest
          ]
      | inr first ↦
          let own : is_earlier dag_id late run ≡ true = ground (arith, h, first, lt) in
          rw own (
            later_run-since early run (previous_dag_run dag_id late runs)
              (ground (arith, h, first)))
    ]

is_after-since :
    (date : ℕ) (o : Option DagRun) (e : DatasetEvent)
    → is_since date o ≡ true
    → is_after o e ≡ true
    → ltb date e.timestamp ≡ true
is_after-since date none e since after = cc
is_after-since date (some run) e since after = ground (arith, since, after)

module _ (d : Datasets) (makes : MakesRuns d) (dag : Dag) (exec_date : ℕ) (runs : List DagRun) where
  events_for-is_apart :
      (old : Consumption) (new : Consumption)
      → has_run old.dag_id old.execution_date runs ≡ true
      → new.dag_id ≡ dag.dag_id
      → new.execution_date ≡ exec_date
      → new.events ≡ events_for d dag.dag_id exec_date runs
      → is_apart new old ≡ true
  events_for-is_apart old new there its_dag its_date its_events =
      elim (Bool-cases (new.dag_id == old.dag_id && ltb old.execution_date new.execution_date)) [
        | inr f ↦ rw f refl
        | inl t ↦
            let same : dag.dag_id ≡ old.dag_id =
              sym its_dag ∙ (eq_iff new.dag_id old.dag_id).0 (ground (arith, t)) in
            let own : has_run dag.dag_id old.execution_date runs ≡ true =
              ap (λ i. has_run i old.execution_date runs) same ∙ there in
            let lt : old.execution_date < exec_date = ground (arith, t, its_date) in
            let since =
              previous_dag_run-since dag.dag_id old.execution_date exec_date runs own lt in
            let apart =
              all-filter (is_selected d dag.dag_id exec_date runs)
                (λ (e : DatasetEvent). ltb old.execution_date e.timestamp)
                (λ e selected.
                  is_after-since old.execution_date (previous_dag_run dag.dag_id exec_date runs) e
                    since (ground (arith, selected)))
                d.dataset_events in
            rw t (
              ap (all (λ (e : DatasetEvent). ltb old.execution_date e.timestamp)) its_events
              ∙ apart)
      ]

  pub all-is_apart :
      (consumed : List Consumption) (new : Consumption)
      → is_consistent runs consumed ≡ true
      → new.dag_id ≡ dag.dag_id
      → new.execution_date ≡ exec_date
      → new.events ≡ events_for d dag.dag_id exec_date runs
      → all (is_apart new) consumed ≡ true
  all-is_apart [] new h its_dag its_date its_events = refl
  all-is_apart (c ∷ consumed) new h its_dag its_date its_events =
      let first = events_for-is_apart c new (ground (arith, h)) its_dag its_date its_events in
      let rest = all-is_apart consumed new (ground (arith, h)) its_dag its_date its_events in
      rw first rest
