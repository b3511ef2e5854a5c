-- ===== src/Scheduler/CriticalSection/Termination.antt =====
-- The loop of Scheduler/CriticalSection ends: each round but the last takes a task instance out of
-- the query.
use beeflow.Prelude.{
  ℕ, zero, suc, ◌≤◌, ◌<◌, ◌≡◌, refl, sym, ◌∙◌, Bool, true, false, Option, none, some, List, [], ◌∷◌,
  arith, nat_beq, string_eq, pair_eq, nat_eq, length, count, min, Bool-cases, inl, inr, ◌⊎◌, In,
  All-In,
}
use beeflow.Prelude.Result.{Result, ok, err}
use beeflow.Scheduler.Tables.{TaskInstance, DagRun, DagModel, Database, is_scheduled}
use beeflow.Scheduler.Query.{Row, Starved, join_with, join_row, rows, admits, select}
use beeflow.Scheduler.World.{is_busy, World, Error, operational_error}
use beeflow.Scheduler.Examine.{Round, examine_all}
use beeflow.Scheduler.CriticalSection.{
  is_nil, is_finished, found_new_filters, loop, pool_slots_free, start_round, Outcome, finish,
  enough_fuel, executable_task_instances_to_queued,
}
use beeflow.Scheduler.Query.Facts.{IsJoined, IsSelected, select-IsSelected}
use beeflow.Scheduler.Examine.Starvation.{Grows, examine_all-Grows, examine_all-out}
use beeflow.Scheduler.Examine.Table.{Fades, examine_all-Fades}

accepts : Starved → Option Row → Bool
accepts s none = false
accepts s (some row) = admits s row.ti

-- Whether the query may return the task instance.
pub waits : List DagRun → List DagModel → Starved → TaskInstance → Bool
unfolding accepts
waits runs models s ti = accepts s (join_row runs models ti)

join_with-idle :
    (r : Option DagRun) (m : Option DagModel) (ti : TaskInstance)
    → is_scheduled ti.state ≡ false
    → join_with r m ti ≡ none
unfolding join_with
join_with-idle none m ti idle = refl
join_with-idle (some run) none ti idle = refl
join_with-idle (some run) (some model) ti idle = ground arith

accepts-Grows :
    (s s' : Starved) (o : Option Row) → Grows s s' → accepts s' o ≡ true → accepts s o ≡ true
unfolding accepts
accepts-Grows s s' none grows h = h
accepts-Grows s s' (some row) grows h = elim (Bool-cases (admits s row.ti)) [
  | inl t ↦ t
  | inr f ↦ cc (grows row.ti f)
]

module _ (runs : List DagRun) (models : List DagModel) where
  waits-Grows :
      (s s' : Starved) (ti : TaskInstance)
      → Grows s s'
      → waits runs models s' ti ≡ true
      → waits runs models s ti ≡ true
  unfolding waits
  waits-Grows s s' ti grows h = accepts-Grows s s' _ grows h

  waits-idle :
      (s : Starved) (ti : TaskInstance)
      → is_scheduled ti.state ≡ false
      → waits runs models s ti ≡ false
  unfolding waits join_row accepts
  waits-idle s ti idle = rw (join_with-idle _ _ ti idle)

  waits-admits :
      (s : Starved) (row : Row)
      → IsJoined runs models row
      → waits runs models s row.ti ≡ admits s row.ti
  unfolding waits join_row join_with accepts
  waits-admits s row j = rw (j.found_run, j.found_model, join_with, j.holds) refl

  module _ (s s' : Starved) (grows : Grows s s') where
    still :
        (x y : TaskInstance)
        → (x ≡ y) ⊎ (is_scheduled y.state ≡ false)
        → waits runs models s' y ≡ true
        → waits runs models s x ≡ true
    still x y (inl p) h = waits-Grows s s' x grows (rw p h)
    still x y (inr idle) h = cc (waits-idle s' y idle)

    -- The measure of the loop does not grow,
    count-le :
        (xs ys : List TaskInstance)
        → Fades xs ys
        → count (waits runs models s') ys ≤ count (waits runs models s) xs
    count-le [] [] h = omega arith
    count-le [] (y ∷ ys) h = elim h [ ]
    count-le (x ∷ xs) [] h = elim h [ ]
    count-le (x ∷ xs) (y ∷ ys) (h, hs) = ground (arith, count-le xs ys hs, still x y h)

    -- and falls where a task instance is kept out.
    count-lt :
        (ti : TaskInstance) (xs ys : List TaskInstance)
        → Fades xs ys
        → In ti xs
        → waits runs models s ti ≡ true
        → waits runs models s' ti ≡ false
        → count (waits runs models s') ys < count (waits runs models s) xs
    count-lt ti [] ys h m before after = elim m [ ]
    count-lt ti (x ∷ xs) [] h m before after = elim h [ ]
    count-lt ti (x ∷ xs) (y ∷ ys) (h, hs) (inr m) before after =
        ground (arith, count-lt ti xs ys hs m before after, still x y h)
    count-lt ti (x ∷ xs) (y ∷ ys) (inl p, hs) (inl e) before after =
        let at_x : waits runs models s x ≡ true = rw (sym e) before in
        let at_y : waits runs models s' y ≡ false = rw (sym p, sym e) after in
        ground (arith, count-le xs ys hs)
    count-lt ti (x ∷ xs) (y ∷ ys) (inr idle, hs) (inl e) before after =
        let at_x : waits runs models s x ≡ true = rw (sym e) before in
        ground (arith, count-le xs ys hs, waits-idle s' y idle)

count-le-length {ℓ} : {A : Type ℓ} (p : A → Bool) (xs : List A) → count p xs ≤ length xs
count-le-length p [] = omega arith
count-le-length p (x ∷ xs) = ground (arith, count-le-length p xs)

abbrev table : Database → Round → Database
table db s = record db { task_instances = s.tis }

no_new : (s : Starved) → found_new_filters s s ≡ false
unfolding found_new_filters
no_new s = ground arith

self_clash : {b : Bool} → b ≡ false → b ≡ true → ⊥
self_clash f t = cc

more_found :
    (max_tis : ℕ) (rows : List Row) (s s' : Round)
    → is_finished max_tis rows s s' ≡ false
    → found_new_filters s.starved s'.starved ≡ true
unfolding is_finished
more_found max_tis rows s s' more = ground arith

-- A round that found new filters leaves fewer task instances to the query.
round-lt :
    (w : World) (max_tis : ℕ) (db : Database) (s : Round)
    → let rows : List Row = select w.row_locked max_tis (table db s) s.starved in
      let s' : Round = examine_all w rows s in
      found_new_filters s.starved s'.starved ≡ true
      → count (waits db.dag_runs db.dag_models s'.starved) s'.tis
        < count (waits db.dag_runs db.dag_models s.starved) s.tis
unfolding found_new_filters
round-lt w max_tis db s found =
    let rows : List Row = select w.row_locked max_tis (table db s) s.starved in
    let s' : Round = examine_all w rows s in
    elim (examine_all-out w rows s) [
      | inl same ↦ absurd (self_clash (no_new s.starved) (rw same at found))
      | inr (row, at_row, out) ↦
          let sel : IsSelected w.row_locked (table db s) s.starved row =
            All-In _ row rows (select-IsSelected w.row_locked max_tis (table db s) s.starved)
              at_row in
          count-lt db.dag_runs db.dag_models s.starved s'.starved (examine_all-Grows w rows s)
            row.ti s.tis s'.tis (examine_all-Fades w rows s) sel.occurs
            (waits-admits _ _ s.starved row sel.joined ∙ sel.admitted)
            (waits-admits _ _ s'.starved row sel.joined ∙ out)
    ]

pub loop_total :
    (w : World) (max_tis : ℕ) (db : Database) (fuel : ℕ) (s : Round)
    → count (waits db.dag_runs db.dag_models s.starved) s.tis < fuel
    → (s' : Round) × (loop w max_tis db fuel s ≡ some s')
unfolding loop
loop_total w max_tis db zero s h = elim h [ ]
loop_total w max_tis db (suc fuel) s h =
    let rows : List Row = select w.row_locked max_tis (table db s) s.starved in
    let s' : Round = examine_all w rows s in
    elim (Bool-cases (is_nil rows)) [
      | inl none_left ↦ (s, rw none_left refl)
      | inr some_left ↦ elim (Bool-cases (is_finished max_tis rows s s')) [
        | inl finished ↦ (s', rw (some_left, finished) refl)
        | inr more ↦
            let (last, e) =
              loop_total w max_tis db fuel s'
                (omega (arith, round-lt w max_tis db s (more_found max_tis rows s s' more))) in
            (last, rw (some_left, more) e)
      ]
    ]

-- The critical section always comes to a result: an exception, or an outcome.
pub executable_task_instances_to_queued_total :
    (w : World) (max_tis : ℕ) (db : Database)
    → (result : Result Error Outcome) × (executable_task_instances_to_queued w max_tis db
        ≡ some result)
unfolding executable_task_instances_to_queued start_round
executable_task_instances_to_queued_total w max_tis db =
    let free = pool_slots_free (w.slots_stats db) in
    elim (Bool-cases (is_busy w)) [
      | inl busy ↦ (err operational_error, rw busy refl)
      | inr held ↦ elim (Bool-cases (nat_beq free 0)) [
        | inl full ↦ (ok (record { chosen = []; db = db; gauges = [] }), rw (held, full) refl)
        | inr room ↦
            let (s, e) = loop_total w (min max_tis free) db (enough_fuel db) (start_round w db) (
              omega (
                arith,
                count-le-length (waits db.dag_runs db.dag_models (start_round w db).starved)
                    db.task_instances,
              )) in
            (ok (finish w db s), rw (held, room, e) refl)
      ]
    ]
