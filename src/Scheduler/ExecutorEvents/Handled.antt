-- ===== src/Scheduler/ExecutorEvents/Handled.antt =====
-- What Scheduler/ExecutorEvents comes to.
use beeflow.Prelude.{
  ℕ, ◌+◌, ◌≡◌, ◌≢◌, refl, ◌∙◌, Bool, true, false, Option, none, some, List, [], ◌∷◌, ◌++◌,
  string_eq, nat_eq, length, count, All, arith, inl, inr, Bool-cases, and_inv,
}
use beeflow.Prelude.Int.{int_eq}
use beeflow.Prelude.Result.{ok}
use beeflow.Scheduler.Tables.{TaskInstance, DagModel, is_queued, same_key}
use beeflow.Scheduler.Query.{find_dag_model}
use beeflow.Scheduler.CriticalSection.{is_nil}
use beeflow.Scheduler.ExecutorEvents.{
  TaskInstanceKey, key_of, same_event, Report, EventBuffer, tis_with_right_state, try_number_of,
  is_reported, ExecutorWorld, Handling, send_request, fail_killed, respond, handle_row, Processed,
  is_examined, visit, handle_rows, process_executor_events, was_killed,
}
use beeflow.Scheduler.ExecutorEvents.Buffer.{
  has_key, pop-has_key, try_number_of-has_key, is_reported-try_number_of,
}

-- No two rows of the table have one primary key.
abbrev pub IsKeyed : List TaskInstance → Type 0
IsKeyed [] = Unit
IsKeyed (ti ∷ tis) = All (λ other. same_key ti other ≡ false) tis × IsKeyed tis

-- The DAG of a row is in the database.
abbrev pub HasModel : List DagModel → TaskInstance → Type 0
HasModel models ti = find_dag_model models ti.dag_id ≢ none

none_examined :
    (x : ExecutorWorld) (keys : List TaskInstanceKey) (tis : List TaskInstance) (n : ℕ)
    → is_nil keys ≡ true
    → n + count (is_examined x keys) tis ≡ n
unfolding is_reported
none_examined x [] [] n h = omega arith
none_examined x [] (ti ∷ tis) n h = omega (arith, none_examined x [] tis n h)
none_examined x (k ∷ keys) tis n h = cc

send_request_total :
    (r : Report) (ti : TaskInstance) (model : Option DagModel)
    → model ≢ none
    → (handled : Handling) × (send_request r ti model ≡ ok handled)
unfolding send_request
send_request_total r ti none known = absurd (known refl)
send_request_total r ti (some model) known = (_, refl)

module _ (x : ExecutorWorld) (models : List DagModel) where
  fail_killed_total :
      (r : Report) (ti : TaskInstance) (task : Option Bool)
      → HasModel models ti
      → (handled : Handling) × (fail_killed x models r ti task ≡ ok handled)
  unfolding fail_killed
  fail_killed_total r ti none known = (_, refl)
  fail_killed_total r ti (some true) known =
      send_request_total r ti (find_dag_model models ti.dag_id) known
  fail_killed_total r ti (some false) known = (_, refl)

  respond_total :
      (ti : TaskInstance) (n : ℕ) (r : Report)
      → HasModel models ti
      → (handled : Handling) × (respond x models ti n r ≡ ok handled)
  unfolding respond
  respond_total ti n r known = elim (Bool-cases (is_queued (some r.state))) [
    | inl queued ↦ ((record ti { external_executor_id = r.info }, []), rw queued refl)
    | inr other ↦ elim (Bool-cases (was_killed x ti n)) [
      | inl killed ↦
          let (handled, e) = fail_killed_total r ti (x.get_task ti.dag_id ti.task_id) known in
          (handled, rw (other, killed) e)
      | inr alive ↦ ((ti, []), rw (other, alive) refl)
    ]
  ]

  -- The key that the row will be popped by is in the buffer.
  abbrev Waits : EventBuffer → EventBuffer → TaskInstance → Type 0
  Waits reported buffer ti =
      is_examined x (tis_with_right_state reported) ti ≡ true
      → (n : ℕ) × (try_number_of (key_of ti 0) reported ≡ some n)
        × (has_key (key_of ti n) buffer ≡ true)

  other_key :
      (ti other : TaskInstance) (n m : ℕ)
      → same_key ti other ≡ false
      → same_event (key_of ti n) (key_of other m) ≡ false
  other_key ti other n m h = ground (arith, h)

  -- A row goes on waiting while the keys of other rows are popped.
  Waits-pop :
      (reported buffer rest : EventBuffer) (ti : TaskInstance) (n : ℕ) (tis : List TaskInstance)
      → ((j : TaskInstanceKey)
          → same_event (key_of ti n) j ≡ false
          → has_key j rest ≡ has_key j buffer)
      → All (λ other. same_key ti other ≡ false) tis
      → All (Waits reported buffer) tis
      → All (Waits reported rest) tis
  Waits-pop reported buffer rest ti n [] kept apart waits = tt
  Waits-pop reported buffer rest ti n (other ∷ tis) kept apart waits = (
    λ examined.
        let (m, tried, there) = waits.0 examined in
        (m, tried, kept (key_of other m) (other_key ti other n m apart.0) ∙ there),
    Waits-pop reported buffer rest ti n tis kept apart.1 waits.1,
  )

  handle_rows_total :
      (reported : EventBuffer) (tis : List TaskInstance) (buffer : EventBuffer)
      → IsKeyed tis
      → All (HasModel models) tis
      → All (Waits reported buffer) tis
      → (p : Processed) × (handle_rows x models reported tis buffer ≡ ok p)
        × (length p.event_buffer + count (is_examined x (tis_with_right_state reported)) tis
            ≡ length buffer)
  unfolding handle_rows visit handle_row
  handle_rows_total reported [] buffer keyed known waits = (_, refl, omega arith)
  handle_rows_total reported (ti ∷ tis) buffer keyed known waits =
      elim (Bool-cases (is_examined x (tis_with_right_state reported) ti)) [
        | inl examined ↦
            let (n, tried, there) = waits.0 examined in
            let (r, rest, popped, shorter, others) = pop-has_key (key_of ti n) buffer there in
            let (handled, responded) = respond_total ti n r known.0 in
            let (p, ran, counted) =
              handle_rows_total reported tis rest keyed.1 known.1
                (Waits-pop reported buffer rest ti n tis others keyed.0 waits.1) in
            (
              record {
                tis = handled.0 ∷ p.tis;
                callbacks = handled.1 ++ p.callbacks;
                event_buffer = p.event_buffer;
              },
              rw (examined, tried, popped, responded, ran) refl,
              rw examined (omega (arith, counted, shorter)),
            )
        | inr skipped ↦
            let (p, ran, counted) = handle_rows_total reported tis buffer keyed.1 known.1 waits.1 in
            (
              record p { tis = ti ∷ p.tis },
              rw (skipped, ran) refl,
              rw skipped (omega (arith, counted)),
            )
      ]

  reported-Waits :
      (reported : EventBuffer) (tis : List TaskInstance) → All (Waits reported reported) tis
  reported-Waits reported [] = tt
  reported-Waits reported (ti ∷ tis) = (
    λ examined.
        let (n, tried) =
          is_reported-try_number_of ti reported
            (and_inv {a = is_reported (tis_with_right_state reported) ti} examined).0 in
        (n, tried, try_number_of-has_key ti reported n tried),
    reported-Waits reported tis,
  )

-- Where no two rows have one key and every row's DAG is in the database, the function raises nothing.
-- What it returns, with the number of rows that it examined, is the number of the reported events: it
-- returns how many it left in the buffer. Without an event in one of the three states it examines no
-- row.
pub process_executor_events_total :
    (x : ExecutorWorld) (models : List DagModel) (tis : List TaskInstance) (buffer : EventBuffer)
    → IsKeyed tis
    → All (HasModel models) tis
    → (n : ℕ) × (p : Processed) × (process_executor_events x models tis buffer ≡ ok (n, p))
      × (n + count (is_examined x (tis_with_right_state buffer)) tis ≡ length buffer)
unfolding process_executor_events
process_executor_events_total x models tis buffer keyed known =
    elim (Bool-cases (is_nil (tis_with_right_state buffer))) [
      | inl nothing ↦ (
        length buffer,
        record { tis = tis; callbacks = []; event_buffer = buffer },
        rw nothing refl,
        none_examined x (tis_with_right_state buffer) tis (length buffer) nothing,
      )
      | inr something ↦
          let (p, ran, counted) =
            handle_rows_total x models buffer tis buffer keyed known
              (reported-Waits x models buffer tis) in
          (length p.event_buffer, p, rw (something, ran) refl, counted)
    ]
