-- ===== src/Scheduler/ExecutorEvents.antt =====
-- `_process_executor_events` of lambdas/scheduler/scheduler_job.py (under src/python/beeflow).
pub mod Buffer
pub mod Handled
use beeflow.Prelude.{
  ℕ, Bool, true, false, not, ◌&&◌, ◌||◌, Option, none, some, List, [], ◌∷◌, ◌++◌, String,
  if◌then◌else◌, nat_beq, ◌==◌, Eq, string_eq, nat_eq, length, filter, map,
}
use beeflow.Prelude.Int.{ℤ, int_eq}
use beeflow.Prelude.Result.{Result, ok, err, ◌>>=◌}
use beeflow.Scheduler.Tables.{TaskInstance, TaskState, DagModel, is_queued}
use beeflow.Scheduler.Query.{find_dag_model}
use beeflow.Scheduler.CriticalSection.{is_nil}

-- The key of an event; without the try number it is `ti_key.primary`.
pub record TaskInstanceKey : Type 0 where
  pub dag_id : String
  pub task_id : String
  pub run_id : String
  pub map_index : ℤ
  pub try_number : ℕ

-- `ti.key.with_try_number(n)`
abbrev pub key_of : TaskInstance → ℕ → TaskInstanceKey
key_of ti n = record {
  dag_id = ti.dag_id;
  task_id = ti.task_id;
  run_id = ti.run_id;
  map_index = ti.map_index;
  try_number = n;
}

abbrev pub same_primary : TaskInstanceKey → TaskInstanceKey → Bool
same_primary a b =
    a.dag_id == b.dag_id
    && a.task_id == b.task_id
    && a.run_id == b.run_id
    && a.map_index == b.map_index

abbrev pub same_event : TaskInstanceKey → TaskInstanceKey → Bool
same_event a b = same_primary a b && nat_beq a.try_number b.try_number

-- What the executor reports of a key: a state, and the information beside it.
pub record Report : Type 0 where
  pub state : TaskState
  pub info : Option String

abbrev pub EventBuffer : Type 0
EventBuffer = List (TaskInstanceKey × Report)

pub data EventError : Type 0 where
  key_error attribute_error : EventError

abbrev pub has_right_state : TaskState → Bool
has_right_state TaskState.failed = true
has_right_state TaskState.success = true
has_right_state TaskState.queued = true
has_right_state _ = false

-- `tis_with_right_state`
unfoldable pub tis_with_right_state : EventBuffer → List TaskInstanceKey
tis_with_right_state [] = []
tis_with_right_state ((k, r) ∷ events) =
    if has_right_state r.state then k ∷ tis_with_right_state events else tis_with_right_state events

unfoldable pub or_else : Option ℕ → Option ℕ → Option ℕ
or_else (some n) other = some n
or_else none other = other

-- `ti_primary_key_to_try_number_map[key.primary]`: the last event of the key was written last.
unfoldable pub try_number_of : TaskInstanceKey → EventBuffer → Option ℕ
unfolding or_else
try_number_of key [] = none
try_number_of key ((k, r) ∷ events) =
    or_else (try_number_of key events) (if same_primary k key then some k.try_number else none)

unfoldable pub keep_entry :
    TaskInstanceKey × Report → Option (Report × EventBuffer) → Option (Report × EventBuffer)
keep_entry entry none = none
keep_entry entry (some (r, events)) = some (r, entry ∷ events)

-- `event_buffer.pop(key)`
unfoldable pub pop : TaskInstanceKey → EventBuffer → Option (Report × EventBuffer)
unfolding keep_entry
pop key [] = none
pop key ((k, r) ∷ events) =
    if same_event k key then some (r, events) else keep_entry (k, r) (pop key events)

-- The row of a key of the list, as `TI.filter_for_tis` selects it.
unfoldable pub is_reported : List TaskInstanceKey → TaskInstance → Bool
is_reported [] ti = false
is_reported (k ∷ keys) ti = same_primary k (key_of ti 0) || is_reported keys ti

-- A `TaskCallbackRequest`; the message is made of the report.
pub record KilledRequest : Type 0 where
  pub full_filepath : String
  pub processor_subdir : Option String
  pub task_instance : TaskInstance
  pub report : Report

-- What the function takes from the executor, from Airflow and from the database server.
pub record ExecutorWorld : Type 0 where
  pub job_id : ℕ
  pub row_locked : TaskInstance → Bool
  pub has_task : TaskInstance → Bool
  -- the task of a serialized DAG: whether it has a callback for retry or failure; none for an exception
  pub get_task : String → String → Option Bool
  pub handle_failure : Report → TaskInstance → TaskInstance

-- A row that has been examined, and the callback that was sent for it.
abbrev pub Handling : Type 0
Handling = TaskInstance × List KilledRequest

unfoldable pub send_request : Report → TaskInstance → Option DagModel → Result EventError Handling
send_request r ti none = err attribute_error
send_request r ti (some model) = ok (
  ti,
  record {
    full_filepath = model.fileloc;
    processor_subdir = model.processor_subdir;
    task_instance = ti;
    report = r;
  }
      ∷ [],
)

abbrev pub is_queued_by_other : ℕ → Option ℕ → Bool
is_queued_by_other id none = true
is_queued_by_other id (some job) = not (nat_beq job id)

-- `ti_queued and not ti_requeued`
abbrev pub was_killed : ExecutorWorld → TaskInstance → ℕ → Bool
was_killed x ti n =
    nat_beq ti.try_number n
    && is_queued ti.state
    && not (is_queued_by_other x.job_id ti.queued_by_job_id || x.has_task ti)

-- The end of the loop's body, for a task instance that was killed.
unfoldable pub fail_killed :
    ExecutorWorld → List DagModel → Report → TaskInstance → Option Bool → Result EventError Handling
unfolding send_request
fail_killed x models r ti none = ok (record ti { state = some r.state }, [])
fail_killed x models r ti (some true) = send_request r ti (find_dag_model models ti.dag_id)
fail_killed x models r ti (some false) = ok (x.handle_failure r ti, [])

unfoldable pub respond :
    ExecutorWorld → List DagModel → TaskInstance → ℕ → Report → Result EventError Handling
unfolding fail_killed
respond x models ti n r =
    if is_queued (some r.state)
    then ok (record ti { external_executor_id = r.info }, [])
    else if was_killed x ti n
    then fail_killed x models r ti (x.get_task ti.dag_id ti.task_id)
    else ok (ti, [])

-- The dictionary's answer to a read or to `pop`.
abbrev pub found {ℓ} : {A : Type ℓ} → Option A → Result EventError A
found none = err key_error
found (some a) = ok a

-- The loop's body: the row, the callbacks, and the buffer after it.
unfoldable pub handle_row :
    ExecutorWorld
    → List DagModel
    → EventBuffer
    → TaskInstance
    → EventBuffer
    → Result EventError (Handling × EventBuffer)
unfolding respond try_number_of pop
handle_row x models reported ti buffer = do
  n ← found (try_number_of (key_of ti 0) reported)
  (r, rest) ← found (pop (key_of ti n) buffer)
  handled ← respond x models ti n r
  ok (handled, rest)

pub record Processed : Type 0 where
  pub tis : List TaskInstance
  pub callbacks : List KilledRequest
  pub event_buffer : EventBuffer

abbrev pub is_examined : ExecutorWorld → List TaskInstanceKey → TaskInstance → Bool
is_examined x keys ti = is_reported keys ti && not (x.row_locked ti)

-- One row of the table: examined, or left as it is. `next` is the rest of the loop.
unfoldable pub visit :
    ExecutorWorld
    → List DagModel
    → EventBuffer
    → Bool
    → TaskInstance
    → EventBuffer
    → (EventBuffer → Result EventError Processed)
    → Result EventError Processed
unfolding handle_row
visit x models reported true ti buffer next = do
  (handled, rest) ← handle_row x models reported ti buffer
  later ← next rest
  ok (record {
    tis = handled.0 ∷ later.tis;
    callbacks = handled.1 ++ later.callbacks;
    event_buffer = later.event_buffer;
  })
visit x models reported false ti buffer next = do
  later ← next buffer
  ok (record later { tis = ti ∷ later.tis })

-- The loop over the rows that the query returns. The other rows of the table stay as they are.
unfoldable pub handle_rows :
    ExecutorWorld
    → List DagModel
    → EventBuffer
    → List TaskInstance
    → EventBuffer
    → Result EventError Processed
unfolding visit
handle_rows x models reported [] buffer =
    ok (record { tis = []; callbacks = []; event_buffer = buffer })
handle_rows x models reported (ti ∷ tis) buffer =
    visit x models reported (is_examined x (tis_with_right_state reported) ti) ti buffer
      (handle_rows x models reported tis)

-- `_process_executor_events`: what it returns, and the rows, the callbacks and the buffer after it.
unfoldable pub process_executor_events :
    ExecutorWorld
    → List DagModel
    → List TaskInstance
    → EventBuffer
    → Result EventError (ℕ × Processed)
unfolding handle_rows tis_with_right_state
process_executor_events x models tis buffer =
    if is_nil (tis_with_right_state buffer)
    then ok (length buffer, record { tis = tis; callbacks = []; event_buffer = buffer })
    else (do p ← handle_rows x models buffer tis buffer; ok (length p.event_buffer, p))
