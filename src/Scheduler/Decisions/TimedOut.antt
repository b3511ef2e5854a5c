-- ===== src/Scheduler/Decisions/TimedOut.antt =====
-- What Scheduler/Decisions does to a run that has timed out.
use beeflow.Prelude.{Bool, true, false, Option, none, some, string_eq}
use beeflow.Scheduler.Tables.{TaskInstance, TaskState}

abbrev is_none : Option TaskState → Bool
is_none none = true
is_none (some state) = false

-- A task instance without a state.
abbrev pub has_no_state : TaskInstance → Bool
has_no_state ti = is_none ti.state
