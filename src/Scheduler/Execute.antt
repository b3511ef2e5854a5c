-- ===== src/Scheduler/Execute.antt =====
-- `_execute`, `is_alive` and the handlers of signals of lambdas/scheduler/scheduler_job.py (under src/python/beeflow).
use beeflow.Prelude.{
  ℕ, ◌-◌, ◌≡◌, Bool, ◌&&◌, List, [], ◌∷◌, ◌++◌, Option, none, some, ltb, if◌then◌else◌,
}
use beeflow.Prelude.Result.{Result}
use beeflow.Prelude.Actions.{Action, pass, and_then}
use beeflow.Prelude.Actions.Follows.{Made, Records, one-Follows, call-Follows}

-- The calls of the job. The first one gives the executor its job id and its sink for callbacks.
data Call : Type 0 where
  set_up_executor start_executor register_signals run_scheduler_loop remove_session : Call
  end_executor : Call

module _ {S E : Type 0} (services : Call → Action S E) where
  -- The `try`.
  unfoldable run_job : Action S E
  unfolding and_then
  run_job = and_then (services set_up_executor) (
      and_then (services start_executor) (
        and_then (services register_signals)
          (and_then (services run_scheduler_loop) (services remove_session))))

  -- The `finally`: an exception of the executor's end is only logged.
  unfoldable finally_end : Result E (Unit {0}) × S → Result E (Unit {0}) × S
  finally_end (result, s) = (result, (services end_executor s).1)

  -- `_execute`
  unfoldable execute : Action S E
  unfolding run_job finally_end
  execute s = finally_end (run_job s)

abbrev job_calls : List Call
job_calls =
    set_up_executor ∷ start_executor ∷ register_signals ∷ run_scheduler_loop ∷ remove_session ∷ []

-- However the job ends, the executor is ended last, once, and the job comes to what it came to before.
-- The calls before are those of the list, or those up to the one that raised.
execute-Made :
    {S E : Type 0} (log : S → List Call) (services : Call → Action S E) (s : S)
    → Records log services
    → (before : List Call) × Made job_calls (log s) (execute services s).0 before
      × (log (execute services s).1 ≡ before ++ end_executor ∷ [])
unfolding execute run_job finally_end
execute-Made log services s records = (
  log (run_job services s).1,
  (one-Follows log services records set_up_executor _ _ (
        one-Follows log services records start_executor _ _ (
          one-Follows log services records register_signals _ _ (
            one-Follows log services records run_scheduler_loop _ _
              (call-Follows log services records remove_session))))).made
      s,
  records end_executor (run_job services s).1,
)

-- `is_alive` without a `grace_multiplier`, for times in seconds: a heartbeat in the future counts as now.
unfoldable is_alive : Bool → ℕ → ℕ → ℕ → Bool
is_alive is_running utcnow latest_heartbeat scheduler_health_check_threshold =
    is_running && ltb (utcnow - latest_heartbeat) scheduler_health_check_threshold

-- With a grace multiplier it is the super class that answers.
unfoldable is_alive_with : (ℕ → Bool) → Option ℕ → Bool → Bool
is_alive_with super_is_alive none own = own
is_alive_with super_is_alive (some grace_multiplier) own = super_is_alive grace_multiplier

-- `_exit_gracefully`: the code that it exits with; a child process goes on.
unfoldable exit_gracefully : Bool → Option ℕ
exit_gracefully is_parent_process = if is_parent_process then some 0 else none

-- `_debug_dump`, for the executor's dump.
unfoldable debug_dump : {S : Type 0} {E : Type 0} → Bool → Action S E → Action S E
debug_dump is_parent_process dump = if is_parent_process then dump else pass
