-- ===== src/Services/Webserver.antt =====
-- services/webserver/webserver_command.py (under src/python/beeflow). The monitor and the check of
-- the pid file are Airflow's.
use beeflow.Prelude.{ℕ, Bool, Option, none, some, List, [], ◌∷◌, ◌++◌, String, if◌then◌else◌}
use beeflow.Prelude.Result.{Result, ok, err}
use beeflow.Prelude.{◌≡◌, refl, ap, ◌∙◌}
use beeflow.Prelude.Actions as Actions
use beeflow.Prelude.Actions.{and_then}
use beeflow.Prelude.Actions.Follows.{Made, Records, one-Follows, call-Follows}
use Prim.Native.String.{◌++◌ as append}

-- The options of the command. A text that is not given, or is empty, counts as none.
record Options : Type 0 where
  pub access_logfile : Option String
  pub error_logfile : Option String
  pub access_logformat : Option String
  pub worker_timeout : Option String
  pub ssl_cert : Option String
  pub ssl_key : Option String
  pub workerclass : String
  pub hostname : String
  pub port : String
  pub daemon : Bool

-- `conf.get` for the three settings that the arguments fall back to.
record Settings : Type 0 where
  pub web_server_worker_timeout : String
  pub web_server_ssl_cert : Option String
  pub web_server_ssl_key : Option String

abbrev or_setting : Option String → Option String → Option String
or_setting (some v) other = some v
or_setting none other = other

abbrev or_text : Option String → String → String
or_text (some v) other = v
or_text none other = other

-- A flag with its value, if there is one.
abbrev flag : String → Option String → List String
flag name none = []
flag name (some value) = name ∷ value ∷ []

-- The two flags for the certificate; the key is passed on even if it is none.
abbrev certificate : Option String → Option String → List (Option String)
certificate none key = []
certificate (some cert) key = some "--certfile" ∷ some cert ∷ some "--keyfile" ∷ key ∷ []

abbrev given : List String → List (Option String)
given [] = []
given (x ∷ xs) = some x ∷ given xs

-- `run_args`, for `sys.executable`, the pid file and whether the log format is more than blanks.
unfoldable run_args : String → String → (String → Bool) → Settings → Options → List (Option String)
run_args executable pid_file has_text conf args =
    given (
      executable
      ∷ "-m"
      ∷ "gunicorn"
      ∷ "--workers"
      ∷ "1"
      ∷ "--worker-class"
      ∷ args.workerclass
      ∷ "--timeout"
      ∷ or_text args.worker_timeout conf.web_server_worker_timeout
      ∷ "--bind"
      ∷ append args.hostname (append ":" args.port)
      ∷ "--name"
      ∷ "airflow-webserver"
      ∷ "--pid"
      ∷ pid_file
      ∷ "--config"
      ∷ "python:airflow.www.gunicorn_config"
      ∷ [])
    ++ (given (flag "--access-logfile" args.access_logfile)
        ++ (given (flag "--error-logfile" args.error_logfile)
            ++ (given (elim args.access_logformat [
              | none ↦ []
              | some format ↦
                  if has_text format then flag "--access-logformat" (some format) else []
            ])
                ++ (given (if args.daemon then "--daemon" ∷ [] else [])
                    ++ (certificate (or_setting args.ssl_cert conf.web_server_ssl_cert)
                          (or_setting args.ssl_key conf.web_server_ssl_key)
                        ++ given ("airflow.www.app:cached_app()" ∷ []))))))

-- What `wait` can raise: `subprocess.TimeoutExpired` is no `TimeoutError`.
data Exception : Type 0 where
  timeout_error timeout_expired : Exception

-- What the signal's handler does to the process.
data Action : Type 0 where
  terminate kill : Action

-- `with suppress(TimeoutError)`
unfoldable suppress : Result Exception ℕ → Option Exception
suppress (ok code) = none
suppress (err timeout_error) = none
suppress (err timeout_expired) = some timeout_expired

-- `if gunicorn_master_proc.poll() is not None`
abbrev kill_if_polled : Option ℕ → List Action
kill_if_polled none = []
kill_if_polled (some code) = kill ∷ []

-- `kill_proc`, for what the wait comes to and what `poll` returns after it: what is done to the process,
-- and the exception that ends the handler, or none for `sys.exit(0)`.
unfoldable kill_proc : Result Exception ℕ → Option ℕ → List Action × Option Exception
unfolding suppress
kill_proc waited polled = elim (suppress waited) [
  | some e ↦ (terminate ∷ [], some e)
  | none ↦ (terminate ∷ kill_if_polled polled, none)
]

-- The calls of `webserver`, for the arguments of its process. The end of `with subprocess.Popen` waits
-- for the process.
data Call : Type 0 where
  check_if_pidfile_process_is_running : Call
  popen : List (Option String) → Call
  register_sigint register_sigterm start_monitor : Call
  wait_for_process : Call

module _ {S E : Type 0} (services : Call → Actions.Action S E) where
  unfoldable monitor_gunicorn : Actions.Action S E
  unfolding and_then
  monitor_gunicorn =
      and_then (services register_sigint)
        (and_then (services register_sigterm) (services start_monitor))

  -- An exception of the wait takes the place of one of the monitor.
  unfoldable close : Result E (Unit {0}) → Result E (Unit {0}) × S → Result E (Unit {0}) × S
  close ended (ok _, s) = (ended, s)
  close ended (err e, s) = (err e, s)

  unfoldable monitored : Actions.Action S E
  unfolding monitor_gunicorn close
  monitored s =
      let (ended, after) = monitor_gunicorn s in close ended (services wait_for_process after)

  -- `webserver`, for the arguments that it makes.
  unfoldable webserver : List (Option String) → Actions.Action S E
  unfolding monitored and_then
  webserver args =
      and_then (services check_if_pidfile_process_is_running)
        (and_then (services (popen args)) monitored)

abbrev monitor_calls : List Call
monitor_calls = register_sigint ∷ register_sigterm ∷ start_monitor ∷ []

close-state :
    {S E : Type 0} (services : Call → Actions.Action S E) (ended : Result E (Unit {0}))
    (r : Result E (Unit {0}) × S)
    → (close services ended r).1 ≡ r.1
unfolding close
close-state services ended (ok _, s) = refl
close-state services ended (err e, s) = refl

-- Once the process is there, it is waited for last, however its monitor ends. The calls before are those
-- of the list, or those up to the one that raised.
monitored-Made :
    {S E : Type 0} (log : S → List Call) (services : Call → Actions.Action S E) (s : S)
    → Records log services
    → (before : List Call) × Made monitor_calls (log s) (monitor_gunicorn services s).0 before
      × (log (monitored services s).1 ≡ before ++ wait_for_process ∷ [])
unfolding monitored monitor_gunicorn close
monitored-Made log services s records =
    let after = (monitor_gunicorn services s).1 in
    let waited : log (services wait_for_process after).1 ≡ log after ++ wait_for_process ∷ [] =
      records wait_for_process after in
    (
      log after,
      (one-Follows log services records register_sigint _ _ (
            one-Follows log services records register_sigterm _ _
              (call-Follows log services records start_monitor))).made
          s,
      ap log
            (close-state services (monitor_gunicorn services s).0 (services wait_for_process after))
          ∙ waited,
    )
