-- ===== src/Services/Migrations.antt =====
-- lambdas/migrations_runner/main.py (under src/python/beeflow). The migrations are a copy of Airflow's.
use beeflow.Prelude.{Option, none, some, lookup, string_eq}
use beeflow.Prelude.Actions.{Action, pass, and_then}
use beeflow.Events.Json.{Json, Dict}

module _ {S E : Type 0} where
  -- The migrations' handler, for `db.downgrade` and `db.upgradedb`.
  unfoldable downgrade_if : (Json → Action S E) → Option Json → Action S E
  downgrade_if downgrade none = pass
  downgrade_if downgrade (some revision) = downgrade revision

  unfoldable migrate : (Json → Action S E) → Action S E → Dict → Action S E
  unfolding downgrade_if and_then
  migrate downgrade upgradedb event =
      and_then (downgrade_if downgrade (lookup "downgrade_to" event)) upgradedb
