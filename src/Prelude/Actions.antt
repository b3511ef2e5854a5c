-- ===== src/Prelude/Actions.antt =====
-- Actions on a state, which may raise an exception, and the calls of services that they make.
pub mod Follows
use mathlib.Core.List.{List, [], ◌∷◌}
use beeflow.Prelude.Result.{Result, ok, err}

-- An action on the state `S` of the world. What it did before it raises stays done.
abbrev pub Action : Type 0 → Type 0 → Type 0
Action S E = S → Result E (Unit {0}) × S

module _ {S E : Type 0} where
  abbrev pub pass : Action S E
  pass s = (ok tt, s)

  unfoldable pub continue_with : Action S E → Result E (Unit {0}) × S → Result E (Unit {0}) × S
  continue_with next (ok _, s) = next s
  continue_with next (err e, s) = (err e, s)

  -- One action after the other, unless the first raises.
  unfoldable pub and_then : Action S E → Action S E → Action S E
  unfolding continue_with
  and_then first next s = continue_with next (first s)

  -- `for x in xs: ...`
  unfoldable pub for_each : {A : Type 0} → (A → Action S E) → List A → Action S E
  unfolding and_then
  for_each act [] = pass
  for_each act (x ∷ xs) = and_then (act x) (for_each act xs)

  -- `try: ... except Exception: ...`, with a handler that only logs.
  unfoldable pub try_action : Action S E → Action S E
  try_action act s = (ok tt, (act s).1)
