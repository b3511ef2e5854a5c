-- ===== src/Prelude/Retries.antt =====
-- Calls that are tried again: the decorator `backoff.on_exception` of the package backoff.
use Prim.Native.Nat.{ℕ, ◌<◌}
use mathlib.Core.Path.{◌≡◌}
use beeflow.Prelude.Result.{Result, err}

-- A call comes to what its last attempt comes to, and every attempt before that one raised.
pub record IsLastAttempt {E A : Type 0} (attempt : ℕ → Result E A) (r : Result E A) : Type 0 where
  pub number : ℕ
  pub comes_to : r ≡ attempt number
  pub earlier : (k : ℕ) → k < number → (e : E) × (attempt k ≡ err e)
