-- ===== src/Experiments/Managers/Waiting.antt =====
-- The end of the waiting of Experiments/Managers.
use beeflow.Prelude.{
  ℕ, zero, suc, ◌+◌, ◌≤◌, ◌≡◌, ◌⊎◌, refl, ap, ◌∙◌, Bool, true, false, some, ltb, arith, inl, inr,
  Bool-cases,
}
use beeflow.Prelude.Result.{Result, ok, err}
use beeflow.Experiments.Managers.{
  Error, exception, Check, demand, require, polled, poll, check_after, wait_until,
}

later :
    (start asked awake fuel t_end : ℕ)
    → start ≤ asked
    → asked + 15 ≤ awake
    → t_end ≤ start + suc fuel
    → t_end ≤ awake + fuel
later start asked awake fuel t_end a b c = omega arith

over_by : (t_end now : ℕ) → t_end ≤ now + 0 → ltb now t_end ≡ false
over_by t_end now h = ground arith

module _ {S : Type 0} (time : S → ℕ) (dag_exists : Check S) (t_end : ℕ) where
  -- The loop is over at this state: its time is, or a look has just found the DAG.
  abbrev pub IsOver : S → Type 0
  IsOver s = (t_end ≤ time s) ⊎ ((before : S) × (dag_exists before ≡ (ok true, s)))

  -- A look raised.
  abbrev pub HasRaised : Result Error (Unit {0}) × S → Type 0
  HasRaised (r, s) = (e : Error) × (before : S) × (r ≡ err e) × (dag_exists before ≡ (err e, s))

  -- A last look, after the loop, found the DAG or did not.
  abbrev pub HasLooked : Result Error (Unit {0}) × S → Type 0
  HasLooked (r, s) =
      (last : S) × IsOver last
      × (((r ≡ ok tt) × (dag_exists last ≡ (ok true, s)))
          ⊎ ((r ≡ err exception) × (dag_exists last ≡ (ok false, s))))

  abbrev IsLeft : Result Error (Unit {0}) × S → Type 0
  IsLeft (ok _, s) = IsOver s
  IsLeft (err e, s) = (before : S) × (dag_exists before ≡ (err e, s))

  demand-cases :
      (last : S) (r : Result Error Bool × S)
      → dag_exists last ≡ r
      → IsOver last
      → HasRaised (demand exception r) ⊎ HasLooked (demand exception r)
  unfolding demand
  demand-cases last (ok true, s) e over = inr (last, over, inl (refl, e))
  demand-cases last (ok false, s) e over = inr (last, over, inr (refl, e))
  demand-cases last (err raised, s) e over = inl (raised, last, refl, e)

module _ {S : Type 0} (time : S → ℕ) (sleep : ℕ → S → S) (dag_exists : Check S)
    (sleeps : (n : ℕ) (s : S) → time s + n ≤ time (sleep n s))
    (onward : (s : S) → time s ≤ time (dag_exists s).1) where
  -- How the loop is left after a look, from how it is left after the next sleep.
  looked :
      (fuel t_end : ℕ) (s : S) (r : Result Error Bool × S)
      → dag_exists s ≡ r
      → ltb (time s) t_end ≡ true
      → ((left : Result Error (Unit {0}) × S) × (poll time sleep dag_exists fuel t_end
              (sleep 15 (dag_exists s).1)
            ≡ some left)
          × IsLeft time dag_exists t_end left)
      → (left : Result Error (Unit {0}) × S) × (poll time sleep dag_exists (suc fuel) t_end s
          ≡ some left)
        × IsLeft time dag_exists t_end left
  unfolding poll polled
  looked fuel t_end s (ok true, after) e before next = (
    (ok tt, after),
    rw before
        (ap (λ r. polled r (poll time sleep dag_exists fuel t_end (sleep 15 (dag_exists s).1))) e),
    inr (s, e),
  )
  looked fuel t_end s (err raised, after) e before next = (
    (err raised, after),
    rw before
        (ap (λ r. polled r (poll time sleep dag_exists fuel t_end (sleep 15 (dag_exists s).1))) e),
    (s, e),
  )
  looked fuel t_end s (ok false, after) e before (left, ran, ends) = (
    left,
    rw before (
        ap (λ r. polled r (poll time sleep dag_exists fuel t_end (sleep 15 (dag_exists s).1))) e
        ∙ ran),
    ends,
  )

  poll_total :
      (fuel t_end : ℕ) (s : S)
      → t_end ≤ time s + fuel
      → (left : Result Error (Unit {0}) × S) × (poll time sleep dag_exists (suc fuel) t_end s
          ≡ some left)
        × IsLeft time dag_exists t_end left
  unfolding poll
  poll_total zero t_end s enough =
      ((ok tt, s), rw (over_by t_end (time s) enough) refl, inl (omega (arith, enough)))
  poll_total (suc fuel) t_end s enough =
      let after = (dag_exists s).1 in
      let awake = sleep 15 after in
      elim (Bool-cases (ltb (time s) t_end)) [
        | inr over ↦ ((ok tt, s), rw over refl, inl (ground (arith, over)))
        | inl before ↦ looked (suc fuel) t_end s (dag_exists s) refl before (
            poll_total fuel t_end awake (
              later (time s) (time after) (time awake) fuel t_end (onward s) (sleeps 15 after)
                enough))
      ]

-- Waiting for a DAG always ends. It raises what a look at the DAG raises; or it looks a last time, once
-- the time is over or right after a look that found the DAG, and returns if that finds the DAG, and
-- raises Exception if it does not. The clock goes on by what is slept, and does not go back.
pub wait_until_total :
    {S : Type 0} (time : S → ℕ) (sleep : ℕ → S → S) (dag_exists : Check S) (timeout_seconds : ℕ)
    (s : S)
    → ((n : ℕ) (s' : S) → time s' + n ≤ time (sleep n s'))
    → ((s' : S) → time s' ≤ time (dag_exists s').1)
    → (out : Result Error (Unit {0}) × S) × (wait_until time sleep dag_exists timeout_seconds s
        ≡ some out)
      × (HasRaised time dag_exists (time s + timeout_seconds) out
          ⊎ HasLooked time dag_exists (time s + timeout_seconds) out)
unfolding wait_until check_after require
wait_until_total {S = S} time sleep dag_exists timeout_seconds s sleeps onward = ended (
    poll_total time sleep dag_exists sleeps onward timeout_seconds (time s + timeout_seconds) s
      (omega arith))
  where
    ended :
        ((left : Result Error (Unit {0}) × S) × (poll time sleep dag_exists
              (suc timeout_seconds)
              (time s + timeout_seconds)
              s
            ≡ some left)
          × IsLeft time dag_exists (time s + timeout_seconds) left)
        → (out : Result Error (Unit {0}) × S) × (wait_until time sleep dag_exists timeout_seconds s
            ≡ some out)
          × (HasRaised time dag_exists (time s + timeout_seconds) out
              ⊎ HasLooked time dag_exists (time s + timeout_seconds) out)
    ended ((err e, last), ran, (before, raised)) =
        ((err e, last), rw ran refl, inl (e, before, refl, raised))
    ended ((ok _, last), ran, over) = (
      require exception dag_exists last,
      rw ran refl,
      demand-cases time dag_exists (time s + timeout_seconds) last (dag_exists last) refl over,
    )
