-- ===== src/Scheduler/CriticalSection/Rounds.antt =====
-- Rules for the rounds of the loop of Scheduler/CriticalSection, and for its outcome.
use beeflow.Prelude.{
  ℕ, zero, suc, ◌≡◌, refl, sym, true, false, Option, none, some, List, [], ◌∷◌, arith, nat_beq,
  nat_beq_iff, string_eq, pair_eq, nat_eq, min, Bool-cases, inl, inr, ◌⊎◌, some_inj,
}
use beeflow.Prelude.Result.{ok, ok_inj}
use beeflow.Scheduler.Tables.{TaskInstance, Database}
use beeflow.Scheduler.Query.{Row, rows, select}
use beeflow.Scheduler.World.{is_busy, World}
use beeflow.Scheduler.Examine.{Round, examine_all}
use mathlib.Core.Path.{subst}
use beeflow.Scheduler.CriticalSection.{
  is_nil, is_finished, loop, pool_slots_free, start_round, Outcome, finish, finish_loop,
  enough_fuel, executable_task_instances_to_queued,
}

abbrev pub table : Database → Round → Database
table db s = record db { task_instances = s.tis }

pub nothing_taken :
    (max_tis : ℕ) (rows : List Row) (s s' : Round)
    → is_finished max_tis rows s s' ≡ false
    → s'.executable_tis ≡ []
unfolding is_finished
nothing_taken max_tis rows s s' more = nil_of (s'.executable_tis) (ground arith)
  where
    nil_of : (tis : List TaskInstance) → is_nil tis ≡ true → tis ≡ []
    nil_of [] h = refl
    nil_of (x ∷ xs) h = cc

outcome_of_loop :
    (w : World) (db : Database) (out : Outcome) (o : Option Round)
    → finish_loop w db o ≡ some (ok out)
    → (last : Round) × (o ≡ some last) × (out ≡ finish w db last)
unfolding finish_loop
outcome_of_loop w db out none e = cc
outcome_of_loop w db out (some last) e = (last, refl, sym (ok_inj (some_inj e)))

module _ (w : World) (max_tis : ℕ) (db : Database) where
  abbrev pub examined : Round → List Row
  examined s = select w.row_locked max_tis (table db s) s.starved

  abbrev pub round : Round → Round
  round s = examine_all w (examined s) s

  -- What a round keeps, the loop keeps.
  pub loop_rule {κ} :
      (P : Round → Type κ)
      → ((s : Round) → P s → P (round s))
      → (fuel : ℕ) (s last : Round) → P s
      → loop w max_tis db fuel s ≡ some last
      → P last
  unfolding loop
  loop_rule P keep zero s last p e = cc
  loop_rule P keep (suc fuel) s last p e = elim (Bool-cases (is_nil (examined s))) [
    | inl none_left ↦ subst P (some_inj (rw none_left at e)) p
    | inr some_left ↦ elim (Bool-cases (is_finished max_tis (examined s) s (round s))) [
      | inl finished ↦ subst P (some_inj (rw (some_left, finished) at e)) (keep s p)
      | inr more ↦ loop_rule P keep fuel (round s) last (keep s p) (rw (some_left, more) at e)
    ]
  ]

  -- No round is made after one that takes something: each round but the last takes nothing.
  pub loop_once {κ} :
      (P : Round → Type κ)
      → ((s : Round) → s.executable_tis ≡ [] → P (round s))
      → ((s : Round) → s.executable_tis ≡ [] → P s)
      → (fuel : ℕ) (s last : Round) → s.executable_tis ≡ []
      → loop w max_tis db fuel s ≡ some last
      → P last
  unfolding loop
  loop_once P keep start zero s last p e = cc
  loop_once P keep start (suc fuel) s last p e = elim (Bool-cases (is_nil (examined s))) [
    | inl none_left ↦ subst P (some_inj (rw none_left at e)) (start s p)
    | inr some_left ↦ elim (Bool-cases (is_finished max_tis (examined s) s (round s))) [
      | inl finished ↦ subst P (some_inj (rw (some_left, finished) at e)) (keep s p)
      | inr more ↦
          loop_once P keep start fuel (round s) last
            (nothing_taken max_tis (examined s) s (round s) more) (rw (some_left, more) at e)
    ]
  ]

abbrev pub room : World → ℕ → Database → ℕ
room w max_tis db = min max_tis (pool_slots_free (w.slots_stats db))

-- An outcome is that of the loop, but where every pool is full: then nothing is done.
pub outcome_cases :
    (w : World) (max_tis : ℕ) (db : Database) (out : Outcome)
    → executable_task_instances_to_queued w max_tis db ≡ some (ok out)
    → ((out ≡ record { chosen = []; db = db; gauges = [] })
        × (pool_slots_free (w.slots_stats db) ≡ 0))
      ⊎ ((last : Round) × (loop w (room w max_tis db) db (enough_fuel db) (start_round w db)
            ≡ some last)
          × (out ≡ finish w db last))
unfolding executable_task_instances_to_queued
outcome_cases w max_tis db out e = elim (Bool-cases (is_busy w)) [
  | inl busy ↦ cc (rw busy at e)
  | inr held ↦ elim (Bool-cases (nat_beq (pool_slots_free (w.slots_stats db)) 0)) [
    | inl full ↦ inl (
      sym (ok_inj (some_inj (rw (held, full) at e))),
      (nat_beq_iff (pool_slots_free (w.slots_stats db)) 0).0 full,
    )
    | inr free ↦ inr (outcome_of_loop w db out _ (rw (held, free) at e))
  ]
]
