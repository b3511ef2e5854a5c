-- ===== src/Scheduler/CriticalSection/Progress/Ends.antt =====
-- `_executable_task_instances_to_queued` (lambdas/scheduler/scheduler_job.py, under src/python/beeflow)
-- queues nothing only where nothing can be queued.
use beeflow.Prelude.{
  ℕ, zero, suc, ◌≤◌, ◌≡◌, refl, sym, ap, ◌∙◌, true, some, List, [], ◌∷◌, String, arith, string_eq,
  pair_eq, nat_eq, lookup, In, Bool-cases, Option-cases, some_inj, inl, inr, ◌⊎◌, nat_beq,
  nat_beq_iff, ◌==◌, contains, contains-add, lookup-In,
}
use text.Mathlib.TextEquality.{eq_iff}
use beeflow.Prelude.Int.{pos, pos_part, leb_ℤ}
use beeflow.Prelude.Result.{ok}
use beeflow.Scheduler.Tables.{TaskInstance, PoolStats, Database}
use beeflow.Scheduler.Query.{Row}
use beeflow.Scheduler.World.{World}
use beeflow.Scheduler.Concurrency.Counts.{get_concurrency_maps_counts}
use beeflow.Scheduler.Examine.{Round}
use beeflow.Scheduler.Examine.Table.{Changes, Changes-refl, Changes-trans, examine_all-Changes}
use beeflow.Scheduler.CriticalSection.{
  is_nil, is_finished, loop, full_pools, pool_slots_free, start_round, Outcome, finish, enough_fuel,
  executable_task_instances_to_queued,
}
use beeflow.Scheduler.CriticalSection.Rounds.{examined, round, room, outcome_cases}
use beeflow.Scheduler.CriticalSection.Effect.{IsEligible}
use beeflow.Scheduler.CriticalSection.Progress.{full, unknown, Blocked}
use beeflow.Scheduler.CriticalSection.Progress.Still.{IsStill}
use beeflow.Scheduler.CriticalSection.Progress.Passed.{examine_all-Passed}
use beeflow.Scheduler.CriticalSection.Rounds.{nothing_taken}
use beeflow.Scheduler.CriticalSection.Progress.Waits.{
  nil_length, IsCrowded, few_rows, Found, few_round, full_round, queried, finished_cases,
}

abbrev HasFull : String → List (String × PoolStats) → Type 0
HasFull name pools =
    (stats : PoolStats) × In (name, stats) pools × (leb_ℤ stats.open_slots (pos 0) ≡ true)

further :
    (name : String) (p : String × PoolStats) (pools : List (String × PoolStats))
    → HasFull name pools
    → HasFull name (p ∷ pools)
further name p pools (stats, there, shut) = (stats, inr there, shut)

-- The pools that are starved from the start are full.
full_pools-full :
    (name : String) (pools : List (String × PoolStats))
    → contains name (full_pools pools) ≡ true
    → HasFull name pools
unfolding full_pools contains
full_pools-full name [] h = cc
full_pools-full name ((other, stats) ∷ pools) h =
    let later = λ (h : contains name (full_pools pools) ≡ true).
      further name (other, stats) pools (full_pools-full name pools h) in
    elim (Bool-cases (leb_ℤ stats.open_slots (pos 0))) [
      | inr f ↦ later (rw f at h)
      | inl t ↦ elim (Bool-cases (other == name)) [
        | inl same ↦ (stats, inl (ap (λ n. (n, stats)) (sym ((eq_iff other name).0 same))), t)
        | inr different ↦
            later (ground (arith, different, rw t at h, contains-add other name (full_pools pools)))
      ]
    ]

start_round-IsStill : (w : World) (db : Database) → IsStill w db (start_round w db)
unfolding start_round contains
start_round-IsStill w db = record {
  pools = refl;
  dags = λ dag_id.
      (get_concurrency_maps_counts w.in_execution_states db.task_instances dag_id
        (dag_id, dag_id)).0;
  tasks =
      λ task. (get_concurrency_maps_counts w.in_execution_states db.task_instances task.0 task).1;
  shut = record {
    pools = λ name h.
        let (stats, there, shut) = full_pools-full name (w.slots_stats db) h in
        full stats there shut;
    dags = λ dag_id h. cc;
    tasks = λ task h. cc;
  };
}

-- Where all pools are full, each is.
no_slots_free :
    (name : String) (stats : PoolStats) (pools : List (String × PoolStats))
    → In (name, stats) pools
    → pool_slots_free pools ≡ 0
    → leb_ℤ stats.open_slots (pos 0) ≡ true
unfolding pool_slots_free
no_slots_free name stats [] m h = absurd m
no_slots_free name stats (p ∷ pools) (inl e) h =
    ground (arith, h, ap (λ (q : String × PoolStats). pos_part q.1.open_slots) e)
no_slots_free name stats (p ∷ pools) (inr m) h = no_slots_free name stats pools m (omega (arith, h))

module _ (w : World) (max_tis : ℕ) (db : Database) (positive : 1 ≤ max_tis) (ti : TaskInstance)
    (eligible : IsEligible w db ti) where
  empty_query :
      (s : Round)
      → Changes w db.task_instances s.tis
      → IsStill w db s
      → is_nil (examined w max_tis db s) ≡ true
      → Blocked w db ti
  empty_query s changed still nothing =
      let none_left = nil_length (examined w max_tis db s) nothing in
      elim (few_rows w max_tis db ti eligible s changed still
        (omega (arith, none_left, positive))) [
          | inl blocked ↦ blocked
          | inr (row, _, returned) ↦ absurd (none_in row (examined w max_tis db s) nothing returned)
        ]
    where
      none_in : (x : Row) (xs : List Row) → is_nil xs ≡ true → In x xs → ⊥
      none_in x [] h m = m
      none_in x (y ∷ ys) h m = cc

  loop_Found :
      (fuel : ℕ) (s last : Round)
      → Changes w db.task_instances s.tis
      → IsStill w db s
      → s.executable_tis ≡ []
      → loop w max_tis db fuel s ≡ some last
      → last.executable_tis ≡ []
      → Found w max_tis db ti eligible
  unfolding loop
  loop_Found zero s last changed still start e end = cc
  loop_Found (suc fuel) s last changed still start e end =
      let rows = examined w max_tis db s in
      let s' = round w max_tis db s in
      let changed_after = Changes-trans w _ _ _ changed (examine_all-Changes w rows s) in
      elim (Bool-cases (is_nil rows)) [
        | inl none_left ↦ inl (empty_query s changed still none_left)
        | inr some_left ↦ elim (Bool-cases (is_finished max_tis rows s s')) [
          | inl finished ↦
              let nothing : s'.executable_tis ≡ [] =
                ap (λ (t : Round). t.executable_tis) (some_inj (rw (some_left, finished) at e))
                ∙ end in
              let (still_after, passed) =
                examine_all-Passed w db rows s (queried w max_tis db ti eligible s changed) still
                  start nothing in
              elim (finished_cases w max_tis db ti eligible s s' nothing finished) [
                | inl few ↦
                    few_round w max_tis db ti eligible s changed still still_after passed few
                | inr (enough, none_new) ↦
                    full_round w max_tis db ti eligible s positive changed passed enough none_new
              ]
          | inr more ↦
              let nothing = nothing_taken max_tis rows s s' more in
              let (still_after, _) =
                examine_all-Passed w db rows s (queried w max_tis db ti eligible s changed) still
                  start nothing in
              loop_Found fuel s' last changed_after still_after nothing (rw (some_left, more) at e)
                end
        ]
      ]

all_full-Blocked :
    (w : World) (db : Database) (ti : TaskInstance)
    → pool_slots_free (w.slots_stats db) ≡ 0
    → Blocked w db ti
all_full-Blocked w db ti all_full = elim (Option-cases (lookup ti.pool (w.slots_stats db))) [
  | inl missing ↦ inl (inl (unknown missing))
  | inr (stats, found) ↦
      let there = lookup-In ti.pool stats (w.slots_stats db) found in
      inl (inl (full stats there (no_slots_free ti.pool stats (w.slots_stats db) there all_full)))
]

-- If a critical section that looks for a task instance at all queues none, each eligible one is
-- blocked: its pool is full or unknown, its DAG or its task has as many active ones as it may, an
-- eligible one of its task is too big for its pool, or its DAG is missing. The one exception is a
-- table with as many scheduled task instances of missing DAGs as one query returns.
pub none_queued-Blocked :
    (w : World) (max_tis : ℕ) (db : Database) (out : Outcome) (ti : TaskInstance)
    → executable_task_instances_to_queued w max_tis db ≡ some (ok out)
    → out.chosen ≡ []
    → 1 ≤ max_tis
    → IsEligible w db ti
    → Blocked w db ti ⊎ IsCrowded w (room w max_tis db) db
unfolding finish start_round
none_queued-Blocked w max_tis db out ti e nothing positive eligible =
    elim (Bool-cases (nat_beq (pool_slots_free (w.slots_stats db)) 0)) [
      | inl none_free ↦ inl (all_full-Blocked w db ti ((nat_beq_iff _ 0).0 none_free))
      | inr free ↦ elim (outcome_cases w max_tis db out e) [
        | inl (_, all_full) ↦ inl (all_full-Blocked w db ti all_full)
        | inr (last, ran, settled) ↦
            loop_Found w (room w max_tis db) db (ground (arith, free, positive)) ti eligible
              (enough_fuel db) (start_round w db) last (Changes-refl w db.task_instances)
              (start_round-IsStill w db) refl ran
              (sym (ap (λ (o : Outcome). o.chosen) settled) ∙ nothing)
      ]
    ]
