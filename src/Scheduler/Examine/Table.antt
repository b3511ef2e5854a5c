-- ===== src/Scheduler/Examine/Table.antt =====
-- The task instance table in the loop of Scheduler/Examine: rows keep their place, and one that
-- changes stops being scheduled.
use beeflow.Prelude.{
  ℕ, ◌≡◌, refl, sym, ap, ◌∙◌, true, false, ◌&&◌, Option, none, some, List, [], ◌∷◌, String, arith,
  ◌==◌, string_eq, pair_eq, nat_eq, lookup, Bool-cases, inl, inr, ◌⊎◌, Option-cases, In,
}
use beeflow.Scheduler.Tables.{TaskInstance, PoolStats, Dag, is_scheduled, failed}
use beeflow.Scheduler.Query.{Row, rows}
use beeflow.Scheduler.World.{World}
use beeflow.Scheduler.Examine.{
  Round, take_ti, fail_scheduled, task_concurrency_limit, examine_limit, examine_concurrency,
  examine_pool, examine, examine_all,
}
use beeflow.Prelude.{and_inv}
use mathlib.Core.Path.{subst}
use beeflow.Prelude.{and_inv}
use mathlib.Core.Path.{subst}
use text.Mathlib.TextEquality.{eq_iff}

-- Row for row, the second table has the same task instance or one that is no longer scheduled.
abbrev pub Fades : List TaskInstance → List TaskInstance → Type 0
Fades [] [] = Unit
Fades (x ∷ xs) (y ∷ ys) = ((x ≡ y) ⊎ (is_scheduled y.state ≡ false)) × Fades xs ys
Fades _ _ = ⊥

-- A scheduled task instance whose DAG is missing, and what becomes of it.
pub record Lost (w : World) (x y : TaskInstance) : Type 0 where
  pub was_scheduled : is_scheduled x.state ≡ true
  pub no_dag : w.get_dag x.dag_id ≡ none
  pub now_failed : y ≡ record x { state = some failed }

-- Row for row, the second table has the same task instance, or has failed it for want of its DAG.
abbrev pub Changes : World → List TaskInstance → List TaskInstance → Type 0
Changes w [] [] = Unit
Changes w (x ∷ xs) (y ∷ ys) = ((x ≡ y) ⊎ Lost w x y) × Changes w xs ys
Changes w _ _ = ⊥

pub Changes-refl : (w : World) (tis : List TaskInstance) → Changes w tis tis
Changes-refl w [] = tt
Changes-refl w (ti ∷ tis) = (inl refl, Changes-refl w tis)

Lost-idle : {w : World} {x y : TaskInstance} → Lost w x y → is_scheduled y.state ≡ false
Lost-idle lost = ap (λ (t : TaskInstance). is_scheduled t.state) lost.now_failed

pub Changes-trans :
    (w : World) (xs ys zs : List TaskInstance) → Changes w xs ys → Changes w ys zs → Changes w xs zs
Changes-trans w [] [] [] h k = tt
Changes-trans w [] [] (z ∷ zs) h k = k
Changes-trans w [] (y ∷ ys) zs h k = elim h [ ]
Changes-trans w (x ∷ xs) [] zs h k = elim h [ ]
Changes-trans w (x ∷ xs) (y ∷ ys) [] h k = elim k [ ]
Changes-trans w (x ∷ xs) (y ∷ ys) (z ∷ zs) (h, hs) (k, ks) =
    (step h k, Changes-trans w xs ys zs hs ks)
  where
    step : (x ≡ y) ⊎ Lost w x y → (y ≡ z) ⊎ Lost w y z → (x ≡ z) ⊎ Lost w x z
    step (inl p) (inl q) = inl (p ∙ q)
    step (inl p) (inr lost) = inr (subst (λ t. Lost w t z) (sym p) lost)
    step (inr lost) (inl q) = inr (subst (λ t. Lost w x t) q lost)
    step (inr lost) (inr again) = cc (Lost-idle lost, again.was_scheduled)

pub Changes-Fades : (w : World) (xs ys : List TaskInstance) → Changes w xs ys → Fades xs ys
Changes-Fades w [] [] h = tt
Changes-Fades w [] (y ∷ ys) h = elim h [ ]
Changes-Fades w (x ∷ xs) [] h = elim h [ ]
Changes-Fades w (x ∷ xs) (y ∷ ys) (inl p, hs) = (inl p, Changes-Fades w xs ys hs)
Changes-Fades w (x ∷ xs) (y ∷ ys) (inr lost, hs) = (inr (Lost-idle lost), Changes-Fades w xs ys hs)

fail_scheduled-Changes :
    (w : World) (dag_id : String) (tis : List TaskInstance)
    → w.get_dag dag_id ≡ none
    → Changes w tis (fail_scheduled dag_id tis)
unfolding fail_scheduled
fail_scheduled-Changes w dag_id [] missing = tt
fail_scheduled-Changes w dag_id (ti ∷ tis) missing =
    elim (Bool-cases (ti.dag_id == dag_id && is_scheduled ti.state)) [
      | inl t ↦
          let both = and_inv t in
          rw t (
            inr (record {
              was_scheduled = both.1;
              no_dag = ap w.get_dag ((eq_iff ti.dag_id dag_id).0 both.0) ∙ missing;
              now_failed = refl;
            }),
            fail_scheduled-Changes w dag_id tis missing,
          )
      | inr f ↦ rw f (inl refl, fail_scheduled-Changes w dag_id tis missing)
    ]

examine_limit-tis :
    (ti : TaskInstance) (stats : PoolStats) (limit : Option ℕ) (s : Round)
    → (examine_limit ti stats limit s).tis ≡ s.tis
unfolding examine_limit take_ti
examine_limit-tis ti stats none s = refl
examine_limit-tis ti stats (some limit) s = ground arith

examine_concurrency-Changes :
    (w : World) (dag : Option Dag) (ti : TaskInstance) (stats : PoolStats) (s : Round)
    → w.get_dag ti.dag_id ≡ dag
    → Changes w s.tis (examine_concurrency dag ti stats s).tis
unfolding examine_concurrency
examine_concurrency-Changes w none ti stats s missing =
    fail_scheduled-Changes w ti.dag_id s.tis missing
examine_concurrency-Changes w (some dag) ti stats s found =
    rw (examine_limit-tis ti stats (task_concurrency_limit dag ti.task_id) s) (Changes-refl w s.tis)

examine_pool-Changes :
    (w : World) (row : Row) (stats : PoolStats) (s : Round)
    → Changes w s.tis (examine_pool w row stats s).tis
unfolding examine_pool
examine_pool-Changes w row stats s =
    let ti = row.ti in
    ground (
      arith,
      Changes-refl w s.tis,
      examine_concurrency-Changes w (w.get_dag ti.dag_id) ti stats s refl,
      examine_limit-tis ti stats none s,
    )

examine-Changes : (w : World) (row : Row) (s : Round) → Changes w s.tis (examine w row s).tis
unfolding examine
examine-Changes w row s = elim (Option-cases (lookup row.ti.pool s.pools)) [
  | inl missing ↦ rw (missing, examine) (Changes-refl w s.tis)
  | inr (stats, found) ↦ rw (found, examine) (examine_pool-Changes w row stats _)
]

pub examine_all-Changes :
    (w : World) (rows : List Row) (s : Round) → Changes w s.tis (examine_all w rows s).tis
unfolding examine_all
examine_all-Changes w [] s = Changes-refl w s.tis
examine_all-Changes w (row ∷ rows) s =
    Changes-trans w _ _ _ (examine-Changes w row s) (examine_all-Changes w rows (examine w row s))

pub examine_all-Fades :
    (w : World) (rows : List Row) (s : Round) → Fades s.tis (examine_all w rows s).tis
examine_all-Fades w rows s = Changes-Fades w _ _ (examine_all-Changes w rows s)

-- A row that is still scheduled is one of the first table.
pub In-Fades :
    (ti : TaskInstance) (xs ys : List TaskInstance)
    → Fades xs ys
    → is_scheduled ti.state ≡ true
    → In ti ys
    → In ti xs
In-Fades ti [] [] h k m = m
In-Fades ti [] (y ∷ ys) h k m = elim h [ ]
In-Fades ti (x ∷ xs) [] h k m = elim h [ ]
In-Fades ti (x ∷ xs) (y ∷ ys) (h, hs) k (inr m) = inr (In-Fades ti xs ys hs k m)
In-Fades ti (x ∷ xs) (y ∷ ys) (inl p, hs) k (inl e) = inl (e ∙ sym p)
In-Fades ti (x ∷ xs) (y ∷ ys) (inr gone, hs) k (inl e) =
    let still : is_scheduled y.state ≡ true =
      ap (λ (t : TaskInstance). is_scheduled t.state) (sym e) ∙ k in
    cc
