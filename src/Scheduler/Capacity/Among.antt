-- ===== src/Scheduler/Capacity/Among.antt =====
-- What the rows of a table take that are among the task instances that a critical section of
-- lambdas/scheduler/scheduler_job.py (under src/python/beeflow) chooses.
use beeflow.Prelude.{
  ℕ, ◌+◌, ◌≤◌, ◌≡◌, refl, sym, ap, ◌∙◌, Bool, true, false, ◌||◌, List, [], ◌∷◌, if◌then◌else◌,
  string_eq, nat_eq, All, In, All-In, sum_by, arith, inl, inr,
}
use text.Mathlib.TextEquality.{eq_iff}
use mathlib.Core.Path.{subst}
use beeflow.Prelude.Int.{int_eq, int_agrees_iff}
use beeflow.Scheduler.Tables.{TaskInstance, same_key}
use beeflow.Scheduler.CriticalSection.{is_among}
use beeflow.Scheduler.ExecutorEvents.Handled.{IsKeyed}
use beeflow.Scheduler.Capacity.{Job, job_of}

same_key_refl : (a : TaskInstance) → same_key a a ≡ true
same_key_refl a = ground (
  arith,
  eq_iff a.dag_id a.dag_id,
  eq_iff a.task_id a.task_id,
  eq_iff a.run_id a.run_id,
  int_agrees_iff a.map_index a.map_index,
)

same_key_sym : (a b : TaskInstance) → same_key a b ≡ false → same_key b a ≡ false
same_key_sym a b h = ground (
  arith,
  eq_iff a.dag_id b.dag_id,
  eq_iff a.task_id b.task_id,
  eq_iff a.run_id b.run_id,
  int_agrees_iff a.map_index b.map_index,
  eq_iff b.dag_id a.dag_id,
  eq_iff b.task_id a.task_id,
  eq_iff b.run_id a.run_id,
  int_agrees_iff b.map_index a.map_index,
)

-- What the task instances of a list take.
abbrev pub taken : (Job → ℕ) → List TaskInstance → ℕ
taken g tis = sum_by (λ ti. g (job_of ti)) tis

-- What the rows of a table take that pass a test.
abbrev pub where_of : (Job → ℕ) → (TaskInstance → Bool) → List TaskInstance → ℕ
where_of g p tis = sum_by (λ ti. if p ti then g (job_of ti) else 0) tis

module _ (g : Job → ℕ) where
  none_same :
      (c : TaskInstance) (tis : List TaskInstance)
      → All (λ other. same_key c other ≡ false) tis
      → where_of g (same_key c) tis ≡ 0
  none_same c [] h = refl
  none_same c (ti ∷ tis) h =
      omega (arith, ap (λ b. if b then g (job_of ti) else 0) h.0, none_same c tis h.1)

  -- A row of the table is the only one of its key.
  one_same :
      (c : TaskInstance) (tis : List TaskInstance)
      → IsKeyed tis
      → In c tis
      → where_of g (same_key c) tis ≡ g (job_of c)
  one_same c [] keyed m = absurd m
  one_same c (ti ∷ tis) keyed (inl e) =
      let itself : same_key c ti ≡ true = ap (same_key c) (sym e) ∙ same_key_refl c in
      let apart = subst (λ a. All (λ other. same_key a other ≡ false) tis) (sym e) keyed.0 in
      omega (
        arith,
        ap (λ b. if b then g (job_of ti) else 0) itself,
        ap (λ t. g (job_of t)) e,
        none_same c tis apart,
      )
  one_same c (ti ∷ tis) keyed (inr m) =
      let other = same_key_sym ti c (All-In (λ o. same_key ti o ≡ false) c tis keyed.0 m) in
      omega (arith, ap (λ b. if b then g (job_of ti) else 0) other, one_same c tis keyed.1 m)

  where_of-or :
      (p q : TaskInstance → Bool) (tis : List TaskInstance)
      → where_of g (λ ti. p ti || q ti) tis ≤ where_of g p tis + where_of g q tis
  where_of-or p q [] = omega arith
  where_of-or p q (ti ∷ tis) = ground (arith, where_of-or p q tis)

  -- The rows that are among some rows of the table take no more than those.
  pub among-le :
      (chosen tis : List TaskInstance)
      → IsKeyed tis
      → All (λ c. In c tis) chosen
      → where_of g (is_among chosen) tis ≤ taken g chosen
  unfolding is_among
  among-le [] tis keyed listed = nothing tis
    where
      nothing : (tis : List TaskInstance) → where_of g (λ ti. false) tis ≤ 0
      nothing [] = omega arith
      nothing (ti ∷ tis) = omega (arith, nothing tis)
  among-le (c ∷ chosen) tis keyed listed = omega (
    arith,
    where_of-or (same_key c) (is_among chosen) tis,
    one_same c tis keyed listed.0,
    among-le chosen tis keyed listed.1,
  )
