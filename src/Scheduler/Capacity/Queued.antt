-- ===== src/Scheduler/Capacity/Queued.antt =====
-- What a critical section of lambdas/scheduler/scheduler_job.py (under src/python/beeflow) adds to
-- what the executing task instances take.
use beeflow.Prelude.{
  ℕ, ◌+◌, ◌≤◌, ◌≡◌, refl, sym, ap, ◌∙◌, false, ◌||◌, some, List, [], ◌∷◌, map, if◌then◌else◌,
  string_eq, nat_eq, All-imp, In, arith, inl, inr, ◌⊎◌, Bool-cases,
}
use beeflow.Prelude.Int.{int_eq}
use beeflow.Prelude.Result.{ok}
use beeflow.Scheduler.Tables.{TaskInstance, Database, same_key}
use beeflow.Scheduler.World.{World}
use beeflow.Scheduler.Examine.Table.{Lost}
use beeflow.Scheduler.CriticalSection.{
  is_among, mark_queued, Outcome, executable_task_instances_to_queued,
}
use beeflow.Scheduler.CriticalSection.Effect.{IsEligible, chosen-IsEligible, Settles, db-Settles}
use beeflow.Scheduler.ExecutorEvents.Handled.{IsKeyed}
use beeflow.Scheduler.Capacity.{Job, job_of, is_executing, load}
use beeflow.Scheduler.Capacity.Evolution.{same_key-job, IsKeyed-jobs}
use beeflow.Scheduler.Capacity.Among.{taken, where_of, among-le}

is_among-job :
    (chosen : List TaskInstance) (a b : TaskInstance)
    → job_of a ≡ job_of b
    → is_among chosen a ≡ is_among chosen b
unfolding is_among
is_among-job [] a b e = refl
is_among-job (c ∷ chosen) a b e =
    ap (λ t. t || is_among chosen a) (same_key-job c a c b refl e)
    ∙ ap (λ t. same_key c b || t) (is_among-job chosen a b e)

Lost-job : (w : World) (x y : TaskInstance) → Lost w x y → job_of y ≡ job_of x
Lost-job w x y lost = ap job_of lost.now_failed

Lost-idle : (w : World) (x y : TaskInstance) → Lost w x y → is_executing y.state ≡ false
Lost-idle w x y lost = ap (λ (t : TaskInstance). is_executing t.state) lost.now_failed

mark_queued-job :
    (w : World) (chosen : List TaskInstance) (ti : TaskInstance)
    → job_of (mark_queued w chosen ti) ≡ job_of ti
unfolding mark_queued
mark_queued-job w chosen ti = elim (Bool-cases (is_among chosen ti)) [
  | inl t ↦ rw t refl
  | inr f ↦ rw f refl
]

abbrev row_load : (Job → ℕ) → TaskInstance → ℕ
row_load g ti = if is_executing ti.state then g (job_of ti) else 0

mark_queued-load :
    (g : Job → ℕ) (w : World) (chosen : List TaskInstance) (ti : TaskInstance)
    → row_load g (mark_queued w chosen ti)
      ≤ row_load g ti + (if is_among chosen ti then g (job_of ti) else 0)
unfolding mark_queued
mark_queued-load g w chosen ti = elim (Bool-cases (is_among chosen ti)) [
  | inl t ↦ rw t (omega arith)
  | inr f ↦ rw f (omega arith)
]

settled_job : (w : World) (x mid : TaskInstance) → (x ≡ mid) ⊎ Lost w x mid → job_of mid ≡ job_of x
settled_job w x mid (inl same) = ap job_of (sym same)
settled_job w x mid (inr lost) = Lost-job w x mid lost

settled_load :
    (g : Job → ℕ) (w : World) (x mid : TaskInstance)
    → (x ≡ mid) ⊎ Lost w x mid
    → row_load g mid ≤ row_load g x
settled_load g w x mid (inl same) = omega (arith, ap (row_load g) same)
settled_load g w x mid (inr lost) =
    omega (arith, ap (λ b. if b then g (job_of mid) else 0) (Lost-idle w x mid lost))

Settles-jobs :
    (w : World) (chosen xs ys : List TaskInstance)
    → Settles w chosen xs ys
    → map job_of ys ≡ map job_of xs
Settles-jobs w chosen [] [] h = refl
Settles-jobs w chosen [] (y ∷ ys) h = absurd h
Settles-jobs w chosen (x ∷ xs) [] h = absurd h
Settles-jobs w chosen (x ∷ xs) (y ∷ ys) ((mid, before, marked), rest) =
    ap (λ j. j ∷ map job_of ys)
      (ap job_of marked ∙ mark_queued-job w chosen mid ∙ settled_job w x mid before)
    ∙ ap (λ js. job_of x ∷ js) (Settles-jobs w chosen xs ys rest)

Settles-load :
    (g : Job → ℕ) (w : World) (chosen xs ys : List TaskInstance)
    → Settles w chosen xs ys
    → load g ys ≤ load g xs + where_of g (is_among chosen) xs
Settles-load g w chosen [] [] h = omega arith
Settles-load g w chosen [] (y ∷ ys) h = absurd h
Settles-load g w chosen (x ∷ xs) [] h = absurd h
Settles-load g w chosen (x ∷ xs) (y ∷ ys) ((mid, before, marked), rest) =
    let same_job = settled_job w x mid before in
    omega (
      arith,
      ap (row_load g) marked,
      mark_queued-load g w chosen mid,
      ap (λ b. if b then g (job_of mid) else 0) (is_among-job chosen mid x same_job),
      ap (λ j. if is_among chosen x then g j else 0) same_job,
      settled_load g w x mid before,
      Settles-load g w chosen xs ys rest,
    )

-- A critical section adds no more than what it chooses takes, and the keys stay apart.
pub executable_task_instances_to_queued-load :
    (g : Job → ℕ) (w : World) (max_tis : ℕ) (db : Database) (out : Outcome)
    → IsKeyed db.task_instances
    → executable_task_instances_to_queued w max_tis db ≡ some (ok out)
    → (load g out.db.task_instances ≤ load g db.task_instances + taken g out.chosen)
      × IsKeyed out.db.task_instances
executable_task_instances_to_queued-load g w max_tis db out keyed e =
    let settled = (db-Settles w max_tis db out e).0 in
    let listed =
      All-imp _ (λ c. In c db.task_instances) (λ c (i : IsEligible w db c). i.listed) out.chosen
        (chosen-IsEligible w max_tis db out e) in
    (
      omega (
        arith,
        Settles-load g w out.chosen _ _ settled,
        among-le g out.chosen db.task_instances keyed listed,
      ),
      IsKeyed-jobs _ _ (Settles-jobs w out.chosen _ _ settled) keyed,
    )
