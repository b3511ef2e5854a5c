-- ===== src/Scheduler/Capacity/Evolution.antt =====
-- What changes outside a critical section come to.
use beeflow.Prelude.{
  ℕ, ◌≤◌, ◌≡◌, map, refl, ap, ◌∙◌, true, false, ◌&&◌, List, [], ◌∷◌, if◌then◌else◌, ◌==◌, string_eq,
  nat_eq, All, arith, inl, inr, Bool-cases,
}
use beeflow.Prelude.Int.{int_eq}
use beeflow.Scheduler.Tables.{TaskInstance, same_key}
use beeflow.Scheduler.ExecutorEvents.Handled.{IsKeyed}
use beeflow.Scheduler.Capacity.{Job, job_of, is_executing, load, Evolves, done, change, come, go}

-- Nothing that changes outside a critical section takes more of a capacity.
pub load-Evolves : (g : Job → ℕ) (xs ys : List TaskInstance) → Evolves xs ys → load g ys ≤ load g xs
load-Evolves g _ _ done = omega arith
load-Evolves g _ _ (change {x} {y} {xs} {ys} stays rest) =
    elim (Bool-cases (is_executing y.state)) [
      | inl executes ↦
          let (before, same) = stays executes in
          let kept = ap g same in ground (arith, kept, before, executes, load-Evolves g xs ys rest)
      | inr idle ↦
          omega (arith, ap (λ b. if b then g (job_of y) else 0) idle, load-Evolves g xs ys rest)
    ]
load-Evolves g _ _ (come {y} {xs} {ys} idle rest) =
    omega (arith, ap (λ b. if b then g (job_of y) else 0) idle, load-Evolves g xs ys rest)
load-Evolves g _ _ (go {x} {xs} {ys} rest) = omega (arith, load-Evolves g xs ys rest)

pub Evolves-refl : (tis : List TaskInstance) → Evolves tis tis
Evolves-refl [] = done
Evolves-refl (ti ∷ tis) = change (λ h. (h, refl)) (Evolves-refl tis)

still_idle :
    (x y : TaskInstance)
    → is_executing x.state ≡ false
    → (is_executing y.state ≡ true → (is_executing x.state ≡ true) × (job_of y ≡ job_of x))
    → is_executing y.state ≡ false
still_idle x y idle keeps = elim (Bool-cases (is_executing y.state)) [
  | inl executes ↦ let before = (keeps executes).0 in cc
  | inr still ↦ still
]

pub Evolves-trans : (xs ys zs : List TaskInstance) → Evolves xs ys → Evolves ys zs → Evolves xs zs
Evolves-trans _ _ zs done second = second
Evolves-trans _ _ zs (go first) second = go (Evolves-trans _ _ zs first second)
Evolves-trans _ _ _ first (come idle second) = come idle (Evolves-trans _ _ _ first second)
Evolves-trans _ _ _ (change stays first) (change keeps second) =
    change
      (λ h. let (was, again) = keeps h in let (before, same) = stays was in (before, again ∙ same))
      (Evolves-trans _ _ _ first second)
Evolves-trans _ _ zs (change stays first) (go second) = go (Evolves-trans _ _ zs first second)
Evolves-trans _ _ _ (come {y} idle first) (change {y = z} keeps second) =
    come (still_idle y z idle keeps) (Evolves-trans _ _ _ first second)
Evolves-trans _ _ zs (come idle first) (go second) = Evolves-trans _ _ zs first second

-- Whether two rows have one key depends on what they keep.
pub same_key-job :
    (a b x y : TaskInstance)
    → job_of a ≡ job_of x
    → job_of b ≡ job_of y
    → same_key a b ≡ same_key x y
same_key-job a b x y p q =
    ap
      (λ (j : Job).
        j.dag_id == b.dag_id
        && j.task_id == b.task_id
        && j.run_id == b.run_id
        && j.map_index == b.map_index)
      p
    ∙ ap
        (λ (j : Job).
          x.dag_id == j.dag_id
          && x.task_id == j.task_id
          && x.run_id == j.run_id
          && x.map_index == j.map_index)
        q

head_eq : {x y : Job} {xs ys : List Job} → x ∷ xs ≡ y ∷ ys → x ≡ y
head_eq e = cc

tail_eq : {x y : Job} {xs ys : List Job} → x ∷ xs ≡ y ∷ ys → xs ≡ ys
tail_eq e = cc

same_keys-jobs :
    (a x : TaskInstance) (bs ys : List TaskInstance)
    → job_of a ≡ job_of x
    → map job_of bs ≡ map job_of ys
    → All (λ y. same_key x y ≡ false) ys
    → All (λ b. same_key a b ≡ false) bs
same_keys-jobs a x [] ys p q apart = tt
same_keys-jobs a x (b ∷ bs) [] p q apart = cc
same_keys-jobs a x (b ∷ bs) (y ∷ ys) p q apart =
    (same_key-job a b x y p (head_eq q) ∙ apart.0, same_keys-jobs a x bs ys p (tail_eq q) apart.1)

-- Rows that keep what they are keep their keys apart.
pub IsKeyed-jobs :
    (xs ys : List TaskInstance) → map job_of ys ≡ map job_of xs → IsKeyed xs → IsKeyed ys
IsKeyed-jobs xs [] q keyed = tt
IsKeyed-jobs [] (y ∷ ys) q keyed = cc
IsKeyed-jobs (x ∷ xs) (y ∷ ys) q keyed = (
  same_keys-jobs y x ys xs (head_eq q) (tail_eq q) keyed.0,
  IsKeyed-jobs xs ys (tail_eq q) keyed.1,
)
