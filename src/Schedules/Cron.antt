-- ===== src/Schedules/Cron.antt =====
-- Which schedules Schedules turns into a cron expression.
use Prim.Native.Char.{code}
use beeflow.Prelude.{
  ℕ, ◌+◌, suc, ◌≡◌, ◌≤◌, ◌<◌, ◌⊎◌, ap, ◌∙◌, refl, false, List, [], ◌∷◌, String, if◌then◌else◌, leb,
  nat_beq, nat_beq_iff, length, arith, inl, inr, Bool-cases,
}
use beeflow.Prelude.Result.{ok, err}
use beeflow.Events.Json.{value_error}
use beeflow.Schedules.{cron, without, add_first, split, aws_cron, from_airflow_schedule_to_aws_cron}

-- How many spaces a text has.
abbrev pub spaces : String → ℕ
spaces String.[] = 0
spaces (String.◌∷◌ c s) = (if nat_beq (code c) 32 then 1 else 0) + spaces s

length-add_first :
    (c : String) (parts : List String)
    → length (add_first c parts) ≡ (if leb 1 (length parts) then length parts else 1)
unfolding add_first
length-add_first c [] = refl
length-add_first c (part ∷ parts) = ground arith

length-split : (s : String) → length (split s) ≡ suc (spaces s)
unfolding split
length-split String.[] = refl
length-split (String.◌∷◌ c s) = elim (Bool-cases (nat_beq (code c) 32)) [
  | inl space ↦ rw space (omega (arith, length-split s))
  | inr other ↦
      rw other (ground (arith, length-split s, length-add_first (String.◌∷◌ c String.[]) (split s)))
]

spaces-without : (d : ℕ) (s : String) → nat_beq d 32 ≡ false → spaces (without d s) ≡ spaces s
unfolding without
spaces-without d String.[] h = refl
spaces-without d (String.◌∷◌ c s) h = elim (Bool-cases (nat_beq (code c) d)) [
  | inl dropped ↦ rw dropped (ground (arith, spaces-without d s h, nat_beq_iff (code c) d))
  | inr kept ↦ rw kept (omega (arith, spaces-without d s h))
]

-- A list of five parts or more has an expression; any other is a ValueError.
aws_cron-cases :
    (parts : List String)
    → ((5 ≤ length parts) × (expression : String) × (aws_cron parts ≡ ok expression))
      ⊎ ((length parts < 5) × (aws_cron parts ≡ err value_error))
unfolding aws_cron
aws_cron-cases [] = inr (omega arith, refl)
aws_cron-cases (a ∷ []) = inr (omega arith, refl)
aws_cron-cases (a ∷ b ∷ []) = inr (omega arith, refl)
aws_cron-cases (a ∷ b ∷ c ∷ []) = inr (omega arith, refl)
aws_cron-cases (a ∷ b ∷ c ∷ d ∷ []) = inr (omega arith, refl)
aws_cron-cases (a ∷ b ∷ c ∷ d ∷ e ∷ rest) = inl (omega arith, _, refl)

-- A text of at least four spaces is turned into some expression; a text of fewer is a ValueError.
pub from_airflow_schedule_to_aws_cron_lem :
    (s : String)
    → ((4 ≤ spaces s)
        × (expression : String) × (from_airflow_schedule_to_aws_cron (cron s) ≡ ok expression))
      ⊎ ((spaces s < 4) × (from_airflow_schedule_to_aws_cron (cron s) ≡ err value_error))
unfolding from_airflow_schedule_to_aws_cron
from_airflow_schedule_to_aws_cron_lem s =
    let bare = without 92 (without 34 s) in
    let parts : length (split bare) ≡ suc (spaces s) =
      length-split bare
      ∙ ap suc (spaces-without 92 (without 34 s) refl ∙ spaces-without 34 s refl) in
    elim (aws_cron-cases (split bare)) [
      | inl (enough, expression, built) ↦ inl (omega (arith, enough, parts), expression, built)
      | inr (few, raised) ↦ inr (omega (arith, few, parts), raised)
    ]
