-- ===== src/Prelude/Int.antt =====
-- Signed integers over the native numbers.
use Prim.Native.Nat.{ℕ, suc, ◌+◌, ◌-◌}
use mathlib.Core.Path.{◌≡◌, ap}
use mathlib.Core.Logic.{◌↔◌}
use mathlib.Core.Bool.{Bool, true, false}
use native.Mathlib.Omega.{arith}
use beeflow.Prelude.Tests.{ltb, leb, nat_beq, nat_beq_iff, Eq, if◌then◌else◌}

-- `negsuc n` is -(n + 1).
pub data ℤ : Type 0 where
  pos : ℕ → ℤ
  negsuc : ℕ → ℤ

abbrev pub pos_part : ℤ → ℕ
pos_part (pos n) = n
pos_part (negsuc n) = 0

abbrev pub neg_part : ℤ → ℕ
neg_part (pos n) = 0
neg_part (negsuc n) = suc n

-- a - b, as an integer.
abbrev pub sub_ℕ : ℕ → ℕ → ℤ
sub_ℕ a b = if leb b a then pos (a - b) else negsuc (b - a - 1)

infixl 65 ◌-ℤ◌
unfoldable pub ◌-ℤ◌ : ℤ → ℤ → ℤ
a -ℤ b = sub_ℕ (pos_part a + neg_part b) (neg_part a + pos_part b)

abbrev pub ltb_ℤ : ℤ → ℤ → Bool
ltb_ℤ a b = ltb (pos_part a + neg_part b) (pos_part b + neg_part a)

abbrev pub leb_ℤ : ℤ → ℤ → Bool
leb_ℤ a b = leb (pos_part a + neg_part b) (pos_part b + neg_part a)

-- Taking what fits from a positive amount leaves the rest.
pub pos_part-sub :
    (a : ℤ) (n : ℕ) → ltb_ℤ a (pos n) ≡ false → pos_part (a -ℤ pos n) + n ≡ pos_part a
unfolding ◌-ℤ◌
pos_part-sub (pos m) n h = ground arith
pos_part-sub (negsuc m) n h = ground arith

abbrev pub int_agrees : ℤ → ℤ → Bool
int_agrees (pos a) (pos b) = nat_beq a b
int_agrees (negsuc a) (negsuc b) = nat_beq a b
int_agrees _ _ = false

pub int_agrees_iff : (a b : ℤ) → (int_agrees a b ≡ true) ↔ (a ≡ b)
int_agrees_iff (pos a) (pos b) =
    (λ h. ap pos ((nat_beq_iff a b).0 h), λ h. (nat_beq_iff a b).1 (ap pos_part h))
int_agrees_iff (negsuc a) (negsuc b) =
    (λ h. ap negsuc ((nat_beq_iff a b).0 h), λ h. ground (arith, ap neg_part h))
int_agrees_iff (pos a) (negsuc b) = (λ h. cc, λ h. cc)
int_agrees_iff (negsuc a) (pos b) = (λ h. cc, λ h. cc)

instance abbrev pub int_eq : Eq ℤ
int_eq = record { agrees = int_agrees; agrees_iff = int_agrees_iff }
