-- ===== src/Common/Int.antt =====
-- Go's signed integers, as the values that they stand for.
use Prim.Native.Nat.{ℕ, suc, ◌+◌, ◌-◌, ◌^◌}
use mathlib.Core.Logic.{◌↔◌}
use mathlib.Core.Path.{◌≡◌}
use mathlib.Core.Bool.{Bool, true, false}
use accel_proxy.Common.Tests.{
  Eq, bool_eq, if◌then◌else◌, leb, ltb, nat_beq, nat_eq, pair_eq, string_eq,
}
use native.Mathlib.Omega.{arith}

-- `negsuc n` is -(n + 1).
pub data ℤ : Type 0 where
  pos : ℕ → ℤ
  negsuc : ℕ → ℤ

-- a < b
abbrev pub ltz : ℤ → ℤ → Bool
ltz (pos a) (pos b) = ltb a b
ltz (pos a) (negsuc b) = false
ltz (negsuc a) (pos b) = true
ltz (negsuc a) (negsuc b) = ltb b a

-- a == 0
abbrev pub is_zero : ℤ → Bool
is_zero (pos a) = nat_beq a 0
is_zero (negsuc a) = false

pub ltz_trans : (a b c : ℤ) → ltz b a ≡ false → ltz c b ≡ false → ltz c a ≡ false
ltz_trans (pos a) (pos b) (pos c) h k = ground arith
ltz_trans (pos a) (pos b) (negsuc c) h k = cc
ltz_trans (pos a) (negsuc b) (pos c) h k = cc
ltz_trans (pos a) (negsuc b) (negsuc c) h k = cc
ltz_trans (negsuc a) (pos b) (pos c) h k = ground arith
ltz_trans (negsuc a) (pos b) (negsuc c) h k = cc
ltz_trans (negsuc a) (negsuc b) (pos c) h k = ground arith
ltz_trans (negsuc a) (negsuc b) (negsuc c) h k = ground arith

pub ltz_asymm : (a b : ℤ) → ltz a b ≡ true → ltz b a ≡ false
ltz_asymm (pos a) (pos b) h = ground arith
ltz_asymm (pos a) (negsuc b) h = cc
ltz_asymm (negsuc a) (pos b) h = ground arith
ltz_asymm (negsuc a) (negsuc b) h = ground arith

-- a - b of two numbers that are not negative
abbrev pub sub_ℕ : ℕ → ℕ → ℤ
sub_ℕ a b = if leb b a then pos (a - b) else negsuc (b - a - 1)

abbrev pub pos_part : ℤ → ℕ
pos_part (pos n) = n
pos_part (negsuc n) = 0

abbrev pub neg_part : ℤ → ℕ
neg_part (pos n) = 0
neg_part (negsuc n) = suc n

infixl 65 ◌+ℤ◌ ◌-ℤ◌
abbrev pub ◌+ℤ◌ : ℤ → ℤ → ℤ
a +ℤ b = sub_ℕ (pos_part a + pos_part b) (neg_part a + neg_part b)

abbrev pub ◌-ℤ◌ : ℤ → ℤ → ℤ
a -ℤ b = sub_ℕ (pos_part a + neg_part b) (neg_part a + pos_part b)

-- An `int32` from its bit pattern.
abbrev pub signed32 : ℕ → ℤ
signed32 w = if ltb w (2 ^ 31) then pos w else negsuc (2 ^ 32 - w - 1)

-- a == b
abbrev int_beq : ℤ → ℤ → Bool
int_beq (pos a) (pos b) = nat_beq a b
int_beq (pos a) (negsuc b) = false
int_beq (negsuc a) (pos b) = false
int_beq (negsuc a) (negsuc b) = nat_beq a b

pub int_beq_iff : (a b : ℤ) → (int_beq a b ≡ true) ↔ (a ≡ b)
int_beq_iff (pos a) (pos b) = ground arith
int_beq_iff (pos a) (negsuc b) = ground arith
int_beq_iff (negsuc a) (pos b) = ground arith
int_beq_iff (negsuc a) (negsuc b) = ground arith

instance abbrev pub int_eq : Eq ℤ
int_eq = record { beq = int_beq; beq_iff = int_beq_iff }
