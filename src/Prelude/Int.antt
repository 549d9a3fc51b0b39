-- ===== src/Prelude/Int.antt =====
-- Signed integers over the native numbers; `negsuc n` is -(n + 1).
use rules_mkosi.Prelude.Tests.{leb, ltb, ◌==◌, if◌then◌else◌}
use Prim.Native.Nat.{ℕ, suc, ◌+◌, ◌-◌}
use mathlib.Core.Path.{◌≡◌}
use mathlib.Core.Bool.{Bool, ◌&&◌}
use native.Mathlib.Omega.{arith}

pub data ℤ : Type 0 where
  pos : ℕ → ℤ
  negsuc : ℕ → ℤ

abbrev pub pos_part : ℤ → ℕ
pos_part (pos n) = n
pos_part (negsuc n) = 0

abbrev pub neg_part : ℤ → ℕ
neg_part (pos n) = 0
neg_part (negsuc n) = suc n

-- a - b, as an integer.
abbrev pub sub_ℕ : ℕ → ℕ → ℤ
sub_ℕ a b = if leb b a then pos (a - b) else negsuc (b - a - 1)

infixl 65 ◌-ℤ◌
unfoldable pub ◌-ℤ◌ : ℤ → ℤ → ℤ
a -ℤ b = sub_ℕ (pos_part a + neg_part b) (neg_part a + pos_part b)

unfoldable pub neg : ℤ → ℤ
neg a = sub_ℕ (neg_part a) (pos_part a)

-- `a == b`, `a == 0`, `a < 0`, `0 < a`
unfoldable pub int_eq : ℤ → ℤ → Bool
int_eq a b = pos_part a == pos_part b && neg_part a == neg_part b

unfoldable pub is_zero : ℤ → Bool
is_zero a = pos_part a == 0 && neg_part a == 0

unfoldable pub is_neg : ℤ → Bool
is_neg a = ltb 0 (neg_part a)

unfoldable pub is_pos : ℤ → Bool
is_pos a = ltb 0 (pos_part a)

pub int_eq_comm : (a b : ℤ) → int_eq a b ≡ int_eq b a
unfolding int_eq
int_eq_comm a b = ground arith

pub neg-sub : (a b : ℤ) → neg (a -ℤ b) ≡ b -ℤ a
unfolding neg ◌-ℤ◌
neg-sub a b = ground arith

pub is_zero-neg : (a : ℤ) → is_zero (neg a) ≡ is_zero a
unfolding neg is_zero
is_zero-neg a = ground arith

pub is_zero-sub : (a b : ℤ) → is_zero (a -ℤ b) ≡ int_eq a b
unfolding is_zero ◌-ℤ◌ int_eq
is_zero-sub a b = ground arith
