-- ===== src/Prelude/Int.antt =====
-- The values of a C++ `int`, as integers over the native numbers. `negsuc n` is -(n + 1).
use Prim.Native.Nat.{ℕ, zero, suc}
use mathlib.Core.Path.{◌≡◌, refl}
use mathlib.Core.Logic.{◌↔◌}
use mathlib.Core.Bool.{Bool, true, false}
use native.Mathlib.Omega.{arith}
use encrypted_transmission_d.Prelude.Tests.{ltb, eqb}

pub data ℤ : Type 0 where
  pos : ℕ → ℤ
  negsuc : ℕ → ℤ

-- `a == b`.
abbrev pub int_eq : ℤ → ℤ → Bool
int_eq (pos a) (pos b) = eqb a b
int_eq (pos a) (negsuc b) = false
int_eq (negsuc a) (pos b) = false
int_eq (negsuc a) (negsuc b) = eqb a b

-- `0 < a`; its negation is `a <= 0`.
abbrev pub is_positive : ℤ → Bool
is_positive (pos a) = ltb 0 a
is_positive (negsuc a) = false

-- `a < 0`.
abbrev pub is_negative : ℤ → Bool
is_negative (pos a) = false
is_negative (negsuc a) = true

-- `a > bound`, for a bound that is not negative.
abbrev pub exceeds : ℤ → ℕ → Bool
exceeds (pos a) bound = ltb bound a
exceeds (negsuc a) bound = false

-- The count that a positive integer is.
abbrev pub to_count : ℤ → ℕ
to_count (pos a) = a
to_count (negsuc a) = 0

-- `a + 1`, which does not wrap here.
abbrev pub increment : ℤ → ℤ
increment (pos a) = pos (suc a)
increment (negsuc zero) = pos 0
increment (negsuc (suc a)) = negsuc a

pub int_eq_iff : (a b : ℤ) → (int_eq a b ≡ true) ↔ (a ≡ b)
int_eq_iff (pos a) (pos b) = ground arith
int_eq_iff (pos a) (negsuc b) = ground arith
int_eq_iff (negsuc a) (pos b) = ground arith
int_eq_iff (negsuc a) (negsuc b) = ground arith

pub int_eq_refl : (a : ℤ) → int_eq a a ≡ true
int_eq_refl a = (int_eq_iff a a).1 refl
