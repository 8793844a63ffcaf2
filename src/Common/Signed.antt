-- ===== src/Common/Signed.antt =====
-- Signed machine integers (`int`, `ssize_t`): a sign and a native number.
use Prim.Native.Nat.{ℕ, ◌-◌, ◌^◌, ◌<◌}
use mathlib.Core.Path.{◌≡◌}
use mathlib.Core.Bool.{Bool, true, false}
use native.Mathlib.Omega.{arith}
use rr_python.Common.Tests.{ltb, ◌==◌, if◌then◌else◌}

-- `negsuc n` is -(n + 1).
pub data ℤ : Type 0 where
  pos : ℕ → ℤ
  negsuc : ℕ → ℤ

infix 50 ◌==ℤ◌
abbrev pub ◌==ℤ◌ : ℤ → ℤ → Bool
pos a ==ℤ pos b = a == b
pos a ==ℤ negsuc b = false
negsuc a ==ℤ pos b = false
negsuc a ==ℤ negsuc b = a == b

-- The conversion of an `unsigned long` to a signed 64-bit value, and back.
abbrev pub to_signed : ℕ → ℤ
to_signed x = if ltb x (2 ^ 63) then pos x else negsuc (2 ^ 64 - 1 - x)

abbrev pub to_unsigned : ℤ → ℕ
to_unsigned (pos n) = n
to_unsigned (negsuc n) = 2 ^ 64 - 1 - n

pub ==ℤ-refl : (z : ℤ) → (z ==ℤ z) ≡ true
==ℤ-refl (pos a) = ground arith
==ℤ-refl (negsuc a) = ground arith

pub to_unsigned-to_signed : (x : ℕ) → x < 2 ^ 64 → to_unsigned (to_signed x) ≡ x
to_unsigned-to_signed x h = ground arith

pub to_signed-pos : (x : ℕ) → x < 2 ^ 63 → to_signed x ≡ pos x
to_signed-pos x h = ground arith
