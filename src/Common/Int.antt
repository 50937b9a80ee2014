-- ===== src/Common/Int.antt =====
-- Signed integers over the native numbers, under the library's names: `negsuc n` is -(n + 1).
use Prim.Native.Nat.{ℕ, zero, suc}
use mathlib.Core.Path.{◌≡◌, ap}
use mathlib.Core.Bool.{Bool, true, false}
use android_packages_modules.Common.Tests.{◌==◌, ==→eq}

pub data ℤ : Type 0 where
  pos negsuc : ℕ → ℤ

-- The negation of a natural number.
abbrev pub negate : ℕ → ℤ
negate zero = pos 0
negate (suc n) = negsuc n

-- `==`
abbrev pub int_eq : ℤ → ℤ → Bool
int_eq (pos a) (pos b) = a == b
int_eq (negsuc a) (negsuc b) = a == b
int_eq (pos a) (negsuc b) = false
int_eq (negsuc a) (pos b) = false

pub int_eq→eq : (a b : ℤ) → int_eq a b ≡ true → a ≡ b
int_eq→eq (pos a) (pos b) h = ap pos (==→eq a b h)
int_eq→eq (negsuc a) (negsuc b) h = ap negsuc (==→eq a b h)
int_eq→eq (pos a) (negsuc b) h = cc h
int_eq→eq (negsuc a) (pos b) h = cc h
