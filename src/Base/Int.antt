-- ===== src/Base/Int.antt =====
-- Go's signed `int` and `int64`, unbounded, with the comparisons that the code makes.
use Prim.Native.Nat.{ℕ, ◌≤◌, ◌<◌}
use mathlib.Core.Path.{◌≡◌, refl}
use mathlib.Core.Logic.{◌↔◌}
use mathlib.Core.Bool.{Bool, true, false, not}
use native.Mathlib.Omega.{arith}
use unlock_catalog_publisher.Base.Tests.{ltb, eqb}

-- `negsuc n` is -(n + 1).
pub data ℤ : Type 0 where
  pos : ℕ → ℤ
  negsuc : ℕ → ℤ

-- `a < b`
abbrev pub int_lt : ℤ → ℤ → Bool
int_lt (pos a) (pos b) = ltb a b
int_lt (pos a) (negsuc b) = false
int_lt (negsuc a) (pos b) = true
int_lt (negsuc a) (negsuc b) = ltb b a

-- `a <= b`
abbrev pub int_le : ℤ → ℤ → Bool
int_le a b = not (int_lt b a)

-- `a == b`
abbrev pub int_eq : ℤ → ℤ → Bool
int_eq (pos a) (pos b) = eqb a b
int_eq (negsuc a) (negsuc b) = eqb a b
int_eq _ _ = false

pub int_eq_iff : (a b : ℤ) → (int_eq a b ≡ true) ↔ (a ≡ b)
int_eq_iff (pos a) (pos b) = ground arith
int_eq_iff (pos a) (negsuc b) = ground arith
int_eq_iff (negsuc a) (pos b) = ground arith
int_eq_iff (negsuc a) (negsuc b) = ground arith

-- A value in `0 < a <= m` is a natural number in that range.
pub in_range :
    (a : ℤ) (m : ℕ)
    → int_le a (pos 0) ≡ false
    → int_lt (pos m) a ≡ false
    → (n : ℕ) × (a ≡ pos n) × (0 < n) × (n ≤ m)
in_range (pos n) m h k = (n, refl, ground arith, ground arith)
in_range (negsuc n) m h k = cc
