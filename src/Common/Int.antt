-- ===== src/Common/Int.antt =====
-- C's signed integers, where the code compares or returns a negative one.
use Prim.Native.Nat.{ℕ, zero, suc, ◌-◌, ◌*◌, compare, Ordering}
use mathlib.Core.Bool.{Bool, true, false}

-- `negsuc n` is -(n + 1).
pub data ℤ : Type 0 where
  pos : ℕ → ℤ
  negsuc : ℕ → ℤ

-- `a - b` of two natural numbers.
abbrev pub sub_ℕ : ℕ → ℕ → ℤ
sub_ℕ a b = elim (compare a b) [ Ordering.lt ↦ negsuc (b - a - 1) | _ ↦ pos (a - b) ]

-- `n`, or `-n` where the sign is false
abbrev pub signed : Bool → ℕ → ℤ
signed true n = pos n
signed false zero = pos 0
signed false (suc n) = negsuc n

infixl 7 ◌*ℤ◌
abbrev pub ◌*ℤ◌ : ℤ → ℤ → ℤ
pos m *ℤ pos n = pos (m * n)
pos m *ℤ negsuc n = signed false (m * suc n)
negsuc m *ℤ pos n = signed false (suc m * n)
negsuc m *ℤ negsuc n = pos (suc m * suc n)
