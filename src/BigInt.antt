-- ===== src/BigInt.antt =====
-- Integers of any size (bigint/BigInt.h): the representation, the constructors from machine
-- integers, and the tests. `nums_` has the digits to the base 2^32, the lowest first.
pub mod Digits
pub mod Mul
pub mod Sum
pub mod Division
pub mod Operators
pub mod Text
mod Tests
use old_tools.Common.{
  ℕ, zero, suc, ◌+◌, ◌-◌, ◌*◌, ◌/◌, ◌%◌, Bool, true, false, not, ◌&&◌, Option, none, some, List, [],
  ◌∷◌, ◌++◌, ◌==◌, ltb, leb, if◌then◌else◌, length, get_elem?, drop, ℤ, pos, negsuc,
}
use old_tools.Common.Run.{Run, done, fault, ◌>>=◌}

-- radix_
abbrev pub radix : ℕ
radix = 4294967296

-- What a `uint32_t` and a `uint64_t` keep of a number
abbrev pub u32 : ℕ → ℕ
u32 n = n % 4294967296

abbrev pub u64 : ℕ → ℕ
u64 n = n % 18446744073709551616

-- `sign_` is true for an integer that is not negative.
pub record BigInt : Type 0 where
  pub sign : Bool
  pub nums : List ℕ

-- The loop `while (that)` over a number below 2^64; a number with `fuel` halvings left ends first.
unfoldable pub digits : ℕ → ℕ → List ℕ
digits zero that = []
digits (suc fuel) that =
    let rest = digits fuel (that / radix) in if that == 0 then [] else that % radix ∷ rest

-- The digits of the constructor from `int64_t`, of the absolute value
unfoldable pub from_abs : ℕ → List ℕ
unfolding digits
from_abs that = if that == 0 then 0 ∷ [] else digits 3 that

-- BigInt(int64_t); `-that` overflows for the least one.
unfoldable pub from_int64 : ℤ → Run BigInt
unfolding from_abs
from_int64 (pos n) = done (record { sign = true; nums = from_abs n })
from_int64 (negsuc n) =
    if n == 9223372036854775807
    then fault
    else done (record { sign = false; nums = from_abs (suc n) })

-- BigInt(uint64_t)
unfoldable pub from_uint64 : ℕ → BigInt
from_uint64 that = record {
  sign = true;
  nums = if ltb radix that then that / radix ∷ that % radix ∷ [] else u32 that ∷ [];
}

-- `nums_[i]`
unfoldable pub digit_at : List ℕ → ℕ → Run ℕ
digit_at nums i = elim (get_elem? nums i) [ none ↦ fault | some d ↦ done d ]

unfoldable pub is_zero : BigInt → Bool
is_zero a = (length a.nums == 1) && (elim (get_elem? a.nums 0) [ none ↦ false | some d ↦ d == 0 ])

unfoldable pub is_negative : BigInt → Bool
is_negative a = not a.sign

unfoldable pub is_positive : BigInt → Bool
unfolding is_zero
is_positive a = a.sign && not (is_zero a)

unfoldable pub is_odd : BigInt → Run Bool
unfolding digit_at
is_odd a = do d ← digit_at a.nums 0; done (d % 2 == 1)

unfoldable pub is_even : BigInt → Run Bool
unfolding digit_at
is_even a = do d ← digit_at a.nums 0; done (d % 2 == 0)

-- `nums_.front()`, as the `int` that the two's complement gives
unfoldable pub to_int : BigInt → Run ℤ
unfolding digit_at
to_int a = do
  d ← digit_at a.nums 0
  done (if ltb d 2147483648 then pos d else negsuc (4294967295 - d))
