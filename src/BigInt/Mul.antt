-- ===== src/BigInt/Mul.antt =====
-- Mul and Power (bigint/BigInt.h).
pub mod Laws
pub mod Power
use old_tools.Common.{
  ℕ, zero, suc, ◌+◌, ◌-◌, ◌*◌, ◌/◌, ◌%◌, ◌^◌, Bool, true, false, Option, none, some, List, [], ◌∷◌,
  ◌++◌, ◌==◌, if◌then◌else◌, length, get_elem?,
}
use old_tools.Common.Run.{Run, done, fault, ◌>>=◌}
use old_tools.BigInt.{radix, u32, u64, BigInt, is_zero}
use old_tools.BigInt.Digits.{zeros}

-- `nums_[i + thisCopy.nums_.size()] += carry`, at that digit and the ones above it
unfoldable pub add_carry : ℕ → List ℕ → Run (List ℕ)
add_carry zero nums = done nums
add_carry (suc carry) [] = fault
add_carry (suc carry) (d ∷ nums) = done (u32 (d + suc carry) ∷ nums)

-- The inner loop from `j` on: the digits of `thisCopy` from `j`, and of `nums_` from `i + j`
unfoldable pub mul_digit : ℕ → List ℕ → List ℕ → ℕ → Run (List ℕ)
unfolding add_carry
mul_digit y [] nums carry = add_carry carry nums
mul_digit y (x ∷ xs) [] carry = fault
mul_digit y (x ∷ xs) (d ∷ nums) carry = do
  let temp = u64 (u64 (u64 (y * x) + carry) + d)
  rest ← mul_digit y xs nums (u32 (temp / radix))
  done (temp % radix ∷ rest)

-- What a round leaves behind: the digit at `i`, which no later round reads, and the ones above
unfoldable pub keep_digit : List ℕ → (List ℕ → Run (List ℕ)) → Run (List ℕ)
keep_digit [] rounds = done []
keep_digit (d ∷ nums) rounds = rounds nums >>= λ rest. done (d ∷ rest)

-- The outer loop from `i` on: the digits of `that` and of `nums_` from `i`
unfoldable pub mul_rows : List ℕ → List ℕ → List ℕ → Run (List ℕ)
unfolding mul_digit keep_digit
mul_rows [] xs nums = done nums
mul_rows (y ∷ ys) xs nums = do row ← mul_digit y xs nums 0; keep_digit row (mul_rows ys xs)

-- `if (nums_.back() == 0) nums_.pop_back();`
unfoldable pub pop_zero : List ℕ → Run (List ℕ)
pop_zero [] = fault
pop_zero (d ∷ []) = done (if d == 0 then [] else d ∷ [])
pop_zero (d ∷ e ∷ ds) = pop_zero (e ∷ ds) >>= λ rest. done (d ∷ rest)

unfoldable pub mul : List ℕ → List ℕ → Run (List ℕ)
unfolding mul_rows pop_zero
mul nums that = do
  product ← mul_rows that nums (zeros (length nums + length that))
  pop_zero product

-- `while (backNum) { backNum >>= 1; ret++; }` over a number below `2 ^ fuel`
unfoldable pub bit_length : ℕ → ℕ → ℕ
bit_length zero n = 0
bit_length (suc fuel) n = let rest = bit_length fuel (n / 2) in if n == 0 then 0 else suc rest

-- GetTotalBits
unfoldable pub total_bits : List ℕ → Run ℕ
unfolding bit_length
total_bits [] = fault
total_bits (d ∷ []) = done (bit_length 64 d)
total_bits (d ∷ e ∷ ds) = total_bits (e ∷ ds) >>= λ n. done (32 + n)

-- TestBit
unfoldable pub test_bit : List ℕ → ℕ → Bool
test_bit nums bits = elim (get_elem? nums (bits / 32)) [
  | none ↦ false
  | some d ↦ d / 2 ^ (bits % 32) % 2 == 1
]

-- The loop of Power from `i` on, with `rounds` of it left: `*this` and `t`
unfoldable pub power_loop : ℕ → List ℕ → ℕ → List ℕ → List ℕ → Run (List ℕ)
unfolding mul test_bit
power_loop zero n i this t = done this
power_loop (suc rounds) n i this t = do
  this' ← (if test_bit n i then mul this t else done this)
  t' ← mul t t
  power_loop rounds n (i + 1) this' t'

-- Power; the sign is that of BigInt(1) where the loop runs or `n` is zero.
unfoldable pub power : List ℕ → BigInt → Run (List ℕ)
unfolding total_bits power_loop is_zero
power nums n =
    if is_zero n
    then done (1 ∷ [])
    else (total_bits n.nums >>= λ rounds. power_loop rounds n.nums 0 (1 ∷ []) nums)
