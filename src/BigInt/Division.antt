-- ===== src/BigInt/Division.antt =====
-- Div (bigint/BigInt.h), for a divisor that is not the number itself.
pub mod Digit
use old_tools.Common.{
  ℕ, zero, suc, ◌+◌, ◌-◌, ◌*◌, ◌/◌, Bool, true, false, ◌&&◌, Option, none, some, List, [], ◌∷◌,
  ◌==◌, ltb, leb, if◌then◌else◌, length,
}
use old_tools.Common.Run.{Run, done, fault, ◌>>=◌}
use old_tools.BigInt.{radix, u32, u64, from_uint64, digit_at}
use old_tools.BigInt.Mul.{mul}
use old_tools.BigInt.Sum.{add, sub, compare_no_sign, shift_left}

-- `nums_.back()`
unfoldable pub back : List ℕ → Run ℕ
back [] = fault
back (d ∷ []) = done d
back (d ∷ e ∷ ds) = back (e ∷ ds)

-- `div`, with the next digit where the first one is too small, and the `len` that goes with it
unfoldable pub leading : List ℕ → ℕ → ℕ → ℕ → Run (ℕ × ℕ)
unfolding digit_at
leading nums div num len =
    if leb div num && ltb 0 len
    then (digit_at nums (length nums - 2) >>= λ d. done (u64 (div * radix + d), len - 1))
    else done (div, len)

-- `multi`, what a round subtracts so many times
unfoldable pub multiple : ℕ → ℕ → ℕ → List ℕ
unfolding from_uint64 shift_left
multiple div num len = shift_left (from_uint64 (div / (num + 1))).nums (u32 len)

-- `rest.Add(BigInt(1)); Sub(that); break;`
unfoldable pub last_round : List ℕ → List ℕ → List ℕ → Run (Bool × List ℕ × List ℕ)
unfolding add sub
last_round this that rest = do
  rest' ← add rest (1 ∷ [])
  this' ← sub this that
  done (true, this', rest')

-- A round from the choice of `div` on
unfoldable pub guess_round : List ℕ → List ℕ → List ℕ → ℕ → ℕ → ℕ → Run (Bool × List ℕ × List ℕ)
unfolding leading multiple add sub mul
guess_round this that rest div num len = do
  (div', len') ← leading this div num len
  rest' ← add rest (multiple div' num len')
  product ← mul that (multiple div' num len')
  this' ← sub this product
  done (false, this', rest')

-- A round of the loop: whether it breaks off, `*this`, and the quotient so far
unfoldable pub div_round : List ℕ → List ℕ → List ℕ → Run (Bool × List ℕ × List ℕ)
unfolding back last_round guess_round
div_round this that rest = do
  div ← back this
  num ← back that
  let len = length this - length that
  if (div == num) && (len == 0)
      then last_round this that rest
      else guess_round this that rest div num len

-- The loop with at most `fuel` rounds, which ends with the quotient and the remainder, or else
-- `none`: `rest` is the quotient so far.
unfoldable pub div_loop : ℕ → List ℕ → List ℕ → List ℕ → Run (Option (List ℕ × List ℕ))
unfolding compare_no_sign div_round
div_loop zero this that rest = done none
div_loop (suc fuel) this that rest = elim (compare_no_sign this that) [
  | true ↦ done (some (rest, this))
  | false ↦ div_round this that rest >>= λ (broken, this', rest'). (elim broken [
    | true ↦ done (some (rest', this'))
    | false ↦ div_loop fuel this' that rest'
  ])
]

-- Div: the quotient, which is left in `*this`, and the remainder, left in `rest`
unfoldable pub div : ℕ → List ℕ → List ℕ → Run (Option (List ℕ × List ℕ))
unfolding div_loop
div fuel this that = div_loop fuel this that (0 ∷ [])
