-- ===== src/BigInt/Sum.antt =====
-- Add, Sub, CompareNoSign, Compare, Equals, shiftLeft and shiftRight (bigint/BigInt.h), on the
-- digits of numbers that are not the same object.
pub mod Borrow
pub mod Carry
pub mod Order
pub mod Strip
use old_tools.Common.{
  ℕ, zero, suc, ◌+◌, ◌-◌, ◌*◌, ◌/◌, ◌%◌, Bool, true, false, not, ◌&&◌, Option, none, some, List, [],
  ◌∷◌, ◌++◌, ◌==◌, ltb, leb, if◌then◌else◌, length, take, drop,
}
use old_tools.Common.Run.{Run, done, fault, ◌>>=◌}
use old_tools.BigInt.{radix, u32, BigInt}
use old_tools.BigInt.Digits.{zeros}

-- `nums_.resize(n)`
unfoldable pub resize : List ℕ → ℕ → List ℕ
resize nums n = take n nums ++ zeros (n - length nums)

-- The `while (carry != 0)` loop of Add, which adds to one digit `d` until no carry is left
unfoldable pub settle : ℕ → ℕ → ℕ → ℕ
settle zero d carry = d
settle (suc fuel) d carry =
    let rest = settle fuel ((d + carry) % radix) (u32 ((d + carry) / radix)) in
    if carry == 0 then d else rest

-- What Add does with the carry at the end of `that`: no digit above, or one that it is added to
unfoldable pub carry_out : List ℕ → ℕ → List ℕ
unfolding settle
carry_out nums zero = nums
carry_out [] (suc carry) = suc carry ∷ []
carry_out (d ∷ nums) (suc carry) = settle 3 d (suc carry) ∷ nums

-- The loop of Add from digit `i` on; `that.nums_[i] + carry` is a sum of 32 bits.
unfoldable pub add_digits : List ℕ → List ℕ → ℕ → Run (List ℕ)
unfolding carry_out
add_digits nums [] carry = done (carry_out nums carry)
add_digits [] (y ∷ ys) carry = fault
add_digits (x ∷ xs) (y ∷ ys) carry = do
  let temp = x + u32 (y + carry)
  rest ← add_digits xs ys (if leb radix temp then u32 (temp / radix) else 0)
  done ((if leb radix temp then temp % radix else temp) ∷ rest)

-- Add
unfoldable pub add : List ℕ → List ℕ → Run (List ℕ)
unfolding add_digits resize
add nums that =
    add_digits (if ltb (length nums) (length that) then resize nums (length that) else nums) that 0

-- `nums_[i] -= borrow` and `nums_[i] -= that.nums_[i]`, in 32 bits
unfoldable pub sub_u32 : ℕ → ℕ → ℕ
sub_u32 a b = u32 (a + (radix - b))

-- The second loop of Sub, above the digits of `that`
unfoldable pub borrow_out : List ℕ → ℕ → List ℕ
unfolding sub_u32
borrow_out nums zero = nums
borrow_out [] (suc borrow) = []
borrow_out (d ∷ nums) (suc borrow) =
    let lent = borrow_out nums 1 in
    if ltb d (suc borrow) then u32 (d + (radix - 1)) ∷ lent else sub_u32 d (suc borrow) ∷ nums

-- The first loop of Sub from digit `i` on, and then the second
unfoldable pub sub_digits : List ℕ → List ℕ → ℕ → Run (List ℕ)
unfolding borrow_out sub_u32
sub_digits nums [] borrow = done (borrow_out nums borrow)
sub_digits [] (y ∷ ys) borrow = fault
sub_digits (x ∷ xs) (y ∷ ys) borrow = do
  let low = sub_u32 x borrow
  rest ← sub_digits xs ys (if ltb low y then 1 else 0)
  done (sub_u32 (if ltb low y then u32 (low + radix) else low) y ∷ rest)

-- The third loop: `n`, one more than the place of the highest digit that is not zero
unfoldable pub used : List ℕ → ℕ → ℕ → ℕ
used [] i n = n
used (d ∷ nums) i n = used nums (i + 1) (if d == 0 then n else i + 1)

-- Sub
unfoldable pub sub : List ℕ → List ℕ → Run (List ℕ)
unfolding sub_digits used resize
sub nums that = do
  ds ← sub_digits nums that 0
  let n = used ds 0 0
  done (resize ds (if n == 0 then 1 else n))

-- The loop of CompareNoSign on as many digits, from the highest down: `below` is the answer of
-- the digits under these.
unfoldable pub first_differs : List ℕ → List ℕ → Bool → Bool
first_differs (x ∷ xs) (y ∷ ys) below = first_differs xs ys (if x == y then below else ltb x y)
first_differs [] ys below = below
first_differs (x ∷ xs) [] below = below

-- CompareNoSign
unfoldable pub compare_no_sign : List ℕ → List ℕ → Bool
unfolding first_differs
compare_no_sign nums that =
    if ltb (length nums) (length that)
    then true
    else (if length nums == length that then first_differs nums that false else false)

-- `a == b` and `a ^ b` on Booleans
unfoldable pub same_sign : Bool → Bool → Bool
same_sign true t = t
same_sign false t = not t

-- Compare
unfoldable pub compare_signed : BigInt → BigInt → Bool
unfolding compare_no_sign same_sign
compare_signed a b =
    if not (same_sign a.sign b.sign)
    then not a.sign
    else same_sign a.sign (compare_no_sign a.nums b.nums)

unfoldable pub same_digits : List ℕ → List ℕ → Bool
same_digits [] [] = true
same_digits [] (y ∷ ys) = false
same_digits (x ∷ xs) [] = false
same_digits (x ∷ xs) (y ∷ ys) = (x == y) && same_digits xs ys

-- Equals
unfoldable pub equals : BigInt → BigInt → Bool
unfolding same_sign same_digits
equals a b =
    same_sign a.sign b.sign && ((length a.nums == length b.nums) && same_digits a.nums b.nums)

unfoldable pub shift_left : List ℕ → ℕ → List ℕ
shift_left nums i = if i == 0 then nums else zeros i ++ nums

-- shiftRight; of no digits, `nums_.size() - 1` is the greatest number of 64 bits.
unfoldable pub shift_right : List ℕ → ℕ → Run (List ℕ)
shift_right nums i =
    if i == 0
    then done nums
    else (if length nums == 0
        then fault
        else (if ltb (length nums - 1) i then done [] else done (drop i nums)))
