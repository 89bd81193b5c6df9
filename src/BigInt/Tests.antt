-- ===== src/BigInt/Tests.antt =====
-- Runs of the BigInt model at fixed inputs.
use old_tools.Common.{
  ℕ, ◌≡◌, refl, true, false, some, List, [], ◌∷◌, ◌+◌, ◌^◌, ltb, not, ◌*ℤ◌, arith,
}
use old_tools.Common.Run.{done}
use old_tools.BigInt.{BigInt}
use old_tools.BigInt.Digits.{val, Number, Normal}
use old_tools.BigInt.Mul.{power}
use old_tools.BigInt.Mul.Power.{power-val}
use old_tools.BigInt.Sum.{add, sub, compare_no_sign}
use old_tools.BigInt.Sum.Carry.{add-val}
use old_tools.BigInt.Sum.Borrow.{sub-val}
use old_tools.BigInt.Sum.Order.{compare_no_sign-ltb}
use old_tools.BigInt.Division.{div}
use old_tools.BigInt.Division.Digit.{div-digit}
use old_tools.BigInt.Operators.{mul_assign}
use old_tools.BigInt.Operators.Product.{value, mul_assign-product}
use old_tools.BigInt.Text.{from_string, no_number, to_string}
use old_tools.BigInt.Text.Hex.{hex_value, unsigned, minus, from_string-hex}

abbrev minus_twelve : BigInt
minus_twelve = record { sign = false; nums = 12 ∷ [] }

to_string_negative : to_string 40 40 minus_twelve 10 ≡ done (some (49 ∷ 50 ∷ 45 ∷ []))
unfolding to_string
to_string_negative = refl

from_string_hex :
    from_string false (45 ∷ 49 ∷ 70 ∷ []) 16 ≡ done (record { sign = false; nums = 31 ∷ [] })
unfolding from_string
from_string_hex = refl

div_two_digits : div 40 (5 ∷ 7 ∷ []) (3 ∷ []) ≡ done (some (1431655767 ∷ 2 ∷ [], 0 ∷ []))
unfolding div
div_two_digits = refl

add_loses_carry : add (4294967295 ∷ 4294967295 ∷ 0 ∷ []) (1 ∷ []) ≡ done (0 ∷ 1 ∷ 0 ∷ [])
unfolding add
add_loses_carry = refl

-- Two numbers of two digits, and one of one
abbrev wide : List ℕ
wide = 4294967295 ∷ 2 ∷ []

abbrev other : List ℕ
other = 7 ∷ 1 ∷ []

wide-Number : Number wide
wide-Number = (omega arith, (omega arith, (omega arith, tt)))

other-Number : Number other
other-Number = (omega arith, (omega arith, (omega arith, tt)))

minus_twelve-Number : Number minus_twelve.nums
minus_twelve-Number = (omega arith, (omega arith, tt))

mul_assign-product_example :
    (c : BigInt) × (mul_assign minus_twelve (record { sign = true; nums = wide }) ≡ done c)
    × Number c.nums
    × (value c ≡ value minus_twelve *ℤ value (record { sign = true; nums = wide }))
mul_assign-product_example =
    mul_assign-product minus_twelve (record { sign = true; nums = wide }) minus_twelve-Number
      wide-Number

power-val_example :
    (result : List ℕ) × (power wide minus_twelve ≡ done result)
    × Number result
    × (val result ≡ val wide ^ val minus_twelve.nums)
power-val_example = power-val wide minus_twelve wide-Number minus_twelve-Number

compare_no_sign-ltb_example : compare_no_sign wide other ≡ ltb (val wide) (val other)
compare_no_sign-ltb_example =
    compare_no_sign-ltb wide other (wide-Number, λ h. (omega arith))
      (other-Number, λ h. (omega arith))

add-val_example :
    (result : List ℕ) × (add wide other ≡ done result)
    × Number result
    × (val result ≡ val wide + val other)
add-val_example = add-val wide other wide-Number other-Number (omega arith, (omega arith, tt))

sub-val_example :
    (result : List ℕ) × (sub wide other ≡ done result)
    × Normal result
    × (val result + val other ≡ val wide)
unfolding val
sub-val_example =
    sub-val wide other wide-Number other-Number (omega arith) (omega arith, (omega arith, tt))
      (omega arith)

div-digit_example : div 30 (29 ∷ []) (5 ∷ []) ≡ done (some (5 ∷ [], 4 ∷ []))
div-digit_example = div-digit 30 29 5 (omega arith) (omega arith) (omega arith)

from_string-hex_example :
    (nums : List ℕ) × (from_string true (45 ∷ 49 ∷ 70 ∷ 97 ∷ []) 16
      ≡ done (record { sign = not (minus (45 ∷ 49 ∷ 70 ∷ 97 ∷ [])); nums = nums }))
    × Number nums
    × (val nums ≡ hex_value 0 (unsigned (45 ∷ 49 ∷ 70 ∷ 97 ∷ [])))
unfolding no_number
from_string-hex_example = from_string-hex true (45 ∷ 49 ∷ 70 ∷ 97 ∷ []) refl
