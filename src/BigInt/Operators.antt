-- ===== src/BigInt/Operators.antt =====
-- The operators of BigInt and ModPow (bigint/BigInt.h), for operands that are not the same object.
-- Where a division may not end, `fuel` bounds its rounds and `none` is a division that goes on.
pub mod Product
use old_tools.Common.{
  ℕ, zero, suc, ◌+◌, ◌-◌, Bool, true, false, not, ◌||◌, Option, none, some, List, [], ◌∷◌,
  if◌then◌else◌,
}
use old_tools.Common.Run.{Run, done, ◌>>=◌, ◌>>?◌}
use old_tools.BigInt.{BigInt, from_abs, is_zero, is_odd}
use old_tools.BigInt.Mul.{mul, power, total_bits, test_bit}
use old_tools.BigInt.Sum.{add, sub, compare_no_sign, compare_signed, same_sign}
use old_tools.BigInt.Division.{div}

-- `if (isZero()) sign_ = true; else sign_ = ...`
unfoldable pub zero_positive : BigInt → BigInt
unfolding is_zero
zero_positive a = if is_zero a then record { sign = true; nums = a.nums } else a

-- operator+=
unfoldable pub add_assign : BigInt → BigInt → Run BigInt
unfolding add sub compare_no_sign same_sign zero_positive
add_assign a b =
    if same_sign a.sign b.sign
    then (add a.nums b.nums >>= λ ds. done (zero_positive (record { sign = a.sign; nums = ds })))
    else (if compare_no_sign a.nums b.nums
        then (sub b.nums a.nums >>= λ ds.
            done (zero_positive (record { sign = b.sign; nums = ds })))
        else (sub a.nums b.nums >>= λ ds.
            done (zero_positive (record { sign = a.sign; nums = ds }))))

-- operator-=
unfoldable pub sub_assign : BigInt → BigInt → Run BigInt
unfolding add sub compare_no_sign same_sign zero_positive
sub_assign a b =
    if not (same_sign a.sign b.sign)
    then (add a.nums b.nums >>= λ ds. done (zero_positive (record { sign = a.sign; nums = ds })))
    else (if compare_no_sign a.nums b.nums
        then (sub b.nums a.nums >>= λ ds.
            done (zero_positive (record { sign = not a.sign; nums = ds })))
        else (sub a.nums b.nums >>= λ ds.
            done (zero_positive (record { sign = a.sign; nums = ds }))))

-- operator*=
unfoldable pub mul_assign : BigInt → BigInt → Run BigInt
unfolding mul same_sign zero_positive
mul_assign a b = mul a.nums b.nums >>= λ ds.
    done (zero_positive (record { sign = same_sign a.sign b.sign; nums = ds }))

-- operator/=
unfoldable pub div_assign : ℕ → BigInt → BigInt → Run (Option BigInt)
unfolding div same_sign zero_positive
div_assign fuel a b = div fuel a.nums b.nums >>? λ (quotient, remainder).
    done (some (zero_positive (record { sign = same_sign a.sign b.sign; nums = quotient })))

-- operator%=
unfoldable pub mod_assign : ℕ → BigInt → BigInt → Run (Option BigInt)
unfolding div
mod_assign fuel a b = div fuel a.nums b.nums >>? λ (quotient, remainder).
    done (some (record { sign = a.sign || b.sign; nums = remainder }))

-- operator^=
unfoldable pub power_assign : BigInt → BigInt → Run BigInt
unfolding power is_odd
power_assign a b = do
  ds ← power a.nums b
  odd ← is_odd b
  done (record { sign = if odd then a.sign else true; nums = ds })

-- operator<, operator>, operator<= and operator>=
unfoldable pub less : BigInt → BigInt → Bool
unfolding compare_signed
less a b = compare_signed a b

unfoldable pub greater : BigInt → BigInt → Bool
unfolding compare_signed
greater a b = compare_signed b a

unfoldable pub at_most : BigInt → BigInt → Bool
unfolding compare_signed
at_most a b = not (compare_signed b a)

unfoldable pub at_least : BigInt → BigInt → Bool
unfolding compare_signed
at_least a b = not (compare_signed a b)

-- `(x * y) % n`
unfoldable pub mul_mod : ℕ → BigInt → BigInt → BigInt → Run (Option BigInt)
unfolding mul_assign mod_assign
mul_mod fuel x y n = mul_assign x y >>= λ product. mod_assign fuel product n

-- The loop of ModPow from `i` on, with `rounds` of it left
unfoldable pub mod_pow_loop : ℕ → ℕ → BigInt → BigInt → ℕ → BigInt → BigInt → Run (Option BigInt)
unfolding test_bit mul_mod
mod_pow_loop fuel zero b n i k power = done (some k)
mod_pow_loop fuel (suc rounds) b n i k power =
    (if test_bit b.nums i then mul_mod fuel k power n else done (some k)) >>? λ k'.
    mul_mod fuel power power n >>? λ power'. mod_pow_loop fuel rounds b n (i + 1) k' power'

-- ModPow
unfoldable pub mod_pow : ℕ → BigInt → BigInt → BigInt → Run (Option BigInt)
unfolding mod_pow_loop mod_assign total_bits from_abs
mod_pow fuel a b n = mod_assign fuel a n >>? λ power.
    (total_bits b.nums >>= λ rounds.
    mod_pow_loop fuel rounds b n 0 (record { sign = true; nums = from_abs 1 }) power)
