-- ===== src/BigInt/Text.antt =====
-- The constructors from strings and toString (bigint/BigInt.h). A string is its characters' codes,
-- up to the NUL.
pub mod Hex
use old_tools.Common.{
  ℕ, zero, suc, ◌+◌, ◌-◌, Bool, true, false, not, ◌&&◌, ◌||◌, Option, none, some, List, [], ◌∷◌,
  ◌++◌, ◌==◌, leb, if◌then◌else◌, get_elem?, ℤ, pos, negsuc,
}
use old_tools.Common.Run.{Run, done, fault, ◌>>=◌, ◌>>?◌}
use old_tools.BigInt.{BigInt, from_abs, from_uint64, is_zero, is_negative, to_int}
use old_tools.BigInt.Mul.{mul}
use old_tools.BigInt.Sum.{add}
use old_tools.BigInt.Operators.{div_assign, mod_assign}

-- `k`, the digit that a character stands for, or 0
unfoldable pub digit_of : ℕ → ℕ
digit_of c =
    if leb 48 c && leb c 57
    then c - 48
    else (if leb 65 c && leb c 70
        then c - 65 + 10
        else (if leb 97 c && leb c 102 then c - 97 + 10 else 0))

-- The loop from `that[i]` on
unfoldable pub read_digits : List ℕ → List ℕ → ℕ → Run (List ℕ)
unfolding mul add from_abs digit_of
read_digits nums [] system = done nums
read_digits nums (c ∷ cs) system = do
  shifted ← mul nums (from_abs system)
  sum ← add shifted (from_abs (digit_of c))
  read_digits sum cs system

-- BigInt(const char *, int) after the test for an empty number
unfoldable pub read_signed : List ℕ → ℕ → Run BigInt
unfolding read_digits
read_signed [] system = done (record { sign = true; nums = 0 ∷ [] })
read_signed (c ∷ cs) system = do
  ds ← read_digits (0 ∷ []) (if (c == 45) || (c == 43) then cs else c ∷ cs) system
  done (record { sign = not (c == 45); nums = ds })

-- `len == 0 || (len == 1 && (that[0] == '-' || that[0] == '+'))`
unfoldable pub no_number : List ℕ → Bool
no_number [] = true
no_number (c ∷ []) = (c == 45) || (c == 43)
no_number (c ∷ d ∷ cs) = false

-- BigInt(const char *, int), which leaves `sign_` as it finds it, `fresh`, where there is no number
unfoldable pub from_string : Bool → List ℕ → ℕ → Run BigInt
unfolding no_number read_signed
from_string fresh that system =
    if no_number that
    then done (record { sign = fresh; nums = 0 ∷ [] })
    else read_signed that system

-- `t`, with its NUL
abbrev symbols : List ℕ
symbols = 48 ∷ 49 ∷ 50 ∷ 51 ∷ 52 ∷ 53 ∷ 54 ∷ 55 ∷ 56 ∷ 57 ∷ 65 ∷ 66 ∷ 67 ∷ 68 ∷ 69 ∷ 70 ∷ 0 ∷ []

-- `t[i]`
unfoldable pub symbol : ℤ → Run ℕ
symbol (pos i) = elim (get_elem? symbols i) [ none ↦ fault | some c ↦ done c ]
symbol (negsuc i) = fault

-- The loop of toString with at most `rounds` digits: what it appends to `ret`, in front of `ret`,
-- which is kept the last character first
unfoldable pub write_digits : ℕ → ℕ → BigInt → BigInt → List ℕ → Run (Option (List ℕ))
unfolding is_zero mod_assign div_assign to_int symbol
write_digits fuel zero sys value ret = done none
write_digits fuel (suc rounds) sys value ret = elim (is_zero value) [
  | true ↦ done (some ret)
  | false ↦ mod_assign fuel value sys >>? λ rest. div_assign fuel value sys >>? λ quotient.
      (to_int rest >>= λ i. symbol i >>= λ c. write_digits fuel rounds sys quotient (c ∷ ret))
]

-- toString: `std::string(ret.rbegin(), ret.rend())` is `ret` as `write_digits` keeps it.
unfoldable pub to_string : ℕ → ℕ → BigInt → ℕ → Run (Option (List ℕ))
unfolding is_zero is_negative from_uint64 write_digits
to_string fuel rounds a system =
    if is_zero a
    then done (some (48 ∷ []))
    else write_digits fuel rounds (from_uint64 system) a (if is_negative a then 45 ∷ [] else [])
