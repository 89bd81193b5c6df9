-- ===== src/BigInt/Text/Hex.antt =====
-- The numbers that hexadecimal strings give (BigInt(const char *, int), bigint/BigInt.h).
use old_tools.Common.{
  ℕ, ◌+◌, ◌*◌, ◌<◌, ◌≡◌, refl, ap, ◌∙◌, Bool, false, not, ◌||◌, List, [], ◌∷◌, ◌==◌, if◌then◌else◌,
  arith,
}
use old_tools.Common.Run.{done, ◌>>=◌, >>=-done}
use old_tools.BigInt.{radix, digits, from_abs}
use old_tools.BigInt.Digits.{val, Number}
use old_tools.BigInt.Mul.{mul}
use old_tools.BigInt.Mul.Laws.{mul-val}
use old_tools.BigInt.Sum.{carry_out, add_digits, add}
use old_tools.BigInt.Text.{digit_of, read_digits, read_signed, no_number, from_string}

-- The hexadecimal digits and what they stand for
abbrev pub hex_digits : List (ℕ × ℕ)
hex_digits =
    (b'0', 0)
    ∷ (b'1', 1)
    ∷ (b'2', 2)
    ∷ (b'3', 3)
    ∷ (b'4', 4)
    ∷ (b'5', 5)
    ∷ (b'6', 6)
    ∷ (b'7', 7)
    ∷ (b'8', 8)
    ∷ (b'9', 9)
    ∷ (b'A', 10)
    ∷ (b'B', 11)
    ∷ (b'C', 12)
    ∷ (b'D', 13)
    ∷ (b'E', 14)
    ∷ (b'F', 15)
    ∷ (b'a', 10)
    ∷ (b'b', 11)
    ∷ (b'c', 12)
    ∷ (b'd', 13)
    ∷ (b'e', 14)
    ∷ (b'f', 15)
    ∷ []

-- What a character stands for in a table, 0 where it is not there
abbrev pub meaning : List (ℕ × ℕ) → ℕ → ℕ
meaning [] c = 0
meaning ((d, n) ∷ table) c = if c == d then n else meaning table c

-- The value of `cs` read from the left, after `n`
abbrev pub hex_value : ℕ → List ℕ → ℕ
hex_value n [] = n
hex_value n (c ∷ cs) = hex_value (16 * n + meaning hex_digits c) cs

digit_of-meaning : (c : ℕ) → digit_of c ≡ meaning hex_digits c
unfolding digit_of
digit_of-meaning c = ground arith

digit_of_lt : (c : ℕ) → digit_of c < 16
unfolding digit_of
digit_of_lt c = ground arith

from_abs_small : (k : ℕ) → k < radix → from_abs k ≡ k ∷ []
unfolding from_abs digits
from_abs_small k h = ground arith

add_low : (d k : ℕ) (ds : List ℕ) → d + k < radix → add (d ∷ ds) (k ∷ []) ≡ done ((d + k) ∷ ds)
unfolding add add_digits carry_out
add_low d k ds h = ground arith

-- The digit goes into the four low bits, which are zero.
add_below :
    (m : List ℕ) (v k : ℕ)
    → Number m
    → val m ≡ 16 * v
    → k < 16
    → (sum : List ℕ) × (add m (from_abs k) ≡ done sum) × Number sum × (val sum ≡ 16 * v + k)
unfolding val
add_below [] v k (p, h) e lt = absurd (omega arith)
add_below (d ∷ ds) v k (p, (hd, h)) e lt =
    let fits : d + k < radix = omega arith in
    (
      (d + k) ∷ ds,
      ap (λ that. add (d ∷ ds) that) (from_abs_small k (omega arith)) ∙ add_low d k ds fits,
      (p, (fits, h)),
      omega arith,
    )

read_digits-val :
    (nums cs : List ℕ)
    → Number nums
    → (result : List ℕ) × (read_digits nums cs 16 ≡ done result)
      × Number result
      × (val result ≡ hex_value (val nums) cs)
unfolding read_digits val
read_digits-val nums [] h = (nums, refl, h, refl)
read_digits-val nums (c ∷ cs) h =
    let (shifted, run, hs, e) = mul-val nums (16 ∷ []) h (omega arith, (omega arith, tt)) in
    let (sum, add_run, hsum, value) =
      add_below shifted (val nums) (digit_of c) hs (omega arith) (digit_of_lt c) in
    let (result, runs, hr, er) = read_digits-val sum cs hsum in
    (
      result,
      >>=-done (mul nums (from_abs 16))
          (λ m. add m (from_abs (digit_of c)) >>= λ t. read_digits t cs 16)
          (ap (mul nums) (from_abs_small 16 (omega arith)) ∙ run)
          (>>=-done (add shifted (from_abs (digit_of c))) (λ t. read_digits t cs 16) add_run runs),
      hr,
      er ∙ ap (λ n. hex_value n cs) (value ∙ ap (λ k. 16 * val nums + k) (digit_of-meaning c)),
    )

-- What a number is after its sign
abbrev pub unsigned : List ℕ → List ℕ
unsigned [] = []
unsigned (c ∷ cs) = if (c == 45) || (c == 43) then cs else c ∷ cs

abbrev pub minus : List ℕ → Bool
minus [] = false
minus (c ∷ cs) = c == 45

-- Of a string that is not empty and not only a sign, with the base 16, the constructor makes,
-- without a fault, the integer with its sign and with the value of its hexadecimal digits,
-- which are 0 to 9, A to F and a to f, and where another character counts as the digit 0.
pub from_string-hex :
    (fresh : Bool) (that : List ℕ)
    → no_number that ≡ false
    → (nums : List ℕ) × (from_string fresh that 16
        ≡ done (record { sign = not (minus that); nums = nums }))
      × Number nums
      × (val nums ≡ hex_value 0 (unsigned that))
unfolding from_string read_signed val no_number
from_string-hex fresh [] h = cc
from_string-hex fresh (c ∷ cs) h =
    let (nums, run, hn, e) =
      read_digits-val (0 ∷ []) (unsigned (c ∷ cs)) (omega arith, (omega arith, tt)) in
    (
      nums,
      rw (h) (
          >>=-done (read_digits (0 ∷ []) (unsigned (c ∷ cs)) 16)
            (λ ds. done (record { sign = not (c == 45); nums = ds })) run refl),
      hn,
      e ∙ ap (λ n. hex_value n (unsigned (c ∷ cs))) {x = 0 + radix * 0} {y = 0} refl,
    )
