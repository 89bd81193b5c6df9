-- ===== src/BigInt/Mul/Power.antt =====
-- The value of a power (`Power`, `GetTotalBits` and `TestBit`, bigint/BigInt.h).
use native.Mathlib.Nat.{
  div-div-eq-div-mul, pow-zero, pow-suc, one-le-pow, add-mul-div_left, zero-div,
}
use old_tools.Common.{
  ℕ, zero, suc, ◌+◌, ◌-◌, ◌*◌, ◌/◌, ◌%◌, ◌^◌, ◌<◌, ◌≡◌, refl, ap, ap₂, sym, ◌∙◌, false, inl, inr,
  List, [], ◌∷◌, arith, get_elem?, ◌==◌, ==→eq, ne→==_false, if◌then◌else◌, Bool-cases, none, some,
}
use old_tools.Common.Run.{done, ◌>>=◌, >>=-done}
use old_tools.BigInt.{radix, BigInt, is_zero}
use old_tools.BigInt.Digits.{is_zero-val, val, AllDigits, Number}
use old_tools.BigInt.Mul.{mul, bit_length, total_bits, test_bit, power_loop, power}
use old_tools.BigInt.Mul.Laws.{mul-val}

pow_add : (x a b : ℕ) → x ^ (a + b) ≡ x ^ a * x ^ b
pow_add x zero b =
    ap (λ k. x ^ k) {x = 0 + b} {y = b} (omega arith)
    ∙ omega (arith, ap (λ r. r * x ^ b) (pow-zero x))
pow_add x (suc a) b =
    ap (λ k. x ^ k) {x = suc a + b} {y = suc (a + b)} (omega arith)
    ∙ omega (
      arith,
      pow-suc x (a + b),
      ap (λ r. r * x ^ b) (pow-suc x a),
      ap (λ r. r * x) (pow_add x a b),
    )

pow_square : (x k : ℕ) → (x * x) ^ k ≡ x ^ k * x ^ k
pow_square x zero = omega (arith, ap₂ ◌*◌ (pow-zero x) (pow-zero x), pow-zero (x * x))
pow_square x (suc k) = omega (
  arith,
  pow-suc (x * x) k,
  pow-suc x k,
  ap (λ r. r * (x * x)) (pow_square x k),
  ap (λ r. r * r) (pow-suc x k),
)

pow_halves : (x e : ℕ) → x ^ (e % 2) * (x * x) ^ (e / 2) ≡ x ^ e
pow_halves x e =
    ap (λ r. x ^ (e % 2) * r) (pow_square x (e / 2) ∙ sym (pow_add x (e / 2) (e / 2)))
    ∙ sym (pow_add x (e % 2) (e / 2 + e / 2))
    ∙ ap (λ k. x ^ k) {x = e % 2 + (e / 2 + e / 2)} {y = e} (omega arith)

div_pow_add : (m a b : ℕ) → m / 2 ^ (a + b) ≡ m / 2 ^ a / 2 ^ b
div_pow_add m a b = ap (λ k. m / k) (pow_add 2 a b) ∙ sym (div-div-eq-div-mul m (2 ^ a) (2 ^ b))

halve : (m i : ℕ) → m / 2 ^ (i + 1) ≡ m / 2 ^ i / 2
halve m i = div_pow_add m i 1

low_bit : (d v b c : ℕ) → b + suc c ≡ 32 → (d + radix * v) / 2 ^ b % 2 ≡ d / 2 ^ b % 2
low_bit d v b c h =
    let e : radix * v ≡ 2 ^ b * (2 ^ suc c * v) =
      omega (arith, ap (λ r. r * v) (pow_add 2 b (suc c)), ap (λ k. 2 ^ k * v) h) in
    let q : (d + radix * v) / 2 ^ b ≡ d / 2 ^ b + 2 ^ suc c * v =
      ap (λ r. (d + r) / 2 ^ b) e
      ∙ add-mul-div_left d (2 ^ suc c * v) (one-le-pow b 2 (omega arith)) in
    omega (arith, q, ap (λ r. r * v) (pow-suc 2 c))

bit_in :
    (ds : List ℕ) (w b : ℕ)
    → AllDigits ds
    → b < 32
    → (elim (get_elem? ds w) [ none ↦ false | some d ↦ d / 2 ^ b % 2 == 1 ])
      ≡ (val ds / 2 ^ (32 * w + b) % 2 == 1)
unfolding val
bit_in [] w b h lt =
    sym (ne→==_false (0 / 2 ^ (32 * w + b) % 2) 1 (omega (arith, zero-div (2 ^ (32 * w + b)))))
bit_in (d ∷ ds) zero b h lt =
    ap (λ r. r == 1)
      (sym (low_bit d (val ds) b (31 - b) (omega arith))
        ∙ ap (λ k. (d + radix * val ds) / 2 ^ k % 2) {x = b} {y = 32 * 0 + b} (omega arith))
bit_in (d ∷ ds) (suc w) b (hd, h) lt =
    bit_in ds w b h lt
    ∙ ap (λ r. r % 2 == 1)
        (ap (λ m. m / 2 ^ (32 * w + b)) {y = (d + radix * val ds) / 2 ^ 32} (omega arith)
          ∙ sym (div_pow_add (d + radix * val ds) 32 (32 * w + b))
          ∙ ap (λ k. (d + radix * val ds) / 2 ^ k) {x = 32 + (32 * w + b)} (omega arith))

test_bit-val : (ds : List ℕ) (i : ℕ) → AllDigits ds → test_bit ds i ≡ (val ds / 2 ^ i % 2 == 1)
unfolding test_bit
test_bit-val ds i h =
    bit_in ds (i / 32) (i % 32) h (omega arith)
    ∙ ap (λ k. val ds / 2 ^ k % 2 == 1) {x = 32 * (i / 32) + i % 32} {y = i} (omega arith)

bit_length_lt : (fuel n : ℕ) → n < 2 ^ fuel → n < 2 ^ bit_length fuel n
unfolding bit_length
bit_length_lt zero n h = h
bit_length_lt (suc fuel) n h =
    let rest = bit_length_lt fuel (n / 2) (omega (arith, pow-suc 2 fuel)) in
    elim (Bool-cases (n == 0)) [
      | inl e ↦ rw (e) (omega (arith, ==→eq n 0 e))
      | inr e ↦ rw (e) (omega (arith, rest, pow-suc 2 (bit_length fuel (n / 2))))
    ]

total_bits_lt :
    (ds : List ℕ) → Number ds → (bits : ℕ) × (total_bits ds ≡ done bits) × (val ds < 2 ^ bits)
unfolding total_bits val
total_bits_lt [] (p, h) = absurd (omega arith)
total_bits_lt (d ∷ []) (p, (hd, h)) =
    (bit_length 64 d, refl, omega (arith, bit_length_lt 64 d (omega arith)))
total_bits_lt (d ∷ e ∷ ds) (p, (hd, h)) =
    let (bits, run, lt) = total_bits_lt (e ∷ ds) (omega arith, h) in
    (
      32 + bits,
      >>=-done (total_bits (e ∷ ds)) (λ n. done (32 + n)) run refl,
      omega (arith, pow_add 2 32 bits),
    )

==_false→even : (e : ℕ) → (e % 2 == 1) ≡ false → e % 2 ≡ 0
==_false→even e h = ground arith

-- `if (n.TestBit(i)) Mul(t);`
round-val :
    (n : List ℕ) (i : ℕ) (this t : List ℕ)
    → AllDigits n
    → Number this
    → Number t
    → (this' : List ℕ) × ((if test_bit n i then mul this t else done this) ≡ done this')
      × Number this'
      × (val this' ≡ val this * val t ^ (val n / 2 ^ i % 2))
round-val n i this t h ht hb =
    let bit = test_bit-val n i h in
    elim (Bool-cases (val n / 2 ^ i % 2 == 1)) [
      | inl e ↦
          let (this', run, hthis, e') = mul-val this t ht hb in
          let odd = ==→eq (val n / 2 ^ i % 2) 1 e in
          (
            this',
            rw (bit, e) run,
            hthis,
            e'
                ∙ omega (
                  arith,
                  ap (λ k. val this * val t ^ k) odd,
                  ap (λ r. val this * r) (pow-suc (val t) 0),
                  ap (λ r. val this * (r * val t)) (pow-zero (val t)),
                ),
          )
      | inr e ↦
          let even = ==_false→even (val n / 2 ^ i) e in
          (
            this,
            rw (bit, e) refl,
            ht,
            omega (
              arith,
              ap (λ k. val this * val t ^ k) even,
              ap (λ r. val this * r) (pow-zero (val t)),
            ),
          )
    ]

power_loop-val :
    (rounds : ℕ) (n : List ℕ) (i : ℕ) (this t : List ℕ)
    → AllDigits n
    → Number this
    → Number t
    → val n / 2 ^ i < 2 ^ rounds
    → (result : List ℕ) × (power_loop rounds n i this t ≡ done result)
      × Number result
      × (val result ≡ val this * val t ^ (val n / 2 ^ i))
unfolding power_loop
power_loop-val zero n i this t h ht hb lt =
    let e : val n / 2 ^ i ≡ 0 = omega (arith, pow-zero 2) in
    (
      this,
      refl,
      ht,
      omega (arith, ap (λ k. val this * val t ^ k) e, ap (λ r. val this * r) (pow-zero (val t))),
    )
power_loop-val (suc rounds) n i this t h ht hb lt =
    let (this', run, hthis, e) = round-val n i this t h ht hb in
    let (t', run', ht', e') = mul-val t t hb hb in
    let (result, runs, hr, er) =
      power_loop-val rounds n (i + 1) this' t' h hthis ht'
        (omega (arith, halve (val n) i, pow-suc 2 rounds)) in
    (
      result,
      >>=-done (if test_bit n i then mul this t else done this)
          (λ s. mul t t >>= λ u. power_loop rounds n (i + 1) s u) run
          (>>=-done (mul t t) (λ u. power_loop rounds n (i + 1) this' u) run' runs),
      hr,
      er
          ∙ ap₂ ◌*◌ e (ap₂ ◌^◌ e' (halve (val n) i))
          ∙ omega (arith, ap (λ r. val this * r) (pow_halves (val t) (val n / 2 ^ i))),
    )

-- For digits below the base Power ends without a fault, and its value is the value of the
-- number to the power of the value of the digits of `n`, computed by squaring over the bits
-- that TestBit reads.
pub power-val :
    (nums : List ℕ) (n : BigInt)
    → Number nums
    → Number n.nums
    → (result : List ℕ) × (power nums n ≡ done result)
      × Number result
      × (val result ≡ val nums ^ val n.nums)
unfolding power val
power-val nums n ht hn = elim (Bool-cases (is_zero n)) [
  | inl e ↦ (
    1 ∷ [],
    rw (e) refl,
    (omega arith, (omega arith, tt)),
    omega (arith, pow-zero (val nums), ap (λ k. val nums ^ k) (is_zero-val n e)),
  )
  | inr e ↦
      let (bits, run, lt) = total_bits_lt n.nums hn in
      let (result, runs, hr, er) =
        power_loop-val bits n.nums 0 (1 ∷ []) nums hn.1 (omega arith, (omega arith, tt)) ht
          (omega (arith, pow-zero 2)) in
      (
        result,
        rw (e) (
            >>=-done (total_bits n.nums) (λ rounds. power_loop rounds n.nums 0 (1 ∷ []) nums) run
              runs),
        hr,
        er
            ∙ omega (
              arith,
              ap (λ k. val nums ^ k) {x = val n.nums / 2 ^ 0} {y = val n.nums} (omega arith),
            ),
      )
]
