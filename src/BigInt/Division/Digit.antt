-- ===== src/BigInt/Division/Digit.antt =====
-- The division of one digit by another (Div, bigint/BigInt.h).
use native.Mathlib.Nat.{
  mul-div-le, div-eq-sub-div, div-eq_of_lt, mod-eq_of_lt, div_self, div-le_self, mod_self,
  one-le-mul, add-mul-div_left, add-mul-mod_self_left,
}
use old_tools.Common.{
  ℕ, zero, suc, ◌+◌, ◌-◌, ◌*◌, ◌/◌, ◌%◌, ◌≤◌, ◌<◌, ◌≡◌, ◌≢◌, inl, inr, refl, subst, ap, ap₂, sym,
  ◌∙◌, true, false, some, [], ◌∷◌, ◌==◌, ==→eq, ==_self, ==_false→ne, ne→==_false, ltb, Bool-cases,
  ltb→lt, ltb_false→le, arith,
}
use old_tools.Common.Run.{done, ◌>>=◌, >>=-done}
use old_tools.BigInt.{radix, from_uint64}
use old_tools.BigInt.Mul.{add_carry, mul_digit, keep_digit, mul_rows, pop_zero, mul}
use old_tools.BigInt.Sum.{
  first_differs, compare_no_sign, carry_out, add_digits, add, sub_u32, borrow_out, sub_digits, used,
  resize, sub, shift_left,
}
use old_tools.BigInt.Division.{
  back, leading, multiple, last_round, guess_round, div_round, div_loop, div,
}

compare-digits : (x y : ℕ) → compare_no_sign (x ∷ []) (y ∷ []) ≡ ltb x y
unfolding compare_no_sign first_differs
compare-digits x y = ground arith

add-digits : (x y : ℕ) → x + y < radix → add (x ∷ []) (y ∷ []) ≡ done ((x + y) ∷ [])
unfolding add add_digits carry_out
add-digits x y h = ground arith

sub-digits : (x y : ℕ) → x < radix → y ≤ x → sub (x ∷ []) (y ∷ []) ≡ done ((x - y) ∷ [])
unfolding sub sub_digits borrow_out sub_u32 used resize
sub-digits x y h le = ground arith

mul-digits : (x y : ℕ) → x * y < radix → mul (x ∷ []) (y ∷ []) ≡ done ((y * x) ∷ [])
unfolding mul mul_rows mul_digit keep_digit add_carry pop_zero
mul-digits x y h = ground arith

multiple-digit : (d n : ℕ) → d < radix → multiple d n 0 ≡ d / (n + 1) ∷ []
unfolding multiple shift_left from_uint64
multiple-digit d n h = ground arith

one_div : (x k : ℕ) → 0 < k → k ≤ x → 1 ≤ x / k
one_div x k p le = omega (arith, div-eq-sub-div p le)

-- The numbers of one round, in which the divisor is taken away `m` times
record RoundNumbers (x y m : ℕ) : Type 0 where
  some_left : y * m ≤ x
  less : x - y * m < x
  quotient : x / y ≡ (x - y * m) / y + m
  remainder : x % y ≡ (x - y * m) % y

round_numbers : (x y m : ℕ) → 0 < y → y < x → m ≡ x / (y + 1) → RoundNumbers x y m
round_numbers x y m hy lt e =
    let p : (y + 1) * m ≤ x = subst (λ k. (y + 1) * k ≤ x) (sym e) (mul-div-le x (y + 1)) in
    let one : 1 ≤ m = subst (λ k. 1 ≤ k) (sym e) (one_div x (y + 1) (omega arith) (omega arith)) in
    let part : 1 ≤ y * m = one-le-mul hy one in
    let whole : x ≡ x - y * m + y * m = omega arith in
    record {
      some_left = omega arith;
      less = omega arith;
      quotient = ap (λ k. k / y) whole ∙ add-mul-div_left (x - y * m) m hy;
      remainder = ap (λ k. k % y) whole ∙ add-mul-mod_self_left (x - y * m) y m;
    }

leading-digit : (x y : ℕ) → leading (x ∷ []) x y 0 ≡ done (x, 0)
unfolding leading
leading-digit x y = ground arith

last_round-digit :
    (x y q : ℕ)
    → x ≡ y
    → x < radix
    → q + 1 < radix
    → div_round (x ∷ []) (y ∷ []) (q ∷ []) ≡ done (true, 0 ∷ [], (q + 1) ∷ [])
unfolding div_round back last_round
last_round-digit x y q e hx hq =
    let same : (x == y) ≡ true = ap (λ k. x == k) (sym e) ∙ ==_self x in
    rw (same) (
      >>=-done (add (q ∷ []) (1 ∷ [])) (λ r. sub (x ∷ []) (y ∷ []) >>= λ t. done (true, t, r))
        (add-digits q 1 hq)
        (>>=-done (sub (x ∷ []) (y ∷ [])) (λ t. done (true, t, (q + 1) ∷ []))
          (sub-digits x y hx (omega arith))
          (ap (λ n. done (true, n ∷ [], (q + 1) ∷ [])) {x = x - y} (omega arith))))

guess_round-digit :
    (x y q m : ℕ)
    → x < radix
    → RoundNumbers x y m
    → m ≡ x / (y + 1)
    → x ≢ y
    → q + m < radix
    → div_round (x ∷ []) (y ∷ []) (q ∷ []) ≡ done (false, (x - y * m) ∷ [], (q + m) ∷ [])
unfolding div_round back guess_round leading
guess_round-digit x y q m hx r e ne hq =
    let single : multiple x y 0 ≡ m ∷ [] = multiple-digit x y hx ∙ ap (λ k. k ∷ []) (sym e) in
    let product : mul (y ∷ []) (m ∷ []) ≡ done ((y * m) ∷ []) =
      mul-digits y m (omega (arith, r.some_left)) ∙ ap (λ n. done (n ∷ [])) (omega arith) in
    rw (ne→==_false x y ne) (
      >>=-done (leading (x ∷ []) x y 0)
        (λ (d, l). add (q ∷ []) (multiple d y l) >>= λ rest.
          mul (y ∷ []) (multiple d y l) >>= λ p. sub (x ∷ []) p >>= λ t. done (false, t, rest))
        (leading-digit x y)
        (rw (single) (
          >>=-done (add (q ∷ []) (m ∷ []))
            (λ rest. mul (y ∷ []) (m ∷ []) >>= λ p. sub (x ∷ []) p >>= λ t. done (false, t, rest))
            (add-digits q m hq)
            (>>=-done (mul (y ∷ []) (m ∷ []))
              (λ p. sub (x ∷ []) p >>= λ t. done (false, t, (q + m) ∷ [])) product
              (>>=-done (sub (x ∷ []) ((y * m) ∷ [])) (λ t. done (false, t, (q + m) ∷ []))
                (sub-digits x (y * m) hx r.some_left) refl)))))

div_loop-digit :
    (fuel x y q : ℕ)
    → x < radix
    → 0 < y
    → x < fuel
    → q + x / y < radix
    → div_loop fuel (x ∷ []) (y ∷ []) (q ∷ []) ≡ done (some ((q + x / y) ∷ [], (x % y) ∷ []))
unfolding div_loop
div_loop-digit zero x y q hx p lt hq = absurd (omega arith)
div_loop-digit (suc fuel) x y q hx p lt hq = elim (Bool-cases (ltb x y)) [
  | inl e ↦
      let h = ltb→lt x y e in
      rw (div_loop, compare-digits x y, e)
        (ap₂ (λ a b. done (some (a ∷ [], b ∷ []))) (omega (arith, div-eq_of_lt h))
          (sym (mod-eq_of_lt h)))
  | inr e ↦
      let le = ltb_false→le x y e in
      elim (Bool-cases (x == y)) [
        | inl f ↦
            let same = ==→eq x y f in
            let one : x / y ≡ 1 = ap (λ k. k / y) same ∙ div_self p in
            let none_left : x % y ≡ 0 = ap (λ k. k % y) same ∙ mod_self y in
            rw (div_loop, compare-digits x y, e, last_round-digit x y q same hx (omega arith))
              (ap₂ (λ a b. done (some (a ∷ [], b ∷ []))) (omega (arith, one)) (sym none_left))
        | inr f ↦
            let ne = ==_false→ne x y f in
            let r = round_numbers x y (x / (y + 1)) p (omega arith) refl in
            rw
              (
                div_loop,
                compare-digits x y,
                e,
                guess_round-digit x y q (x / (y + 1)) hx r refl ne (omega (arith, r.quotient)),
              )
              (div_loop-digit fuel (x - y * (x / (y + 1))) y (q + x / (y + 1))
                  (omega (arith, r.less)) p (omega (arith, r.less)) (omega (arith, r.quotient))
                ∙ ap₂ (λ a b. done (some (a ∷ [], b ∷ []))) (omega (arith, r.quotient))
                    (sym r.remainder))
      ]
]

-- For a number of one digit and a divisor of one digit that is not 0, with more rounds than
-- the number, the loop of Div ends without a fault, and it leaves the quotient and the
-- remainder.
pub div-digit :
    (fuel x y : ℕ)
    → x < radix
    → 0 < y
    → x < fuel
    → div fuel (x ∷ []) (y ∷ []) ≡ done (some ((x / y) ∷ [], (x % y) ∷ []))
unfolding div
div-digit fuel x y hx p lt =
    let fits : 0 + x / y < radix = omega (arith, div-le_self x y) in
    div_loop-digit fuel x y 0 hx p lt fits
    ∙ ap (λ q. done (some (q ∷ [], (x % y) ∷ []))) {x = 0 + x / y} {y = x / y} (omega arith)
