-- ===== src/BigInt/Mul/Laws.antt =====
-- The value of a product (`Mul`, bigint/BigInt.h).
use native.Mathlib.Nat.{mul-le-mul}
use old_tools.Common.{
  ℕ, zero, suc, ◌+◌, ◌*◌, ◌/◌, ◌%◌, ◌≤◌, ◌<◌, ◌≡◌, refl, ap, ◌∙◌, inl, inr, List, [], ◌∷◌, ◌++◌,
  append-nil, arith, length, ◌==◌, ==→eq, if◌then◌else◌, Bool-cases,
}
use old_tools.Common.Run.{done, >>=-done}
use old_tools.BigInt.{radix, u32, u64}
use old_tools.BigInt.Digits.{
  val, AllDigits, Number, length-zeros, zeros, length-zeros, val-append-zeros, AllDigits-zeros,
}
use old_tools.BigInt.Mul.{add_carry, mul_digit, keep_digit, mul_rows, pop_zero, mul}

-- What a row of the multiplication leaves of the digits `low` and the zero above them
record AfterRow (y : ℕ) (xs low zs : List ℕ) (carry : ℕ) : Type 0 where
  lowest : ℕ
  above : List ℕ
  run : mul_digit y xs (low ++ (0 ∷ zs)) carry ≡ done (lowest ∷ (above ++ zs))
  as_long : length above ≡ length xs
  bounded : (lowest < radix) × AllDigits above
  value : lowest + radix * val above ≡ y * val xs + val low + carry

add_carry-zero :
    (carry : ℕ) (zs : List ℕ) → carry < radix → add_carry carry (0 ∷ zs) ≡ done (carry ∷ zs)
unfolding add_carry
add_carry-zero zero zs h = refl
add_carry-zero (suc c) zs h = ap (λ t. done (t ∷ zs)) (omega arith)

step_lt :
    (y x d carry : ℕ)
    → y < radix
    → x < radix
    → d < radix
    → carry < radix
    → y * x + carry + d < radix * radix
step_lt y x d carry hy hx hd hc =
    let h : y * x ≤ 4294967295 * 4294967295 =
      mul-le-mul {n₂ = 4294967295} {m₂ = 4294967295} (omega arith) (omega arith) in
    omega arith

step_exact :
    (t : ℕ) → t < radix * radix → (u64 t ≡ t) × (u32 (t / radix) ≡ t / radix) × (t / radix < radix)
step_exact t h = (omega arith, omega arith, omega arith)

mul_digit-AfterRow :
    (y : ℕ) (xs low zs : List ℕ) (carry : ℕ)
    → y < radix
    → AllDigits xs
    → AllDigits low
    → length low ≡ length xs
    → carry < radix
    → AfterRow y xs low zs carry
unfolding mul_digit val
mul_digit-AfterRow y [] [] zs carry hy hx hl e hc = record {
  lowest = carry;
  above = [];
  run = add_carry-zero carry zs hc;
  as_long = refl;
  bounded = (hc, tt);
  value = omega arith;
}
mul_digit-AfterRow y [] (d ∷ low) zs carry hy hx hl e hc = absurd (omega arith)
mul_digit-AfterRow y (x ∷ xs) [] zs carry hy hx hl e hc = absurd (omega arith)
mul_digit-AfterRow y (x ∷ xs) (d ∷ low) zs carry hy (hx, hxs) (hd, hl) e hc =
    let t = y * x + carry + d in
    let lt = step_lt y x d carry hy hx hd hc in
    let exact = step_exact t lt in
    let temp : u64 (u64 (u64 (y * x) + carry) + d) ≡ t = omega arith in
    let next = mul_digit-AfterRow y xs low zs (t / radix) hy hxs hl (omega arith) exact.2 in
    record {
      lowest = t % radix;
      above = next.lowest ∷ next.above;
      run =
          >>=-done
            (mul_digit y xs (low ++ (0 ∷ zs)) (u32 (u64 (u64 (u64 (y * x) + carry) + d) / radix)))
            (λ rest. done (u64 (u64 (u64 (y * x) + carry) + d) % radix ∷ rest))
            (ap (λ c. mul_digit y xs (low ++ (0 ∷ zs)) c) (ap (λ s. u32 (s / radix)) temp ∙ exact.1)
              ∙ next.run)
            (ap (λ s. done (s % radix ∷ (next.lowest ∷ (next.above ++ zs)))) temp);
      as_long = ap suc next.as_long;
      bounded = (omega arith, next.bounded);
      value = omega (arith, next.value);
    }

-- What the rounds leave: the digits of the product of `xs` and `ys`, on top of `low`
record AfterRows (ys xs low : List ℕ) : Type 0 where
  product : List ℕ
  run : mul_rows ys xs (low ++ zeros (length ys)) ≡ done product
  long : length product ≡ length ys + length xs
  bounded : AllDigits product
  value : val product ≡ val ys * val xs + val low

mul_rows-AfterRows :
    (ys xs low : List ℕ)
    → AllDigits ys
    → AllDigits xs
    → AllDigits low
    → length low ≡ length xs
    → AfterRows ys xs low
unfolding mul_rows keep_digit val
mul_rows-AfterRows [] xs low hy hx hl e = record {
  product = low;
  run = ap done (append-nil low);
  long = omega arith;
  bounded = hl;
  value = omega arith;
}
mul_rows-AfterRows (y ∷ ys) xs low (hy, hys) hx hl e =
    let first = mul_digit-AfterRow y xs low (zeros (length ys)) 0 hy hx hl e (omega arith) in
    let next = mul_rows-AfterRows ys xs first.above hys hx first.bounded.1 first.as_long in
    record {
      product = first.lowest ∷ next.product;
      run =
          >>=-done (mul_digit y xs (low ++ (0 ∷ zeros (length ys))) 0)
            (λ row. keep_digit row (mul_rows ys xs)) first.run
            (>>=-done (mul_rows ys xs (first.above ++ zeros (length ys)))
              (λ rest. done (first.lowest ∷ rest)) next.run refl);
      long = omega (arith, next.long);
      bounded = (first.bounded.0, next.bounded);
      value = omega (arith, next.value, first.value);
    }

-- `pop_back` on a zero
record AfterPop (ds : List ℕ) : Type 0 where
  rest : List ℕ
  run : pop_zero ds ≡ done rest
  bounded : AllDigits rest
  value : val rest ≡ val ds
  long : length ds ≤ suc (length rest)

pop_zero-AfterPop : (d : ℕ) (ds : List ℕ) → AllDigits (d ∷ ds) → AfterPop (d ∷ ds)
unfolding pop_zero val
pop_zero-AfterPop d [] h = elim (Bool-cases (d == 0)) [
  | inl e ↦ record {
    rest = [];
    run = ap (λ b. done (if b then [] else d ∷ [])) e;
    bounded = tt;
    value = omega (arith, ==→eq d 0 e);
    long = omega arith;
  }
  | inr e ↦ record {
    rest = d ∷ [];
    run = ap (λ b. done (if b then [] else d ∷ [])) e;
    bounded = h;
    value = refl;
    long = omega arith;
  }
]
pop_zero-AfterPop d (e ∷ ds) (hd, h) =
    let next = pop_zero-AfterPop e ds h in
    record {
      rest = d ∷ next.rest;
      run = >>=-done (pop_zero (e ∷ ds)) (λ rest. done (d ∷ rest)) next.run refl;
      bounded = (hd, next.bounded);
      value = omega (arith, next.value);
      long = omega (arith, next.long);
    }

val-zeros : (n : ℕ) → val (zeros n) ≡ 0
unfolding val
val-zeros n = val-append-zeros [] n

zeros_add : (m n : ℕ) → zeros (m + n) ≡ zeros m ++ zeros n
zeros_add zero n = ap zeros {x = 0 + n} (omega arith)
zeros_add (suc m) n =
    ap zeros {x = suc m + n} {y = suc (m + n)} (omega arith) ∙ ap (λ r. 0 ∷ r) (zeros_add m n)

mul_from :
    (nums that product : List ℕ)
    → mul_rows that nums (zeros (length nums + length that)) ≡ done product
    → AllDigits product
    → 2 ≤ length product
    → val product ≡ val nums * val that
    → (product : List ℕ) × (mul nums that ≡ done product)
      × Number product
      × (val product ≡ val nums * val that)
unfolding mul
mul_from nums that [] run h long value = absurd (omega arith)
mul_from nums that (d ∷ ds) run h long value =
    let popped = pop_zero-AfterPop d ds h in
    (
      popped.rest,
      >>=-done (mul_rows that nums (zeros (length nums + length that))) pop_zero run popped.run,
      (omega (arith, popped.long), popped.bounded),
      popped.value ∙ value,
    )

pub mul-val :
    (nums that : List ℕ)
    → Number nums
    → Number that
    → (product : List ℕ) × (mul nums that ≡ done product)
      × Number product
      × (val product ≡ val nums * val that)
unfolding mul
mul-val [] that (p, hn) (q, ht) = absurd (omega arith)
mul-val (x ∷ xs) that (p, hn) (q, ht) =
    let rows =
      mul_rows-AfterRows that (x ∷ xs) (zeros (length (x ∷ xs))) ht hn
        (AllDigits-zeros (length (x ∷ xs))) (length-zeros (length (x ∷ xs))) in
    mul_from (x ∷ xs) that rows.product
      (ap (mul_rows that (x ∷ xs)) (zeros_add (length (x ∷ xs)) (length that)) ∙ rows.run)
      rows.bounded (omega (arith, rows.long))
      (omega (arith, rows.value, val-zeros (length (x ∷ xs))))
