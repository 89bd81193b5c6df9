-- ===== src/BigInt/Sum/Carry.antt =====
-- The value of a sum (Add, bigint/BigInt.h).
use old_tools.Common.{
  ℕ, zero, suc, ◌+◌, ◌-◌, ◌*◌, ◌/◌, ◌%◌, ◌≤◌, ◌<◌, ◌≡◌, inl, inr, refl, ap, sym, ◌∙◌, List, [], ◌∷◌,
  ◌++◌, ltb, leb, if◌then◌else◌, length, length-append, take_all, arith, Bool-cases, ltb→lt,
  ltb_false→le,
}
use old_tools.Common.Run.{done, ◌>>=◌, >>=-done}
use old_tools.BigInt.{radix, u32}
use old_tools.BigInt.Digits.{
  val, val-append-zeros, AllDigits, AllDigits-zeros, AllDigits-append, Number, length-zeros, zeros,
}
use old_tools.BigInt.Sum.{resize, settle, carry_out, add_digits, add}

-- No carry wraps or is kept out: with `carry` into them, the digits of `that` stay below the base,
-- and so does the digit of `nums` above them.
abbrev pub Carries : List ℕ → List ℕ → ℕ → Type 0
Carries [] [] carry = Unit {0}
Carries (d ∷ nums) [] carry = d + carry < radix
Carries [] (y ∷ ys) carry = (y + carry < radix) × Carries [] ys 1
Carries (x ∷ xs) (y ∷ ys) carry = (y + carry < radix) × Carries xs ys 1

Carries-le : (xs ys : List ℕ) (c : ℕ) → c ≤ 1 → Carries xs ys 1 → Carries xs ys c
Carries-le [] [] c le h = tt
Carries-le (x ∷ xs) [] c le h = omega arith
Carries-le [] (y ∷ ys) c le (h, k) = (omega arith, k)
Carries-le (x ∷ xs) (y ∷ ys) c le (h, k) = (omega arith, k)

settle_small : (d c : ℕ) → d + suc c < radix → settle 3 d (suc c) ≡ d + suc c
unfolding settle
settle_small d c h = ground arith

record AfterAdd (nums that : List ℕ) (carry : ℕ) : Type 0 where
  result : List ℕ
  run : add_digits nums that carry ≡ done result
  bounded : AllDigits result
  value : val result ≡ val nums + val that + carry
  long : length nums ≤ length result

carried :
    (x y c : ℕ)
    → x < radix
    → y + c < radix
    → (temp : ℕ) × (temp ≡ x + u32 (y + c))
      × ((if leb radix temp then u32 (temp / radix) else 0) ≤ 1)
      × ((if leb radix temp then temp % radix else temp) < radix)
      × ((if leb radix temp then temp % radix else temp)
            + radix * (if leb radix temp then u32 (temp / radix) else 0)
          ≡ x + y + c)
carried x y c hx hy = (x + u32 (y + c), refl, ground arith, ground arith, ground arith)

add_digits-AfterAdd :
    (nums that : List ℕ) (carry : ℕ)
    → length that ≤ length nums
    → AllDigits nums
    → AllDigits that
    → carry ≤ 1
    → Carries nums that carry
    → AfterAdd nums that carry
unfolding add_digits carry_out val
add_digits-AfterAdd [] [] zero le hn ht hc k = record {
  result = [];
  run = refl;
  bounded = tt;
  value = omega arith;
  long = omega arith;
}
add_digits-AfterAdd [] [] (suc c) le hn ht hc k = record {
  result = suc c ∷ [];
  run = refl;
  bounded = (omega arith, tt);
  value = omega arith;
  long = omega arith;
}
add_digits-AfterAdd (d ∷ nums) [] zero le hn ht hc k = record {
  result = d ∷ nums;
  run = refl;
  bounded = hn;
  value = omega arith;
  long = omega arith;
}
add_digits-AfterAdd (d ∷ nums) [] (suc c) le hn ht hc k = record {
  result = (d + suc c) ∷ nums;
  run = ap (λ s. done (s ∷ nums)) (settle_small d c k);
  bounded = (k, hn.1);
  value = omega arith;
  long = omega arith;
}
add_digits-AfterAdd [] (y ∷ ys) carry le hn ht hc k = absurd (omega arith)
add_digits-AfterAdd (x ∷ xs) (y ∷ ys) carry le (px, hx) (py, hy) hc (k, ks) =
    let (temp, e, c_le, d_lt, sum) = carried x y carry px k in
    let next =
      add_digits-AfterAdd xs ys (if leb radix temp then u32 (temp / radix) else 0) (omega arith) hx
        hy c_le (Carries-le xs ys (if leb radix temp then u32 (temp / radix) else 0) c_le ks) in
    record {
      result = (if leb radix temp then temp % radix else temp) ∷ next.result;
      run =
          ap
            (λ t. add_digits xs ys (if leb radix t then u32 (t / radix) else 0) >>= λ rest.
              done ((if leb radix t then t % radix else t) ∷ rest))
            (sym e)
          ∙ >>=-done (add_digits xs ys (if leb radix temp then u32 (temp / radix) else 0))
              (λ rest. done ((if leb radix temp then temp % radix else temp) ∷ rest)) next.run refl;
      bounded = (d_lt, next.bounded);
      value = omega (arith, next.value, sum);
      long = omega (arith, next.long);
    }

Carries-zeros :
    (nums that : List ℕ) (n c : ℕ) → c ≤ 1 → Carries nums that c → Carries (nums ++ zeros n) that c
Carries-zeros [] [] zero c le h = tt
Carries-zeros [] [] (suc n) c le h = omega arith
Carries-zeros (d ∷ nums) [] n c le h = h
Carries-zeros [] (y ∷ ys) zero c le h = h
Carries-zeros [] (y ∷ ys) (suc n) c le (h, k) = (h, Carries-zeros [] ys n 1 (omega arith) k)
Carries-zeros (x ∷ xs) (y ∷ ys) n c le (h, k) = (h, Carries-zeros xs ys n 1 (omega arith) k)

-- For two numbers, if no digit of the second above its lowest, nor the digit of the first
-- above them, is the greatest one, Add ends without a fault and leaves the sum.
pub add-val :
    (nums that : List ℕ)
    → Number nums
    → Number that
    → Carries nums that 0
    → (result : List ℕ) × (add nums that ≡ done result)
      × Number result
      × (val result ≡ val nums + val that)
unfolding add resize
add-val nums that (p, hn) (q, ht) k = elim (Bool-cases (ltb (length nums) (length that))) [
  | inl e ↦
      let n = length that - length nums in
      let as_long = length-append nums (zeros n) ∙ ap (λ m. length nums + m) (length-zeros n) in
      let lt = ltb→lt (length nums) (length that) e in
      let all = ap (λ l. l ++ zeros n) (take_all (length that) nums (omega arith)) in
      let s =
        add_digits-AfterAdd (nums ++ zeros n) that 0 (omega arith)
          (AllDigits-append nums (zeros n) hn (AllDigits-zeros n)) ht (omega arith)
          (Carries-zeros nums that n 0 (omega arith) k) in
      (
        s.result,
        rw (e) (ap (λ l. add_digits l that 0) all ∙ s.run),
        (omega (arith, s.long, as_long), s.bounded),
        s.value ∙ omega (arith, val-append-zeros nums n),
      )
  | inr e ↦
      let s =
        add_digits-AfterAdd nums that 0 (ltb_false→le (length nums) (length that) e) hn ht
          (omega arith) k in
      (s.result, rw (e) s.run, (omega (arith, s.long), s.bounded), s.value ∙ omega arith)
]
