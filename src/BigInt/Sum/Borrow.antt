-- ===== src/BigInt/Sum/Borrow.antt =====
-- The value of a difference (Sub, bigint/BigInt.h).
use old_tools.Common.{
  ℕ, zero, suc, ◌+◌, ◌-◌, ◌*◌, ◌≤◌, ◌<◌, ◌≡◌, inl, inr, refl, ap, List, [], ◌∷◌, ◌==◌, ltb,
  if◌then◌else◌, length, arith, Bool-cases, ltb→lt, ltb_false→le,
}
use old_tools.Common.Run.{done, >>=-done}
use old_tools.BigInt.{radix, u32}
use old_tools.BigInt.Digits.{val, AllDigits, Number, Normal}
use old_tools.BigInt.Sum.{resize, sub_u32, borrow_out, sub_digits, used, sub}
use old_tools.BigInt.Sum.Strip.{shrunk}

-- No borrow is taken from a zero digit that `that` reaches: with `borrow` out of them
abbrev pub Lends : List ℕ → List ℕ → ℕ → Type 0
Lends nums [] borrow = Unit {0}
Lends [] (y ∷ ys) borrow = Unit {0}
Lends (x ∷ xs) (y ∷ ys) borrow = (borrow ≤ x) × Lends xs ys 1

Lends-le : (xs ys : List ℕ) (b : ℕ) → b ≤ 1 → Lends xs ys 1 → Lends xs ys b
Lends-le [] [] b le h = tt
Lends-le (x ∷ xs) [] b le h = tt
Lends-le [] (y ∷ ys) b le h = tt
Lends-le (x ∷ xs) (y ∷ ys) b le (h, k) = (omega arith, k)

record AfterSub (nums result : List ℕ) (taken : ℕ) : Type 0 where
  bounded : AllDigits result
  value : val result + taken ≡ val nums
  as_long : length result ≡ length nums

borrow_out-AfterSub :
    (ds : List ℕ) (b : ℕ) → AllDigits ds → b ≤ 1 → b ≤ val ds → AfterSub ds (borrow_out ds b) b
unfolding borrow_out val sub_u32
borrow_out-AfterSub ds zero h le lv = record { bounded = h; value = omega arith; as_long = refl }
borrow_out-AfterSub [] (suc b) h le lv = absurd (omega arith)
borrow_out-AfterSub (d ∷ ds) (suc b) (p, h) le lv = elim (Bool-cases (ltb d (suc b))) [
  | inl e ↦
      let lt = ltb→lt d (suc b) e in
      let next = borrow_out-AfterSub ds 1 h (omega arith) (omega arith) in
      rw (e) (record {
        bounded = (omega arith, next.bounded);
        value = omega (arith, next.value);
        as_long = ap suc next.as_long;
      })
  | inr e ↦ rw (e) (record {
    bounded = (omega arith, h);
    value = omega (arith, ltb_false→le d (suc b) e);
    as_long = refl;
  })
]

taken :
    (x y b : ℕ)
    → x < radix
    → y < radix
    → b ≤ x
    → b ≤ 1
    → (sub_u32 (if ltb (sub_u32 x b) y then u32 (sub_u32 x b + radix) else sub_u32 x b) y < radix)
      × ((if ltb (sub_u32 x b) y then 1 else 0) ≤ 1)
      × (sub_u32 (if ltb (sub_u32 x b) y then u32 (sub_u32 x b + radix) else sub_u32 x b) y + y + b
          ≡ x + radix * (if ltb (sub_u32 x b) y then 1 else 0))
unfolding sub_u32
taken x y b hx hy hb le =
    let e : u32 (x + (radix - b)) ≡ x - b = omega arith in
    rw (e) (omega arith, ground arith, ground arith)

sub_digits-AfterSub :
    (nums that : List ℕ) (b : ℕ)
    → length that ≤ length nums
    → AllDigits nums
    → AllDigits that
    → b ≤ 1
    → Lends nums that b
    → val that + b ≤ val nums
    → (result : List ℕ) × (sub_digits nums that b ≡ done result)
      × AfterSub nums result (val that + b)
unfolding sub_digits val
sub_digits-AfterSub nums [] b le hn ht hb k lv =
    let d = borrow_out-AfterSub nums b hn hb (omega arith) in
    (
      borrow_out nums b,
      refl,
      record { bounded = d.bounded; value = omega (arith, d.value); as_long = d.as_long },
    )
sub_digits-AfterSub [] (y ∷ ys) b le hn ht hb k lv = absurd (omega arith)
sub_digits-AfterSub (x ∷ xs) (y ∷ ys) b le (px, hx) (py, hy) hb (k, ks) lv =
    let (d_lt, b_le, e) = taken x y b px py k hb in
    let b' : ℕ = (if ltb (sub_u32 x b) y then 1 else 0) in
    let (rest, run, d) =
      sub_digits-AfterSub xs ys b' (omega arith) hx hy b_le (Lends-le xs ys b' b_le ks)
        (omega arith) in
    (
      sub_u32 (if ltb (sub_u32 x b) y then u32 (sub_u32 x b + radix) else sub_u32 x b) y ∷ rest,
      >>=-done (sub_digits xs ys b')
          (λ rest. done (
            sub_u32 (if ltb (sub_u32 x b) y then u32 (sub_u32 x b + radix) else sub_u32 x b) y
            ∷ rest))
          run refl,
      record {
        bounded = (d_lt, d.bounded);
        value = omega (arith, d.value, e);
        as_long = ap suc d.as_long;
      },
    )

-- For two numbers of which the second has no more digits and no greater value, if no digit of
-- the first above its lowest that the second reaches is 0, Sub ends without a fault and leaves
-- the difference, without zeros above the highest digit.
pub sub-val :
    (nums that : List ℕ)
    → Number nums
    → Number that
    → length that ≤ length nums
    → Lends nums that 0
    → val that ≤ val nums
    → (result : List ℕ) × (sub nums that ≡ done result)
      × Normal result
      × (val result + val that ≡ val nums)
unfolding sub
sub-val nums that (p, hn) (q, ht) le k lv =
    let (ds, run, d) = sub_digits-AfterSub nums that 0 le hn ht (omega arith) k (omega arith) in
    let (normal, same) = shrunk ds (omega (arith, d.as_long)) d.bounded in
    let n = if used ds 0 0 == 0 then 1 else used ds 0 0 in
    (
      resize ds n,
      >>=-done (sub_digits nums that 0)
          (λ ds. done (resize ds (if used ds 0 0 == 0 then 1 else used ds 0 0))) run refl,
      normal,
      omega (arith, same, d.value),
    )
