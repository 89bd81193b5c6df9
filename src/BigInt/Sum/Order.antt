-- ===== src/BigInt/Sum/Order.antt =====
-- The order that CompareNoSign decides (bigint/BigInt.h).
use native.Mathlib.Nat.{pow-le-pow_right, pow-suc}
use old_tools.Common.{
  ℕ, suc, ◌+◌, ◌*◌, ◌^◌, ◌≤◌, ◌<◌, ◌≡◌, inl, inr, refl, sym, ◌∙◌, Bool, false, List, [], ◌∷◌, ◌==◌,
  ltb, if◌then◌else◌, length, arith, Bool-cases, ltb→lt, lt→ltb, le→ltb_false, ==→eq,
}
use old_tools.BigInt.{radix}
use old_tools.BigInt.Digits.{val, val_lt, AllDigits, Leads-le, Normal}
use old_tools.BigInt.Sum.{first_differs, compare_no_sign}

highest_wins :
    (x y m n : ℕ) (below : Bool)
    → x < radix
    → y < radix
    → (if m == n then (if x == y then below else ltb x y) else ltb m n)
      ≡ (if x + radix * m == y + radix * n then below else ltb (x + radix * m) (y + radix * n))
highest_wins x y m n below hx hy = ground arith

first_differs-val :
    (xs ys : List ℕ) (below : Bool)
    → length xs ≡ length ys
    → AllDigits xs
    → AllDigits ys
    → first_differs xs ys below ≡ (if val xs == val ys then below else ltb (val xs) (val ys))
unfolding first_differs val
first_differs-val [] [] below e hx hy = refl
first_differs-val [] (y ∷ ys) below e hx hy = absurd (omega arith)
first_differs-val (x ∷ xs) [] below e hx hy = absurd (omega arith)
first_differs-val (x ∷ xs) (y ∷ ys) below e (px, hx) (py, hy) =
    first_differs-val xs ys (if x == y then below else ltb x y) (omega arith) hx hy
    ∙ highest_wins x y (val xs) (val ys) below px py

shorter_lt :
    (xs ys : List ℕ)
    → AllDigits xs
    → Normal ys
    → length xs < length ys
    → 0 < length xs
    → val xs < val ys
shorter_lt xs ys hx ((p, hy), leads) lt pos =
    let low = val_lt xs hx in
    let high = Leads-le ys p (leads (omega arith)) in
    let grows : radix ^ suc (length xs) ≤ radix ^ length ys =
      pow-le-pow_right (omega arith) (omega arith) in
    omega (arith, low, high, grows, pow-suc radix (length xs))

if_equal-ltb : (m n : ℕ) → (if m == n then false else ltb m n) ≡ ltb m n
if_equal-ltb m n = ground arith

longer : (m n : ℕ) → ltb m n ≡ false → (m == n) ≡ false → n < m
longer m n e f = ground arith

lt→le : {m n : ℕ} → m < n → m ≤ n
lt→le h = omega arith

-- For two numbers without zeros above their highest digits CompareNoSign tells whether the
-- value of the first is less than that of the second.
pub compare_no_sign-ltb :
    (nums that : List ℕ)
    → Normal nums
    → Normal that
    → compare_no_sign nums that ≡ ltb (val nums) (val that)
unfolding compare_no_sign
compare_no_sign-ltb nums that hn ht = elim (Bool-cases (ltb (length nums) (length that))) [
  | inl e ↦ rw (e) (
      sym (
        lt→ltb (val nums) (val that)
          (shorter_lt nums that hn.0.1 ht (ltb→lt (length nums) (length that) e) hn.0.0)))
  | inr e ↦ elim (Bool-cases (length nums == length that)) [
    | inl f ↦
        rw (e, f)
          (first_differs-val nums that false (==→eq (length nums) (length that) f) hn.0.1 ht.0.1
            ∙ if_equal-ltb (val nums) (val that))
    | inr f ↦
        rw (e, f)
          (sym (
            le→ltb_false (val nums) (val that) (
              lt→le
                (shorter_lt that nums ht.0.1 hn (longer (length nums) (length that) e f) ht.0.0))))
  ]
]
