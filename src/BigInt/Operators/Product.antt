-- ===== src/BigInt/Operators/Product.antt =====
-- The integer that `operator*=` leaves (bigint/BigInt.h).
use old_tools.Common.{
  ℕ, zero, suc, ◌*◌, ◌≡◌, inl, inr, refl, subst, ap, sym, ◌∙◌, Bool, true, false, Bool-cases, arith,
  ℤ, pos, signed, ◌*ℤ◌,
}
use old_tools.Common.Run.{done, >>=-done}
use old_tools.BigInt.{BigInt, is_zero}
use old_tools.BigInt.Digits.{val, Number, is_zero-val}
use old_tools.BigInt.Mul.{mul}
use old_tools.BigInt.Mul.Laws.{mul-val}
use old_tools.BigInt.Sum.{same_sign}
use old_tools.BigInt.Operators.{zero_positive, mul_assign}

-- The integer that the fields stand for
abbrev pub value : BigInt → ℤ
value a = signed a.sign (val a.nums)

signed-zero : (s : Bool) → signed s 0 ≡ pos 0
signed-zero true = refl
signed-zero false = refl

zero_positive-value : (a : BigInt) → value (zero_positive a) ≡ value a
unfolding zero_positive
zero_positive-value a = elim (Bool-cases (is_zero a)) [
  | inl e ↦
      rw (e)
        (ap pos (is_zero-val a e) ∙ sym (ap (signed a.sign) (is_zero-val a e) ∙ signed-zero a.sign))
  | inr e ↦ rw (e) refl
]

zero_positive-nums : (a : BigInt) → (zero_positive a).nums ≡ a.nums
unfolding zero_positive
zero_positive-nums a = elim (Bool-cases (is_zero a)) [ inl e ↦ rw (e) refl | inr e ↦ rw (e) refl ]

signed-product : (s t : Bool) (m n : ℕ) → signed (same_sign s t) (m * n) ≡ signed s m *ℤ signed t n
unfolding same_sign
signed-product true true m n = refl
signed-product true false m zero =
    ap (signed false) {x = m * 0} {y = 0} (omega arith) ∙ ap pos {x = 0} {y = m * 0} (omega arith)
signed-product true false m (suc n) = refl
signed-product false true zero n =
    ap (signed false) {x = 0 * n} {y = 0} (omega arith) ∙ ap pos {x = 0} {y = 0 * n} (omega arith)
signed-product false true (suc m) n = refl
signed-product false false zero zero = refl
signed-product false false zero (suc n) =
    ap pos {x = 0 * suc n} {y = 0} (omega arith)
    ∙ sym (ap (signed false) {x = 0 * suc n} {y = 0} (omega arith))
signed-product false false (suc m) zero =
    ap pos {x = suc m * 0} {y = 0} (omega arith)
    ∙ sym (ap (signed false) {x = suc m * 0} {y = 0} (omega arith))
signed-product false false (suc m) (suc n) = refl

-- For two integers with at least one digit each and all digits below the base, operator*= ends
-- without a fault, leaves digits below the base, and its integer, with the sign, is the
-- product.
pub mul_assign-product :
    (a b : BigInt)
    → Number a.nums
    → Number b.nums
    → (c : BigInt) × (mul_assign a b ≡ done c) × Number c.nums × (value c ≡ value a *ℤ value b)
unfolding mul_assign
mul_assign-product a b ha hb =
    let (nums, run, h, e) = mul-val a.nums b.nums ha hb in
    let c : BigInt = record { sign = same_sign a.sign b.sign; nums = nums } in
    (
      zero_positive c,
      >>=-done (mul a.nums b.nums)
          (λ ds. done (zero_positive (record { sign = same_sign a.sign b.sign; nums = ds }))) run
          refl,
      subst Number (sym (zero_positive-nums c)) h,
      zero_positive-value c
          ∙ ap (signed (same_sign a.sign b.sign)) e
          ∙ signed-product a.sign b.sign (val a.nums) (val b.nums),
    )
