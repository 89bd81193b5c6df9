-- ===== src/BigInt/Sum/Strip.antt =====
-- The leading zeros that Sub takes off (bigint/BigInt.h).
use old_tools.Common.{
  ℕ, suc, ◌+◌, ◌-◌, ◌≤◌, ◌<◌, ◌≡◌, inl, inr, refl, ap, sym, ◌∙◌, List, [], ◌∷◌, ◌++◌, append-nil,
  ◌==◌, ==→eq, ==_false→ne, if◌then◌else◌, length, take, length-take_le, arith, Bool-cases,
}
use old_tools.BigInt.Digits.{val, AllDigits, Normal, Leads, zeros}
use old_tools.BigInt.Sum.{resize, used}

-- The number of digits up to the highest that is not zero
top : List ℕ → ℕ
top [] = 0
top (d ∷ ds) = if top ds == 0 then (if d == 0 then 0 else 1) else suc (top ds)

used-top : (ds : List ℕ) (i n : ℕ) → used ds i n ≡ (if top ds == 0 then n else i + top ds)
unfolding used top
used-top [] i n = refl
used-top (d ∷ ds) i n = used-top ds (i + 1) (if d == 0 then n else i + 1) ∙ two_ways d (top ds) i n
  where
    two_ways :
        (d t i n : ℕ)
        → (if t == 0 then (if d == 0 then n else i + 1) else i + 1 + t) ≡ (
            if (if t == 0 then (if d == 0 then 0 else 1) else suc t) == 0
            then n
            else i + (if t == 0 then (if d == 0 then 0 else 1) else suc t))
    two_ways d t i n = ground arith

top_le : (ds : List ℕ) → top ds ≤ length ds
unfolding top
top_le [] = omega arith
top_le (d ∷ ds) = let h = top_le ds in ground arith

Leads-cons : (d : ℕ) (es : List ℕ) → 0 < length es → Leads es → Leads (d ∷ es)
Leads-cons d [] p h = absurd (omega arith)
Leads-cons d (e ∷ es) p h = h

record AfterStrip (ds rest : List ℕ) : Type 0 where
  bounded : AllDigits rest
  value : val rest ≡ val ds
  leads : Leads rest

take-AfterStrip : (ds : List ℕ) → AllDigits ds → AfterStrip ds (take (top ds) ds)
unfolding top val
take-AfterStrip [] h = record { bounded = tt; value = refl; leads = tt }
take-AfterStrip (d ∷ ds) (p, h) =
    let next = take-AfterStrip ds h in
    elim (Bool-cases (top ds == 0)) [
      | inl e ↦
          let none_above = sym (ap (λ t. val (take t ds)) (==→eq (top ds) 0 e)) ∙ next.value in
          elim (Bool-cases (d == 0)) [
            | inl f ↦
                rw (e, f)
                  (record {
                    bounded = tt;
                    value = omega (arith, none_above, ==→eq d 0 f);
                    leads = tt;
                  })
            | inr f ↦
                rw (e, f)
                  (record {
                    bounded = (p, tt);
                    value = omega (arith, none_above);
                    leads = ==_false→ne d 0 f;
                  })
          ]
      | inr e ↦ rw (e) (record {
        bounded = (p, next.bounded);
        value = omega (arith, next.value);
        leads =
            Leads-cons d (take (top ds) ds)
              (omega (arith, length-take_le (top ds) ds (top_le ds), ==_false→ne (top ds) 0 e))
              next.leads;
      })
    ]

resize_le : (ds : List ℕ) (n : ℕ) → n ≤ length ds → take n ds ++ zeros (n - length ds) ≡ take n ds
resize_le ds n le =
    ap (λ k. take n ds ++ zeros k) {x = n - length ds} {y = 0} (omega arith)
    ∙ append-nil (take n ds)

first_digit :
    (ds : List ℕ)
    → 0 < length ds
    → AllDigits ds
    → val ds ≡ 0
    → Normal (take 1 ds) × (val (take 1 ds) ≡ val ds)
unfolding val
first_digit [] p h e = absurd (omega arith)
first_digit (d ∷ ds) p (q, h) e = (((omega arith, (q, tt)), λ r. absurd (omega arith)), omega arith)

no_digits-val : val [] ≡ 0
unfolding val
no_digits-val = refl

-- What the last lines of Sub leave: a single digit at least
pub shrunk :
    (ds : List ℕ)
    → 0 < length ds
    → AllDigits ds
    → Normal (resize ds (if used ds 0 0 == 0 then 1 else used ds 0 0))
      × (val (resize ds (if used ds 0 0 == 0 then 1 else used ds 0 0)) ≡ val ds)
unfolding resize
shrunk ds p h =
    let s = take-AfterStrip ds h in
    let le = top_le ds in
    elim (Bool-cases (top ds == 0)) [
      | inl e ↦
          let n : used ds 0 0 ≡ 0 = used-top ds 0 0 ∙ ap (λ b. if b then 0 else 0 + top ds) e in
          let none_above = sym (ap (λ t. val (take t ds)) (==→eq (top ds) 0 e)) ∙ s.value in
          rw (n, resize_le ds 1 p) (first_digit ds p h (sym none_above ∙ no_digits-val))
      | inr e ↦
          let n : used ds 0 0 ≡ top ds =
            used-top ds 0 0 ∙ ap (λ b. if b then 0 else 0 + top ds) e ∙ omega arith in
          rw (n, e, resize_le ds (top ds) le)
            (
              (
                (omega (arith, length-take_le (top ds) ds le, ==_false→ne (top ds) 0 e), s.bounded),
                λ q. s.leads,
              ),
              s.value,
            )
    ]
