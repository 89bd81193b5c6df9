-- ===== src/BigInt/Digits.antt =====
-- The number that a list of digits stands for (bigint/BigInt.h).
use native.Mathlib.Nat.{pow-zero, pow-suc}
use old_tools.Common.{
  true, false, ◌&&◌, ◌==◌, ==→eq, none, some, get_elem?, ℕ, zero, suc, ◌+◌, ◌^◌, ◌*◌, ◌≤◌, ◌<◌, ◌≡◌,
  ◌≢◌, refl, ap, List, [], ◌∷◌, ◌++◌, arith, length,
}
use old_tools.BigInt.{radix, BigInt, is_zero}

-- The lowest digit comes first.
unfoldable pub val : List ℕ → ℕ
val [] = 0
val (d ∷ ds) = d + radix * val ds

abbrev pub AllDigits : List ℕ → Type 0
AllDigits [] = Unit {0}
AllDigits (d ∷ ds) = (d < radix) × AllDigits ds

-- The digits of an integer: at least one, each below the base
abbrev pub Number : List ℕ → Type 0
Number ds = (0 < length ds) × AllDigits ds

-- The highest digit is not zero.
abbrev pub Leads : List ℕ → Type 0
Leads [] = Unit {0}
Leads (d ∷ []) = d ≢ 0
Leads (d ∷ e ∷ ds) = Leads (e ∷ ds)

abbrev pub zeros : ℕ → List ℕ
zeros zero = []
zeros (suc n) = 0 ∷ zeros n

pub length-zeros : (n : ℕ) → length (zeros n) ≡ n
length-zeros zero = refl
length-zeros (suc n) = ap suc (length-zeros n)

pub val-append_zero : (ds : List ℕ) → val (ds ++ (0 ∷ [])) ≡ val ds
unfolding val
val-append_zero [] = refl
val-append_zero (d ∷ ds) = omega (arith, val-append_zero ds)

pub val-append-zeros : (ds : List ℕ) (n : ℕ) → val (ds ++ zeros n) ≡ val ds
unfolding val
val-append-zeros [] zero = refl
val-append-zeros [] (suc n) = omega (arith, val-append-zeros [] n)
val-append-zeros (d ∷ ds) n = omega (arith, val-append-zeros ds n)

pub AllDigits-zeros : (n : ℕ) → AllDigits (zeros n)
AllDigits-zeros zero = tt
AllDigits-zeros (suc n) = (omega arith, AllDigits-zeros n)

pub AllDigits-append : (ds es : List ℕ) → AllDigits ds → AllDigits es → AllDigits (ds ++ es)
AllDigits-append [] es h k = k
AllDigits-append (d ∷ ds) es (p, h) k = (p, AllDigits-append ds es h k)

-- As every integer is kept that a constructor or Sub leaves: no zero above the highest digit
abbrev pub Normal : List ℕ → Type 0
Normal ds = Number ds × ((1 < length ds) → Leads ds)

pub val_lt : (ds : List ℕ) → AllDigits ds → val ds < radix ^ length ds
unfolding val
val_lt [] h = omega (arith, pow-zero radix)
val_lt (d ∷ ds) (p, h) = omega (arith, val_lt ds h, pow-suc radix (length ds))

pub Leads-le : (ds : List ℕ) → 0 < length ds → Leads ds → radix ^ length ds ≤ radix * val ds
unfolding val
Leads-le [] p h = absurd (omega arith)
Leads-le (d ∷ []) p h = omega (arith, pow-suc radix 0, pow-zero radix)
Leads-le (d ∷ e ∷ ds) p h =
    omega (arith, Leads-le (e ∷ ds) (omega arith) h, pow-suc radix (suc (length ds)))

only_zero-val :
    (ds : List ℕ)
    → ((length ds == 1) && (elim (get_elem? ds 0) [ none ↦ false | some d ↦ d == 0 ])) ≡ true
    → val ds ≡ 0
unfolding val
only_zero-val [] h = refl
only_zero-val (d ∷ []) h = omega (arith, ==→eq d 0 h)
only_zero-val (d ∷ e ∷ ds) h = ground arith

pub is_zero-val : (n : BigInt) → is_zero n ≡ true → val n.nums ≡ 0
unfolding is_zero
is_zero-val n h = only_zero-val n.nums h
