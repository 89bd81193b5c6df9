-- ===== src/Common/Perms.antt =====
-- Boolean predicates on lists, and what a permutation keeps.
use Prim.Native.Nat.{ℕ, zero, suc, ◌+◌}
use mathlib.Core.Path.{◌≡◌, refl, ap, ap₂, ◌∙◌}
use mathlib.Core.List.{List, [], ◌∷◌, ◌++◌}
use mathlib.Core.Option.{some}
use mathlib.Core.Bool.{Bool-set, Bool, true, false, ◌&&◌, ◌||◌}
use mathlib.Core.Logic.{∥∥₁_elim}
use mathlib.Core.List.{Perm, Permᴰ}
use native.Mathlib.Nat.{ℕ_set}
use native.Mathlib.Omega.{arith}
use old_tools.Common.Lists.{length, get_elem?}

module _ {ℓ} {A : Type ℓ} (p : A → Bool) where
  abbrev pub any : List A → Bool
  any [] = false
  any (x ∷ xs) = p x || any xs

  abbrev pub all : List A → Bool
  all [] = true
  all (x ∷ xs) = p x && all xs

  pub any-append : (xs ys : List A) → any (xs ++ ys) ≡ (any xs || any ys)
  any-append [] ys = refl
  any-append (x ∷ xs) ys = ground (arith, any-append xs ys)

  pub all-append : (xs ys : List A) → all (xs ++ ys) ≡ (all xs && all ys)
  all-append [] ys = refl
  all-append (x ∷ xs) ys = ground (arith, all-append xs ys)

  pub any_of_get_elem :
      (xs : List A) (i : ℕ) {x : A} → get_elem? xs i ≡ some x → p x ≡ true → any xs ≡ true
  any_of_get_elem [] i e h = cc
  any_of_get_elem (y ∷ xs) zero e h = ground arith
  any_of_get_elem (y ∷ xs) (suc i) e h = ground (arith, any_of_get_elem xs i e h)

  any-permᴰ : {xs ys : List A} → Permᴰ xs ys → any xs ≡ any ys
  any-permᴰ Permᴰ.nil = refl
  any-permᴰ (Permᴰ.cons e s) = ap₂ (λ x r. p x || r) e (any-permᴰ s)
  any-permᴰ (Permᴰ.swap {a} {b} e f) = ground (arith, ap p e, ap p f)
  any-permᴰ (Permᴰ.trans s t) = any-permᴰ s ∙ any-permᴰ t

  all-permᴰ : {xs ys : List A} → Permᴰ xs ys → all xs ≡ all ys
  all-permᴰ Permᴰ.nil = refl
  all-permᴰ (Permᴰ.cons e s) = ap₂ (λ x r. p x && r) e (all-permᴰ s)
  all-permᴰ (Permᴰ.swap e f) = ground (arith, ap p e, ap p f)
  all-permᴰ (Permᴰ.trans s t) = all-permᴰ s ∙ all-permᴰ t

  pub any-perm : {xs ys : List A} → Perm xs ys → any xs ≡ any ys
  any-perm s = ∥∥₁_elim s (Bool-set _ _) any-permᴰ

  pub all-perm : {xs ys : List A} → Perm xs ys → all xs ≡ all ys
  all-perm s = ∥∥₁_elim s (Bool-set _ _) all-permᴰ

module _ {ℓ} {A : Type ℓ} where
  length-permᴰ : {xs ys : List A} → Permᴰ xs ys → length xs ≡ length ys
  length-permᴰ Permᴰ.nil = refl
  length-permᴰ (Permᴰ.cons e s) = ap suc (length-permᴰ s)
  length-permᴰ (Permᴰ.swap e f) = refl
  length-permᴰ (Permᴰ.trans s t) = length-permᴰ s ∙ length-permᴰ t

  pub length-perm : {xs ys : List A} → Perm xs ys → length xs ≡ length ys
  length-perm s = ∥∥₁_elim s (ℕ_set _ _) length-permᴰ

module _ {ℓ} {A : Type ℓ} (f : A → ℕ) where
  abbrev pub sum : List A → ℕ
  sum [] = 0
  sum (x ∷ xs) = f x + sum xs

  pub sum-append : (xs ys : List A) → sum (xs ++ ys) ≡ sum xs + sum ys
  sum-append [] ys = omega arith
  sum-append (x ∷ xs) ys = omega (arith, sum-append xs ys)

  sum-permᴰ : {xs ys : List A} → Permᴰ xs ys → sum xs ≡ sum ys
  sum-permᴰ Permᴰ.nil = refl
  sum-permᴰ (Permᴰ.cons e s) = omega (arith, ap f e, sum-permᴰ s)
  sum-permᴰ (Permᴰ.swap e g) = omega (arith, ap f e, ap f g)
  sum-permᴰ (Permᴰ.trans s t) = sum-permᴰ s ∙ sum-permᴰ t

  pub sum-perm : {xs ys : List A} → Perm xs ys → sum xs ≡ sum ys
  sum-perm s = ∥∥₁_elim s (ℕ_set _ _) sum-permᴰ
