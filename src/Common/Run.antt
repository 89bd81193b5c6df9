-- ===== src/Common/Run.antt =====
-- How a run of a program's code ends: with a value, through `exit`, or in undefined behaviour.
use Prim.Native.Nat.{ℕ}
use mathlib.Core.Option.{Option, none, some}
use mathlib.Core.Path.{◌≡◌, refl, ap, ◌∙◌}

pub data Run {ℓ} (A : Type ℓ) : Type ℓ where
  done : A → Run A
  exited : ℕ → Run A
  fault : Run A

infixl 5 ◌>>=◌
abbrev pub ◌>>=◌ {ℓ κ} : {A : Type ℓ} {B : Type κ} → Run A → (A → Run B) → Run B
done a >>= f = f a
exited n >>= f = exited n
fault >>= f = fault

-- The next step of a run whose loops are cut off, where `none` is a loop that goes on
infixl 5 ◌>>?◌
abbrev pub ◌>>?◌ {ℓ κ} :
    {A : Type ℓ} {B : Type κ} → Run (Option A) → (A → Run (Option B)) → Run (Option B)
done none >>? f = done none
done (some a) >>? f = f a
exited n >>? f = exited n
fault >>? f = fault

pub done-injective {ℓ} : {A : Type ℓ} {a b : A} → done a ≡ done b → a ≡ b
done-injective {a} e = ap (λ r. elim r [ done x ↦ x | exited n ↦ a | fault ↦ a ]) e

-- What a run that ends with a value went through
pub >>=-eq-done {ℓ κ} :
    {A : Type ℓ} {B : Type κ} {b : B} (m : Run A) (f : A → Run B)
    → (m >>= f) ≡ done b
    → (a : A) × (m ≡ done a) × (f a ≡ done b)
>>=-eq-done (done a) f h = (a, refl, h)
>>=-eq-done (exited n) f h = cc
>>=-eq-done fault f h = cc

pub >>=-done {ℓ κ} :
    {A : Type ℓ} {B : Type κ} {a : A} {r : Run B} (m : Run A) (f : A → Run B)
    → m ≡ done a
    → f a ≡ r
    → (m >>= f) ≡ r
>>=-done (done a) f h k = ap f (done-injective h) ∙ k
>>=-done (exited n) f h k = cc
>>=-done fault f h k = cc

pub >>=-fault {ℓ κ} :
    {A : Type ℓ} {B : Type κ} (m : Run A) (f : A → Run B) → m ≡ fault → (m >>= f) ≡ fault
>>=-fault (done a) f h = cc
>>=-fault (exited n) f h = cc
>>=-fault fault f h = refl
