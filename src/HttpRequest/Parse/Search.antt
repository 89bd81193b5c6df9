-- ===== src/HttpRequest/Parse/Search.antt =====
-- Searching lines with more bytes, and with more rounds (findFirstOf and parse, liby_cpp/http/Request.cpp).
use old_tools.Common.{
  ℕ, zero, suc, ◌+◌, ◌-◌, ◌≤◌, ◌<◌, ◌≡◌, inl, inr, refl, ap, ◌∙◌, Bool, true, false, ◌||◌, Option,
  none, some, List, ◌==◌, if◌then◌else◌, Bool-cases, arith,
}
use old_tools.Common.Run.{Run, done, exited, fault, ◌>>=◌, >>=-eq-done, >>=-done}
use old_tools.HttpRequest.{RequestState, byte_at, find_first_of, consumed}
use old_tools.HttpRequest.Parse.{if_found, search, accept, one_line, header_line, from_headers}

pub if_true {ℓ} :
    {A : Type ℓ} {b : Bool} {x r : A} (y : A) → b ≡ true → (if b then x else y) ≡ r → x ≡ r
if_true {b = true} y e h = h
if_true {b = false} y e h = cc

pub if_false {ℓ} :
    {A : Type ℓ} {b : Bool} {y r : A} (x : A) → b ≡ false → (if b then x else y) ≡ r → y ≡ r
if_false {b = true} x e h = cc
if_false {b = false} x e h = h

>>=-agree {ℓ κ} :
    {A : Type ℓ} {B : Type κ} (m : Run A) (f g : A → Run B)
    → ((a : A) → m ≡ done a → f a ≡ g a)
    → (m >>= f) ≡ (m >>= g)
>>=-agree (done a) f g h = h a refl
>>=-agree (exited n) f g h = refl
>>=-agree fault f g h = refl

-- A byte that is found lies among the bytes that were searched.
pub find_first_of_lt :
    (n : ℕ) (memory : List ℕ) (begin c finish : ℕ)
    → find_first_of n memory begin c ≡ done (some finish)
    → (begin ≤ finish) × (finish < begin + n)
unfolding find_first_of
find_first_of_lt zero memory begin c finish h = cc
find_first_of_lt (suc n) memory begin c finish h =
    let (x, read, step) =
      >>=-eq-done (byte_at memory begin)
        (λ x. if x == c then done (some begin) else find_first_of n memory (begin + 1) c) h in
    elim (Bool-cases (x == c)) [
      | inl e ↦
          let found : done (some begin) ≡ done (some finish) =
            if_true (find_first_of n memory (begin + 1) c) e step in
          let same : begin ≡ finish = cc in (omega arith, omega arith)
      | inr e ↦
          let (low, high) =
            find_first_of_lt n memory (begin + 1) c finish (if_false (done (some begin)) e step) in
          (omega arith, omega arith)
    ]

-- It is found as well among more bytes.
pub find_first_of_more :
    (n m : ℕ) (memory : List ℕ) (begin c finish : ℕ)
    → n ≤ m
    → find_first_of n memory begin c ≡ done (some finish)
    → find_first_of m memory begin c ≡ done (some finish)
unfolding find_first_of
find_first_of_more zero m memory begin c finish le h = cc
find_first_of_more (suc n) zero memory begin c finish le h = absurd (omega arith)
find_first_of_more (suc n) (suc m) memory begin c finish le h =
    let (x, read, step) =
      >>=-eq-done (byte_at memory begin)
        (λ x. if x == c then done (some begin) else find_first_of n memory (begin + 1) c) h in
    >>=-done (byte_at memory begin)
      (λ x. if x == c then done (some begin) else find_first_of m memory (begin + 1) c) read
      (elim (Bool-cases (x == c)) [
        | inl e ↦ rw (e) (if_true (find_first_of n memory (begin + 1) c) e step)
        | inr e ↦ rw (e) (
            find_first_of_more n m memory (begin + 1) c finish (omega arith)
              (if_false (done (some begin)) e step))
      ])

if_found-agree :
    (r : RequestState) (begin : ℕ) (f g : ℕ → Run (RequestState × ℕ)) (o : Option ℕ)
    → ((finish : ℕ) → o ≡ some finish → f finish ≡ g finish)
    → if_found r begin f o ≡ if_found r begin g o
unfolding if_found
if_found-agree r begin f g none h = refl
if_found-agree r begin f g (some finish) h = h finish refl

search-agree :
    (memory : List ℕ) (c : ℕ) (r : RequestState) (begin end : ℕ) (f g : ℕ → Run (RequestState × ℕ))
    → ((finish : ℕ) → begin ≤ finish → finish < end → f finish ≡ g finish)
    → search memory c r begin end f ≡ search memory c r begin end g
unfolding search
search-agree memory c r begin end f g h =
    >>=-agree (find_first_of (end - begin) memory begin c) (if_found r begin f) (if_found r begin g)
      λ o e. if_found-agree r begin f g o λ finish same.
        let (low, high) = find_first_of_lt (end - begin) memory begin c finish (e ∙ ap done same) in
        h finish low (omega arith)

accept-agree :
    (f g : RequestState → ℕ → Run (RequestState × ℕ)) (begin finish : ℕ) (a : Bool × RequestState)
    → ((r : RequestState) → f r (finish + 1) ≡ g r (finish + 1))
    → accept f begin finish a ≡ accept g begin finish a
unfolding accept
accept-agree f g begin finish (true, r) h = h (consumed r begin finish)
accept-agree f g begin finish (false, r) h = refl

-- More rounds than there are bytes change nothing.
pub from_headers_fuel :
    (f g : ℕ) (memory : List ℕ) (r : RequestState) (begin end : ℕ)
    → end - begin < f
    → end - begin < g
    → from_headers f memory r begin end ≡ from_headers g memory r begin end
unfolding from_headers one_line
from_headers_fuel zero g memory r begin end p q = absurd (omega arith)
from_headers_fuel (suc f) zero memory r begin end p q = absurd (omega arith)
from_headers_fuel (suc f) (suc g) memory r begin end p q =
    search-agree memory 10 r begin end
      (one_line memory r begin (λ r' b. from_headers f memory r' b end))
      (one_line memory r begin (λ r' b. from_headers g memory r' b end))
      λ finish low high. elim (Bool-cases ((begin == finish) || (begin + 1 == finish))) [
        | inl e ↦ rw (e) refl
        | inr e ↦ rw (e) (
            >>=-agree (header_line memory r begin finish)
              (accept (λ r' b. from_headers f memory r' b end) begin finish)
              (accept (λ r' b. from_headers g memory r' b end) begin finish)
              λ a read.
                accept-agree (λ r' b. from_headers f memory r' b end)
                  (λ r' b. from_headers g memory r' b end) begin finish a
                  λ r'.
                    from_headers_fuel f g memory r' (finish + 1) end (omega arith) (omega arith))
      ]
