-- ===== src/Uthread/Queue/Errors.antt =====
-- uthread_pop and uthread_del on the lists that uthread_push makes (uthread/uthread.c).
use old_tools.Common.{
  ℕ, zero, suc, ◌≡◌, refl, ap, ◌∙◌, subst, false, Option, none, some, List, [], ◌∷◌, ◌==◌, ==→eq,
  if◌then◌else◌, arith, Avoids, Distinct, Bool-cases, inl, inr,
}
use old_tools.Common.Run.{done, fault, ◌>>=◌, >>=-done, >>=-fault}
use old_tools.Uthread.{
  Uthread, Schedule, deref, get_uthread, write_uthread, set_uthread, is, same, clear, unlink,
  pop_tail, pop_at, uthread_pop, del_inner, del_found, del_loop, del_at, uthread_del,
}
use old_tools.Uthread.Queue.{
  first, Listed, last, Queue, with_other, get_uthread-some, set_uthread-some,
}

flip : (a b : ℕ) → (a == b) ≡ false → (b == a) ≡ false
flip a b h = ground arith

-- A tail without a previous entry
pop_tail-first :
    (x : ℕ) (s : Schedule) (u : Uthread)
    → s.threads x ≡ some u
    → u.prev ≡ none
    → pop_tail x s ≡ fault
unfolding pop_tail unlink
pop_tail-first x s u e n = >>=-done (get_uthread x s) _ (get_uthread-some x s u e) (
    ap (λ o. if is x o then done (some x, clear s) else unlink x s) n
    ∙ >>=-done (get_uthread x s) _ (get_uthread-some x s u e)
        (>>=-fault (deref u.prev) _ (ap deref n)))

-- A tail with a previous entry and without a next one
pop_tail-last :
    (x y : ℕ) (s : Schedule) (u w : Uthread)
    → s.threads x ≡ some u
    → s.threads y ≡ some w
    → u.prev ≡ some y
    → u.next ≡ none
    → (y == x) ≡ false
    → pop_tail x s ≡ fault
unfolding pop_tail unlink deref
pop_tail-last x y s u w e f b n h =
    let s1 = write_uthread y (record w { next = u.next }) s in
    >>=-done (get_uthread x s) _ (get_uthread-some x s u e) (
      ap (λ o. if is x o then done (some x, clear s) else unlink x s) b
      ∙ ap (λ c. if c then done (some x, clear s) else unlink x s) h
      ∙ >>=-done (get_uthread x s) _ (get_uthread-some x s u e) (
          >>=-done (deref u.prev) _ (ap deref b) (
            >>=-done (set_uthread y (λ z. record z { next = u.next }) s) _
              (set_uthread-some y (λ z. record z { next = u.next }) s w f)
              (>>=-done (get_uthread x s1) _
                (get_uthread-some x s1 u
                  (with_other y (record w { next = u.next }) s.threads x (flip y x h) ∙ e))
                (>>=-fault (deref u.next) _ (ap deref n))))))

pop_tail-Listed :
    (s : Schedule) (b : Option ℕ) (x y : ℕ) (ys : List ℕ)
    → Listed s.threads b (x ∷ y ∷ ys)
    → Distinct (x ∷ y ∷ ys)
    → pop_tail (last y ys) s ≡ fault
pop_tail-Listed s b x y [] ((u, e, p, n), ((v, f, q, m), l)) d =
    pop_tail-last y x s v u f e q m (flip y x d.0.0)
pop_tail-Listed s b x y (z ∷ ys) (h, l) d = pop_tail-Listed s (some x) y z ys l d.1

-- On every well-formed list with a thread uthread_pop follows a null pointer.
pub uthread_pop-Queue :
    (s : Schedule) (x : ℕ) (xs : List ℕ) → Queue s (x ∷ xs) → uthread_pop s ≡ fault
unfolding uthread_pop pop_at
uthread_pop-Queue s x [] q =
    let (u, e, b, n) = q.listed.0 in ap (λ o. pop_at o s) q.tail ∙ pop_tail-first x s u e b
uthread_pop-Queue s x (y ∷ ys) q =
    ap (λ o. pop_at o s) q.tail ∙ pop_tail-Listed s none x y ys q.listed q.distinct

-- Deleting the first thread
del_found-first : (s : Schedule) (x : ℕ) (xs : List ℕ) → Queue s (x ∷ xs) → del_found x s ≡ fault
unfolding del_found del_inner uthread_pop pop_at
del_found-first s x xs q =
    let (u, e, b, n) = q.listed.0 in
    let other : same (some x) (first xs) ≡ false = apart xs q.distinct.0 in
    >>=-done (get_uthread x s) _ (get_uthread-some x s u e) (
      ap (λ c. if c then (uthread_pop s >>= λ r. done r.1) else del_inner x s)
        (ap (λ o. same o u.next) q.head ∙ ap (same (some x)) n ∙ other)
      ∙ >>=-fault (pop_tail x (record s { uthreads_tail = some x })) _
          (pop_tail-first x (record s { uthreads_tail = some x }) u e b))
  where
    apart : (xs : List ℕ) → Avoids x xs → is x (first xs) ≡ false
    apart [] h = refl
    apart (y ∷ ys) h = h.0

-- On every well-formed list with a thread, with any amount of fuel, uthread_del of any thread
-- follows a null pointer or runs out of fuel.
pub uthread_del-Queue :
    (s : Schedule) (x : ℕ) (xs : List ℕ) (fuel p : ℕ)
    → Queue s (x ∷ xs)
    → uthread_del fuel (some p) s ≡ fault
unfolding uthread_del del_at del_loop
uthread_del-Queue s x xs fuel p q = ap (λ o. del_at fuel o p s) q.head ∙ loop fuel
  where
    loop : (fuel : ℕ) → del_loop fuel x p s ≡ fault
    loop zero = refl
    loop (suc fuel) = elim (Bool-cases (x == p)) [
      | inl here ↦
          ap (λ c. if c then del_found p s else del_loop fuel x p s) here
          ∙ subst (λ p. del_found p s ≡ fault) (==→eq x p here) (del_found-first s x xs q)
      | inr there ↦ ap (λ c. if c then del_found p s else del_loop fuel x p s) there ∙ loop fuel
    ]
