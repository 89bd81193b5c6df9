-- ===== src/Uthread/Queue.antt =====
-- The list of threads (uthread_push and schedule_finished in uthread/uthread.c).
pub mod Errors
pub mod Finished
use old_tools.Common.{
  ℕ, zero, suc, ◌+◌, ◌<◌, ◌≤◌, ◌≡◌, ◌≢◌, refl, sym, ap, ◌∙◌, subst, Bool, true, false, not, ◌&&◌,
  Option, none, some, List, [], ◌∷◌, ◌++◌, ◌==◌, ==_self, arith, if◌then◌else◌, length, Avoids,
  Distinct, Bool-cases, inl, inr,
}
use old_tools.Common.Run.{Run, done, fault, ◌>>=◌, >>=-done}
use old_tools.Uthread.{
  UthreadState, Uthread, Schedule, deref, get_uthread, write_uthread, set_uthread, push_at,
  uthread_push, is_free, all_free, finished_at, schedule_finished,
}

abbrev pub first : List ℕ → Option ℕ
first [] = none
first (x ∷ xs) = some x

-- A list from `p` on, which is the entry in front of it
abbrev pub Listed : (ℕ → Option Uthread) → Option ℕ → List ℕ → Type 0
Listed threads p [] = Unit {0}
Listed threads p (x ∷ xs) =
    ((u : Uthread) × (threads x ≡ some u) × (u.prev ≡ p) × (u.next ≡ first xs))
    × Listed threads (some x) xs

abbrev pub last : ℕ → List ℕ → ℕ
last x [] = x
last x (y ∷ ys) = last y ys

abbrev pub tail_of : List ℕ → Option ℕ
tail_of [] = none
tail_of (x ∷ xs) = some (last x xs)

-- The threads of the schedule, in order
pub record Queue (s : Schedule) (xs : List ℕ) : Type 0 where
  pub listed : Listed s.threads none xs
  pub head : s.uthreads_head ≡ first xs
  pub tail : s.uthreads_tail ≡ tail_of xs
  pub distinct : Distinct xs

abbrev pub with : ℕ → Uthread → (ℕ → Option Uthread) → ℕ → Option Uthread
with p u threads = λ x. if x == p then some u else threads x

with_self : (p : ℕ) (u : Uthread) (threads : ℕ → Option Uthread) → with p u threads p ≡ some u
with_self p u threads = rw (==_self p) refl

pub with_other :
    (p : ℕ) (u : Uthread) (threads : ℕ → Option Uthread) (x : ℕ)
    → (x == p) ≡ false
    → with p u threads x ≡ threads x
with_other p u threads x h = rw h refl

pub get_uthread-some :
    (p : ℕ) (s : Schedule) (u : Uthread) → s.threads p ≡ some u → get_uthread p s ≡ done u
unfolding get_uthread
get_uthread-some p s u e = rw (e, get_uthread) refl

pub set_uthread-some :
    (p : ℕ) (f : Uthread → Uthread) (s : Schedule) (u : Uthread)
    → s.threads p ≡ some u
    → set_uthread p f s ≡ done (write_uthread p (f u) s)
unfolding set_uthread
set_uthread-some p f s u e = >>=-done (get_uthread p s) _ (get_uthread-some p s u e) refl

apart_last : (x y : ℕ) (ys : List ℕ) → Avoids x (y ∷ ys) → (x == last y ys) ≡ false
apart_last x y [] h = ground arith
apart_last x y (z ∷ ys) h = apart_last x z ys h.1

-- The last entry is there, and has no next one.
pub last-Listed :
    (threads : ℕ → Option Uthread) (p : Option ℕ) (x : ℕ) (xs : List ℕ)
    → Listed threads p (x ∷ xs)
    → (u : Uthread) × (threads (last x xs) ≡ some u) × (u.next ≡ none)
last-Listed threads p x [] ((u, e, b, n), l) = (u, e, n)
last-Listed threads p x (y ∷ ys) (h, l) = last-Listed threads (some x) y ys l

-- The list behind the two writes of uthread_push
Listed-push :
    (threads : ℕ → Option Uthread) (b : Option ℕ) (x : ℕ) (xs : List ℕ) (p : ℕ) (t u : Uthread)
    → Listed threads b (x ∷ xs)
    → Distinct (x ∷ xs)
    → Avoids p (x ∷ xs)
    → threads (last x xs) ≡ some t
    → Listed
        (with p
          (record u { prev = some (last x xs); next = none })
          (with (last x xs) (record t { next = some p }) threads))
        b
        (x ∷ (xs ++ (p ∷ [])))
Listed-push threads b x [] p t u ((v, e, bv, n), l) d a k =
    let t' = record t { next = some p } in
    let u' = record u { prev = some x; next = none } in
    (
      (
        t',
        with_other p u' (with x t' threads) x a.0 ∙ with_self x t' threads,
        ap (λ o. elim o [ none ↦ b | some w ↦ w.prev ]) (sym k ∙ e) ∙ bv,
        refl,
      ),
      ((u', with_self p u' (with x t' threads), refl, refl), tt),
    )
Listed-push threads b x (y ∷ ys) p t u ((v, e, bv, n), l) d a k =
    let z = last y ys in
    let t' = record t { next = some p } in
    let u' = record u { prev = some z; next = none } in
    (
      (
        v,
        with_other p u' (with z t' threads) x a.0
            ∙ with_other z t' threads x (apart_last x y ys d.0)
            ∙ e,
        bv,
        n,
      ),
      Listed-push threads (some x) y ys p t u l d.1 a.1 k,
    )

last_snoc : (x : ℕ) (xs : List ℕ) (p : ℕ) → last x (xs ++ (p ∷ [])) ≡ p
last_snoc x [] p = refl
last_snoc x (y ∷ ys) p = last_snoc y ys p

Distinct-snoc : (xs : List ℕ) (p : ℕ) → Distinct xs → Avoids p xs → Distinct (xs ++ (p ∷ []))
Distinct-snoc [] p d a = (tt, tt)
Distinct-snoc (x ∷ xs) p (h, d) (n, a) = (Avoids-snoc x xs p h n, Distinct-snoc xs p d a)
  where
    Avoids-snoc :
        (x : ℕ) (xs : List ℕ) (p : ℕ) → Avoids x xs → (x == p) ≡ false → Avoids x (xs ++ (p ∷ []))
    Avoids-snoc x [] p h n = (ground arith, tt)
    Avoids-snoc x (y ∷ xs) p h n = (h.0, Avoids-snoc x xs p h.1 n)

-- On a well-formed list of threads uthread_push of an allocated thread that is not in it ends
-- without a fault and leaves a well-formed list with the thread behind the others.
pub uthread_push-Queue :
    (s : Schedule) (xs : List ℕ) (p : ℕ) (u : Uthread)
    → Queue s xs
    → Avoids p xs
    → s.threads p ≡ some u
    → (s' : Schedule) × (uthread_push (some p) s ≡ done s') × Queue s' (xs ++ (p ∷ []))
unfolding uthread_push push_at deref
uthread_push-Queue s [] p u q a e =
    let s1 = record s { uthreads_head = some p; uthreads_tail = some p } in
    let u' = record u { next = none; prev = none } in
    (
      write_uthread p u' s1,
      ap (λ o. push_at o p s) q.head
          ∙ set_uthread-some p (λ u. record u { next = none; prev = none }) s1 u e,
      record {
        listed = ((u', with_self p u' s.threads, refl, refl), tt);
        head = refl;
        tail = refl;
        distinct = (tt, tt);
      },
    )
uthread_push-Queue s (x ∷ xs) p u q a e =
    let z = last x xs in
    let (t, k, n) = last-Listed s.threads none x xs q.listed in
    let s1 = write_uthread z (record t { next = some p }) s in
    let s2 = write_uthread p (record u { prev = some z; next = none }) s1 in
    let finish : Schedule → Run Schedule = λ s2. done (record s2 { uthreads_tail = some p }) in
    (
      record s2 { uthreads_tail = some p },
      ap (λ o. push_at o p s) q.head
          ∙ >>=-done (deref s.uthreads_tail) _ (ap deref q.tail) (
              >>=-done (set_uthread z (λ u. record u { next = some p }) s) _
                (set_uthread-some z (λ u. record u { next = some p }) s t k)
                (>>=-done (set_uthread p (λ u. record u { prev = some z; next = none }) s1) finish
                  (set_uthread-some p (λ u. record u { prev = some z; next = none }) s1 u
                    (with_other z (record t { next = some p }) s.threads p (apart_last p x xs a)
                      ∙ e))
                  refl)),
      record {
        listed = Listed-push s.threads none x xs p t u q.listed q.distinct a k;
        head = q.head;
        tail = ap some (sym (last_snoc x xs p));
        distinct = Distinct-snoc (x ∷ xs) p q.distinct a;
      },
    )
