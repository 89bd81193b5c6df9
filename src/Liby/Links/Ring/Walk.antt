-- ===== src/Liby/Links/Ring/Walk.antt =====
-- Walking over a ring with list_for_each (liby/src/list.h).
use old_tools.Common.{
  Avoids, ℕ, zero, suc, ◌+◌, ◌<◌, ◌≤◌, ◌≡◌, ◌≢◌, refl, sym, ap, ◌∙◌, false, true, Bool, none, some,
  List, [], ◌∷◌, ◌++◌, ◌==◌, ==_self, arith, length,
}
use old_tools.Common.Run.{Run, done, fault, ◌>>=◌, >>=-done, >>=-eq-done}
use old_tools.Liby.Links.{Memory, load, list_empty, list_for_each}
use old_tools.Liby.Links.Ring.{Linked, Ring, load-Mapped, front}

pub next_front :
    (m : Memory) (a head : ℕ) (xs : List ℕ)
    → Linked m a (xs ++ (head ∷ []))
    → m.next a ≡ some (front head xs)
next_front m a head [] p = p.0.0
next_front m a head (x ∷ xs) p = p.0.0

pub list_empty-Ring-nil : (m : Memory) (head : ℕ) → Ring m head [] → list_empty head m ≡ done true
unfolding list_empty
list_empty-Ring-nil m head r =
    >>=-done (load m.next head) _ (load-Mapped m.next head head r.path.0.0) (ap done (==_self head))

pub list_empty-Ring-cons :
    (m : Memory) (head x : ℕ) (xs : List ℕ) → Ring m head (x ∷ xs) → list_empty head m ≡ done false
unfolding list_empty
list_empty-Ring-cons m head x xs r =
    >>=-done (load m.next head) _ (load-Mapped m.next head x r.path.0.0) (ap done r.distinct.0.0)

module _ {ℓ} {S : Type ℓ} (memory : S → Memory) (body : ℕ → S → Run S) where
  abbrev choose : ℕ → ℕ → ℕ → S → Bool → Run S
  choose fuel head pos s b = elim b [
    | true ↦ done s
    | false ↦ do
      s' ← body pos s
      next' ← load (memory s').next pos
      list_for_each memory body fuel head next' s'
  ]

  list_for_each-head :
      (fuel head : ℕ) (s : S) (v : ℕ)
      → (memory s).next head ≡ some v
      → list_for_each memory body (suc fuel) head head s ≡ done s
  unfolding list_for_each
  list_for_each-head fuel head s v e =
      >>=-done (load (memory s).next head) _ (load-Mapped (memory s).next head v e)
        (ap (choose fuel head head s) (==_self head))

  list_for_each-entry :
      (fuel head pos : ℕ) (s s' : S) (v w : ℕ)
      → (pos == head) ≡ false
      → (memory s).next pos ≡ some v
      → body pos s ≡ done s'
      → (memory s').next pos ≡ some w
      → list_for_each memory body (suc fuel) head pos s ≡ list_for_each memory body fuel head w s'
  unfolding list_for_each
  list_for_each-entry fuel head pos s s' v w n e b f =
      >>=-done (load (memory s).next pos) _ (load-Mapped (memory s).next pos v e) (
        ap (choose fuel head pos s) n
        ∙ >>=-done (body pos s) _ b
            (>>=-done (load (memory s').next pos) _ (load-Mapped (memory s').next pos w f) refl))

  -- Where the body frees the entry, the step to the next one reads freed memory.
  pub list_for_each_freed :
      (fuel head pos : ℕ) (s s' : S) (v : ℕ)
      → (pos == head) ≡ false
      → (memory s).next pos ≡ some v
      → ((s1 : S) → body pos s ≡ done s1 → (memory s1).next pos ≡ none)
      → list_for_each memory body fuel head pos s ≢ done s'
  unfolding list_for_each load
  list_for_each_freed zero head pos s s' v n e f run = cc
  list_for_each_freed (suc fuel) head pos s s' v n e f run =
      let rest : S → Run S =
        λ s1. load (memory s1).next pos >>= λ next'. list_for_each memory body fuel head next' s1 in
      let entered : (body pos s >>= rest) ≡ done s' =
        sym (
          >>=-done (load (memory s).next pos) (λ next. choose fuel head pos s (pos == head))
            (load-Mapped (memory s).next pos v e) (ap (choose fuel head pos s) n))
        ∙ run in
      let (s1, p, q) = >>=-eq-done (body pos s) rest entered in
      let stuck : fault ≡ done s' =
        ap
          (λ o. (elim o [ none ↦ fault | some v ↦ done v ]) >>= λ next'.
            list_for_each memory body fuel head next' s1)
          (sym (f s1 p))
        ∙ q in
      cc

abbrev pub fold {ℓ} : {S : Type ℓ} → (ℕ → S → S) → List ℕ → S → S
fold step [] s = s
fold step (x ∷ xs) s = fold step xs (step x s)

-- A body that leaves the memory alone, and that succeeds on states below a bound
module _ {ℓ} {S : Type ℓ} (m : Memory) (body : ℕ → S → Run S) (step : ℕ → S → S) (measure : S → ℕ)
    (bound : ℕ) where
  list_for_each-Linked :
      (xs : List ℕ) (fuel head a : ℕ) (s : S)
      → ((x : ℕ) (s : S) → measure s < bound → body x s ≡ done (step x s))
      → ((x : ℕ) (s : S) → measure (step x s) ≡ measure s + 1)
      → Avoids head xs
      → Linked m a (xs ++ (head ∷ []))
      → ((v : ℕ) × (m.next head ≡ some v))
      → length xs < fuel
      → measure s + length xs ≤ bound
      → list_for_each (λ s. m) body fuel head (front head xs) s ≡ done (fold step xs s)
  list_for_each-Linked xs zero head a s b c h p q lt le = absurd (omega arith)
  list_for_each-Linked [] (suc fuel) head a s b c h p (v, e) lt le =
      list_for_each-head (λ s. m) body fuel head s v e
  list_for_each-Linked (x ∷ xs) (suc fuel) head a s b c h p q lt le =
      let e = next_front m x head xs p.1 in
      list_for_each-entry (λ s. m) body fuel head x s (step x s) (front head xs) (front head xs) h.0
        e (b x s (omega arith)) e
      ∙ list_for_each-Linked xs fuel head x (step x s) b c h.1 p.1 q (omega arith)
          (omega (arith, c x s))

  -- The body is called for the entries in order.
  pub list_for_each-Ring :
      (xs : List ℕ) (fuel head : ℕ) (s : S)
      → ((x : ℕ) (s : S) → measure s < bound → body x s ≡ done (step x s))
      → ((x : ℕ) (s : S) → measure (step x s) ≡ measure s + 1)
      → Ring m head xs
      → length xs < fuel
      → measure s + length xs ≤ bound
      → list_for_each (λ s. m) body fuel head (front head xs) s ≡ done (fold step xs s)
  list_for_each-Ring xs fuel head s b c r lt le =
      list_for_each-Linked xs fuel head head s b c r.distinct.0 r.path
        (front head xs, next_front m head head xs r.path) lt le
