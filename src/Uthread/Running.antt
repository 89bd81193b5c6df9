-- ===== src/Uthread/Running.antt =====
-- Which thread runs (uthread_create, uthread_resume, uthread_yield and uthread_body in
-- uthread/uthread.c).
use old_tools.Common.{
  ℕ, ◌≡◌, ◌≢◌, refl, sym, ap, ◌∙◌, subst, false, Option, none, some, ◌==◌, ==→eq, ==_self, arith,
  if◌then◌else◌, Bool-cases, inl, inr,
}
use old_tools.Common.Run.{done, fault, >>=-eq-done, >>=-done, done-injective}
use old_tools.Uthread.{
  UthreadState, free, ready, running, suspend, Uthread, Schedule, get_uthread, write_uthread,
  set_uthread, uthread_resume, resume_by, switch_to, leave,
}

abbrev pub state_of : Option Uthread → Option UthreadState
state_of none = none
state_of (some u) = some u.state

abbrev pub state_at : ℕ → Schedule → Option UthreadState
state_at p s = state_of (s.threads p)

-- Exactly the running thread is in the state RUNNING.
pub record OneRuns (s : Schedule) : Type 0 where
  pub only : (p : ℕ) → state_at p s ≡ some running → s.running_uthread ≡ some p
  pub runs : (p : ℕ) → s.running_uthread ≡ some p → state_at p s ≡ some running

pub state_at_self :
    (p : ℕ) (u : Uthread) (s : Schedule) → state_at p (write_uthread p u s) ≡ some u.state
state_at_self p u s = ap (λ b. state_of (if b then some u else s.threads p)) (==_self p)

pub state_at_other :
    (p : ℕ) (u : Uthread) (s : Schedule) (q : ℕ)
    → (q == p) ≡ false
    → state_at q (write_uthread p u s) ≡ state_at q s
state_at_other p u s q h = ap (λ b. state_of (if b then some u else s.threads q)) h

pub some-injective {ℓ} : {A : Type ℓ} {a b : A} → some a ≡ some b → a ≡ b
some-injective {a} e = ap (λ o. elim o [ none ↦ a | some w ↦ w ]) e

switch_to-OneRuns :
    (p : ℕ) (u : Uthread) (s : Schedule)
    → s.running_uthread ≡ none
    → OneRuns s
    → OneRuns (switch_to p u s)
unfolding switch_to
switch_to-OneRuns p u s n h = record {
  only = λ q r. elim (Bool-cases (q == p)) [
    | inl same ↦ ap some (sym (==→eq q p same))
    | inr other ↦
        cc (h.only q (sym (state_at_other p (record u { state = running }) s q other) ∙ r), n)
  ];
  runs = λ q e. rw (some-injective (sym e)) (state_at_self p (record u { state = running }) s);
}

resume_by-OneRuns :
    (state : UthreadState) (p : ℕ) (u : Uthread) (s : Schedule)
    → s.running_uthread ≡ none
    → OneRuns s
    → OneRuns (resume_by state p u s)
unfolding resume_by
resume_by-OneRuns free p u s n h = h
resume_by-OneRuns ready p u s n h = switch_to-OneRuns p u s n h
resume_by-OneRuns running p u s n h = h
resume_by-OneRuns suspend p u s n h = switch_to-OneRuns p u s n h

pub uthread_resume-OneRuns :
    (p : Option ℕ) (s s' : Schedule)
    → s.running_uthread ≡ none
    → OneRuns s
    → uthread_resume p s ≡ done s'
    → OneRuns s'
unfolding uthread_resume
uthread_resume-OneRuns none s s' n h e = subst OneRuns (done-injective e) h
uthread_resume-OneRuns (some p) s s' n h e =
    let (u, a, b) = >>=-eq-done (get_uthread p s) (λ u. done (resume_by u.state p u s)) e in
    subst OneRuns (done-injective b) (resume_by-OneRuns u.state p u s n h)

-- A thread in some state can be read.
get_uthread-state :
    (p : ℕ) (s : Schedule) (state : UthreadState)
    → state_at p s ≡ some state
    → (u : Uthread) × (get_uthread p s ≡ done u)
unfolding get_uthread
get_uthread-state p s state e = go (s.threads p) refl e
  where
    go :
        (o : Option Uthread)
        → s.threads p ≡ o
        → state_of o ≡ some state
        → (u : Uthread) × (get_uthread p s ≡ done u)
    go none k e = cc
    go (some u) k e = (u, ap (λ o. elim o [ none ↦ fault | some u ↦ done u ]) k)

pub leave-OneRuns :
    (state : UthreadState) (p : Option ℕ) (s : Schedule)
    → state ≢ running
    → s.running_uthread ≡ p
    → OneRuns s
    → (s' : Schedule) × (leave state p s ≡ done s') × OneRuns s' × (s'.running_uthread ≡ none)
unfolding leave set_uthread
leave-OneRuns state none s n r h = (s, refl, h, r)
leave-OneRuns state (some p) s n r h =
    let (u, e) = get_uthread-state p s running (h.runs p r) in
    let s1 = write_uthread p (record u { state = state }) s in
    (
      record s1 { running_uthread = none },
      >>=-done (set_uthread p (λ u. record u { state = state }) s) _
          (>>=-done (get_uthread p s) _ e refl) refl,
      record {
        only = λ q k. elim (Bool-cases (q == p)) [
          | inl same ↦ absurd (
              n (
                some-injective (
                  sym (state_at_self p (record u { state = state }) s)
                  ∙ subst (λ q. state_at q s1 ≡ some running) (==→eq q p same) k)))
          | inr other ↦ absurd (
              differ q other (
                some-injective (
                  sym r
                  ∙ h.only q (sym (state_at_other p (record u { state = state }) s q other) ∙ k))))
        ];
        runs = λ q k. absurd (none≢some q k);
      },
      refl,
    )
  where
    differ : (q : ℕ) → (q == p) ≡ false → p ≢ q
    differ q h e = ground arith

    none≢some : (q : ℕ) → none ≢ some q
    none≢some q k = cc
