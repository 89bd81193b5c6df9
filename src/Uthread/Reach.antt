-- ===== src/Uthread/Reach.antt =====
-- The schedules that the functions of uthread/uthread.c reach.
use old_tools.Common.{
  ℕ, ◌≡◌, ◌≢◌, refl, sym, ap, ◌∙◌, subst, Option, none, some, ◌==◌, ==→eq, Bool-cases, inl, inr,
}
use old_tools.Common.Run.{done, fault, ◌>>=◌, >>=-eq-done, done-injective}
use old_tools.Uthread.{
  UthreadState, free, ready, running, suspend, Uthread, Schedule, deref, get_uthread, write_uthread,
  set_uthread, push_at, uthread_push, uthread_create, uthread_resume, uthread_yield, uthread_body,
  leave,
}
use old_tools.Uthread.Running.{
  state_of, state_at, OneRuns, state_at_self, state_at_other, some-injective,
  uthread_resume-OneRuns, leave-OneRuns,
}

-- Only links have changed.
pub record Kept (s s' : Schedule) : Type 0 where
  pub current : s'.running_uthread ≡ s.running_uthread
  pub states : (q : ℕ) → state_at q s' ≡ state_at q s

Kept-trans : (s t r : Schedule) → Kept s t → Kept t r → Kept s r
Kept-trans s t r h k = record {
  current = k.current ∙ h.current;
  states = λ q. k.states q ∙ h.states q;
}

get_uthread-eq :
    (p : ℕ) (s : Schedule) (u : Uthread) → get_uthread p s ≡ done u → s.threads p ≡ some u
unfolding get_uthread
get_uthread-eq p s u e = go (s.threads p) e
  where
    go : (o : Option Uthread) → (elim o [ none ↦ fault | some u ↦ done u ]) ≡ done u → o ≡ some u
    go none e = cc
    go (some v) e = ap some (done-injective e)

set_uthread-Kept :
    (p : ℕ) (f : Uthread → Uthread) (s s' : Schedule)
    → ((u : Uthread) → (f u).state ≡ u.state)
    → set_uthread p f s ≡ done s'
    → Kept s s'
unfolding set_uthread
set_uthread-Kept p f s s' h e =
    let (u, a, b) = >>=-eq-done (get_uthread p s) (λ u. done (write_uthread p (f u) s)) e in
    subst (Kept s) (done-injective b) (record {
      current = refl;
      states = λ q. elim (Bool-cases (q == p)) [
        | inl same ↦
            subst (λ q. state_at q (write_uthread p (f u) s) ≡ state_at q s) (sym (==→eq q p same))
              (state_at_self p (f u) s ∙ ap some (h u) ∙ sym (ap state_of (get_uthread-eq p s u a)))
        | inr other ↦ state_at_other p (f u) s q other
      ];
    })

push_at-Kept : (o : Option ℕ) (p : ℕ) (s s' : Schedule) → push_at o p s ≡ done s' → Kept s s'
unfolding push_at
push_at-Kept none p s s' e =
    let k =
      set_uthread-Kept p (λ u. record u { next = none; prev = none })
        (record s { uthreads_head = some p; uthreads_tail = some p }) s' (λ u. refl) e in
    record { current = k.current; states = k.states }
push_at-Kept (some head) p s s' e =
    let (tail, a, b) =
      >>=-eq-done (deref s.uthreads_tail)
        (λ tail. set_uthread tail (λ u. record u { next = some p }) s >>= λ s1.
          set_uthread p (λ u. record u { prev = some tail; next = none }) s1 >>= λ s2.
          done (record s2 { uthreads_tail = some p }))
        e in
    let (s1, c, d) =
      >>=-eq-done (set_uthread tail (λ u. record u { next = some p }) s)
        (λ s1. set_uthread p (λ u. record u { prev = some tail; next = none }) s1 >>= λ s2.
          done (record s2 { uthreads_tail = some p }))
        b in
    let (s2, f, g) =
      >>=-eq-done (set_uthread p (λ u. record u { prev = some tail; next = none }) s1)
        (λ s2. done (record s2 { uthreads_tail = some p })) d in
    let k =
      Kept-trans s s1 s2
        (set_uthread-Kept tail (λ u. record u { next = some p }) s s1 (λ u. refl) c)
        (set_uthread-Kept p (λ u. record u { prev = some tail; next = none }) s1 s2 (λ u. refl)
          f) in
    subst (Kept s) (done-injective g) (record { current = k.current; states = k.states })

uthread_create-OneRuns :
    (p : ℕ) (s s' : Schedule)
    → s.threads p ≡ none
    → OneRuns s
    → uthread_create p s ≡ done s'
    → OneRuns s'
unfolding uthread_create uthread_push
uthread_create-OneRuns p s s' n h e =
    let new : Uthread = record { state = ready; next = none; prev = none } in
    let s1 = write_uthread p new s in
    let k = push_at-Kept s1.uthreads_head p s1 s' e in
    record {
      only = λ q r. k.current ∙ elim (Bool-cases (q == p)) [
        | inl same ↦ absurd (
            ready≢running (
              some-injective (
                sym (state_at_self p new s)
                ∙ subst (λ q. state_at q s1 ≡ some running) (==→eq q p same)
                    (sym (k.states q) ∙ r))))
        | inr other ↦ h.only q (sym (state_at_other p new s q other) ∙ sym (k.states q) ∙ r)
      ];
      runs = λ q r. k.states q ∙ elim (Bool-cases (q == p)) [
        | inl same ↦ absurd (
            vacant (
              subst (λ q. state_at q s ≡ some running) (==→eq q p same)
                (h.runs q (sym k.current ∙ r))))
        | inr other ↦ state_at_other p new s q other ∙ h.runs q (sym k.current ∙ r)
      ];
    }
  where
    ready≢running : ready ≢ running
    ready≢running e = cc

    vacant : state_at p s ≢ some running
    vacant e = let f : none ≡ some running = sym (ap state_of n) ∙ e in cc

-- What the program may do: create a thread, resume one from the main context, or let the running
-- thread yield or return
pub data Step : Schedule → Schedule → Type 0 where
  create : {s s' : Schedule} (p : ℕ) → s.threads p ≡ none → uthread_create p s ≡ done s' → Step s s'
  resume :
      {s s' : Schedule} (p : Option ℕ)
      → s.running_uthread ≡ none
      → uthread_resume p s ≡ done s'
      → Step s s'
  yield : {s s' : Schedule} → uthread_yield s ≡ done s' → Step s s'
  return : {s s' : Schedule} → uthread_body s ≡ done s' → Step s s'

abbrev pub no_threads : Schedule
no_threads = record {
  threads = λ p. none;
  running_uthread = none;
  uthreads_head = none;
  uthreads_tail = none;
}

pub data Reachable : Schedule → Type 0 where
  start : Reachable no_threads
  step : {s s' : Schedule} → Reachable s → Step s s' → Reachable s'

leaving :
    (state : UthreadState) (s s' : Schedule)
    → state ≢ running
    → OneRuns s
    → leave state s.running_uthread s ≡ done s'
    → OneRuns s'
leaving state s s' n h e =
    let (t, a, b, c) = leave-OneRuns state s.running_uthread s n refl h in
    subst OneRuns (done-injective (sym a ∙ e)) b

Step-OneRuns : (s s' : Schedule) → Step s s' → OneRuns s → OneRuns s'
unfolding uthread_yield uthread_body
Step-OneRuns s s' (create p n e) h = uthread_create-OneRuns p s s' n h e
Step-OneRuns s s' (resume p n e) h = uthread_resume-OneRuns p s s' n h e
Step-OneRuns s s' (yield e) h = leaving suspend s s' (λ k. cc) h e
Step-OneRuns s s' (return e) h = leaving free s s' (λ k. cc) h e

-- In every schedule that starts without threads and is reached by creating threads at vacant
-- addresses, resuming a thread while none runs, and letting the running thread yield or
-- return, the threads in the state RUNNING are exactly the running thread of the schedule.
pub Reachable-OneRuns : (s : Schedule) → Reachable s → OneRuns s
Reachable-OneRuns s start = record { only = λ p e. cc; runs = λ p e. cc }
Reachable-OneRuns s' (step {s} r t) = Step-OneRuns s s' t (Reachable-OneRuns s r)

-- In every reachable schedule uthread_yield ends without a fault, and no thread runs in the
-- reachable schedule that it leaves.
pub uthread_yield-Reachable :
    (s : Schedule)
    → Reachable s
    → (s' : Schedule) × (uthread_yield s ≡ done s') × Reachable s' × (s'.running_uthread ≡ none)
unfolding uthread_yield
uthread_yield-Reachable s r =
    let (s', e, h, n) =
      leave-OneRuns suspend s.running_uthread s (λ k. cc) refl (Reachable-OneRuns s r) in
    (s', e, step r (yield e), n)
