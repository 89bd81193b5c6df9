-- ===== src/Uthread.antt =====
-- Coroutines and their scheduler (uthread/uthread.c and uthread.h).
pub mod Queue
pub mod Reach
pub mod Running
mod Tests
use old_tools.Common.{ℕ, zero, suc, Bool, true, false, Option, none, some, ◌==◌, if◌then◌else◌}
use old_tools.Common.Run.{Run, done, fault, ◌>>=◌}

-- `enum UThreadState`
pub data UthreadState : Type 0 where
  free : UthreadState
  ready : UthreadState
  running : UthreadState
  suspend : UthreadState

-- `uthread_t` without its context, function and stack; `none` is a null pointer.
pub record Uthread : Type 0 where
  pub state : UthreadState
  pub next : Option ℕ
  pub prev : Option ℕ

-- `schedule_t` with the memory of its threads
pub record Schedule : Type 0 where
  pub threads : ℕ → Option Uthread
  pub running_uthread : Option ℕ
  pub uthreads_head : Option ℕ
  pub uthreads_tail : Option ℕ

-- Following a pointer
unfoldable pub deref : Option ℕ → Run ℕ
deref none = fault
deref (some p) = done p

unfoldable pub get_uthread : ℕ → Schedule → Run Uthread
get_uthread p s = elim (s.threads p) [ none ↦ fault | some u ↦ done u ]

abbrev pub write_uthread : ℕ → Uthread → Schedule → Schedule
write_uthread p u s = record s { threads = λ x. if x == p then some u else s.threads x }

-- An assignment to fields of a thread
unfoldable pub set_uthread : ℕ → (Uthread → Uthread) → Schedule → Run Schedule
unfolding get_uthread
set_uthread p f s = do u ← get_uthread p s; done (write_uthread p (f u) s)

-- The two branches of uthread_push, by `uthreads_head`
unfoldable pub push_at : Option ℕ → ℕ → Schedule → Run Schedule
unfolding deref set_uthread
push_at none p s =
    set_uthread p (λ u. record u { next = none; prev = none })
      (record s { uthreads_head = some p; uthreads_tail = some p })
push_at (some head) p s = do
  tail ← deref s.uthreads_tail
  s1 ← set_uthread tail (λ u. record u { next = some p }) s
  s2 ← set_uthread p (λ u. record u { prev = some tail; next = none }) s1
  done (record s2 { uthreads_tail = some p })

unfoldable pub uthread_push : Option ℕ → Schedule → Run Schedule
unfolding push_at
uthread_push none s = done s
uthread_push (some p) s = push_at s.uthreads_head p s

abbrev pub is : ℕ → Option ℕ → Bool
is p none = false
is p (some q) = q == p

-- `tail->prev->next = tail->next; tail->next->prev = tail->prev; uthreads_tail = tail->prev;`
unfoldable pub unlink : ℕ → Schedule → Run (Option ℕ × Schedule)
unfolding deref get_uthread set_uthread
unlink tail s = do
  u ← get_uthread tail s
  prev ← deref u.prev
  s1 ← set_uthread prev (λ x. record x { next = u.next }) s
  u1 ← get_uthread tail s1
  next ← deref u1.next
  s2 ← set_uthread next (λ x. record x { prev = u1.prev }) s1
  u2 ← get_uthread tail s2
  done (some tail, record s2 { uthreads_tail = u2.prev })

abbrev pub clear : Schedule → Schedule
clear s = record s { uthreads_head = none; uthreads_tail = none }

-- The pop of a tail that is not NULL
unfoldable pub pop_tail : ℕ → Schedule → Run (Option ℕ × Schedule)
unfolding get_uthread unlink
pop_tail tail s = do
  u ← get_uthread tail s
  if is tail u.prev then done (some tail, clear s) else unlink tail s

unfoldable pub pop_at : Option ℕ → Schedule → Run (Option ℕ × Schedule)
unfolding pop_tail
pop_at none s = done (none, s)
pop_at (some tail) s = pop_tail tail s

unfoldable pub uthread_pop : Schedule → Run (Option ℕ × Schedule)
unfolding pop_at
uthread_pop s = pop_at s.uthreads_tail s

abbrev pub same : Option ℕ → Option ℕ → Bool
same none none = true
same none (some q) = false
same (some p) q = is p q

-- The pop with `p` as the tail for a while
unfoldable pub del_inner : ℕ → Schedule → Run Schedule
unfolding uthread_pop
del_inner p s = do
  (popped, s1) ← uthread_pop (record s { uthreads_tail = some p })
  done (record s1 { uthreads_tail = s.uthreads_tail })

-- The body of the loop of uthread_del where `head == p`
unfoldable pub del_found : ℕ → Schedule → Run Schedule
unfolding get_uthread uthread_pop del_inner
del_found p s = do
  u ← get_uthread p s
  if same s.uthreads_head u.next then (uthread_pop s >>= λ r. done r.1) else del_inner p s

-- `while (head)`: `head = head->next` stands behind the loop, so `head` is never changed.
unfoldable pub del_loop : ℕ → ℕ → ℕ → Schedule → Run Schedule
unfolding del_found
del_loop zero head p s = fault
del_loop (suc fuel) head p s =
    let rest = del_loop fuel head p s in if head == p then del_found p s else rest

unfoldable pub del_at : ℕ → Option ℕ → ℕ → Schedule → Run Schedule
unfolding del_loop
del_at fuel none p s = done s
del_at fuel (some head) p s = del_loop fuel head p s

unfoldable pub uthread_del : ℕ → Option ℕ → Schedule → Run Schedule
unfolding del_at
uthread_del fuel none s = done s
uthread_del fuel (some p) s = del_at fuel s.uthreads_head p s

-- `p` is the address that malloc returns; the allocation succeeds.
unfoldable pub uthread_create : ℕ → Schedule → Run Schedule
unfolding uthread_push
uthread_create p s =
    uthread_push (some p)
      (write_uthread p (record { state = UthreadState.ready; next = none; prev = none }) s)

abbrev pub is_free : UthreadState → Bool
is_free free = true
is_free ready = false
is_free running = false
is_free suspend = false

-- The loop of schedule_finished
unfoldable pub all_free : ℕ → Option ℕ → Schedule → Run Bool
unfolding get_uthread
all_free fuel none s = done true
all_free zero (some p) s = fault
all_free (suc fuel) (some p) s = do
  u ← get_uthread p s
  elim (is_free u.state) [ false ↦ done false | true ↦ all_free fuel u.next s ]

-- By `running_uthread`
unfoldable pub finished_at : ℕ → Option ℕ → Schedule → Run Bool
unfolding all_free
finished_at fuel (some p) s = done false
finished_at fuel none s = all_free fuel s.uthreads_head s

unfoldable pub schedule_finished : ℕ → Schedule → Run Bool
unfolding finished_at
schedule_finished fuel s = finished_at fuel s.running_uthread s

-- The thread runs, up to the change of context.
unfoldable pub switch_to : ℕ → Uthread → Schedule → Schedule
switch_to p u s = record (write_uthread p (record u { state = running }) s) {
  running_uthread = some p;
}

-- The `switch` of uthread_resume: a READY thread gets its context and falls through.
unfoldable pub resume_by : UthreadState → ℕ → Uthread → Schedule → Schedule
unfolding switch_to
resume_by ready p u s = switch_to p u s
resume_by suspend p u s = switch_to p u s
resume_by free p u s = s
resume_by running p u s = s

unfoldable pub uthread_resume : Option ℕ → Schedule → Run Schedule
unfolding get_uthread resume_by
uthread_resume none s = done s
uthread_resume (some p) s = do u ← get_uthread p s; done (resume_by u.state p u s)

-- A new state for the running thread, which then no longer runs
unfoldable pub leave : UthreadState → Option ℕ → Schedule → Run Schedule
unfolding set_uthread
leave state none s = done s
leave state (some p) s = do
  s1 ← set_uthread p (λ u. record u { state = state }) s
  done (record s1 { running_uthread = none })

unfoldable pub uthread_yield : Schedule → Run Schedule
unfolding leave
uthread_yield s = leave suspend s.running_uthread s

-- What uthread_body does when the thread's function returns
unfoldable pub uthread_body : Schedule → Run Schedule
unfolding leave
uthread_body s = leave free s.running_uthread s
