-- ===== src/Uthread/Tests.antt =====
-- The theorems on the scheduler at two threads.
use old_tools.Common.{◌≡◌, refl, true, none, some, [], ◌∷◌, ◌==◌, if◌then◌else◌, arith}
use old_tools.Common.Run.{done, fault}
use old_tools.Uthread.{
  free, ready, running, Uthread, Schedule, get_uthread, write_uthread, set_uthread, push_at,
  uthread_push, uthread_create, uthread_resume, resume_by, switch_to, uthread_pop, uthread_yield,
  schedule_finished,
}
use old_tools.Uthread.Running.{OneRuns}
use old_tools.Uthread.Reach.{
  Reachable, start, step, create, resume, no_threads, Reachable-OneRuns, uthread_yield-Reachable,
}
use old_tools.Uthread.Queue.{Queue}
use old_tools.Uthread.Queue.Finished.{schedule_finished-Queue}
use old_tools.Uthread.Queue.Errors.{uthread_pop-Queue}

abbrev new : Uthread
new = record { state = ready; next = none; prev = none }

abbrev created : Schedule
created =
    write_uthread 1 new
      (record (write_uthread 1 new no_threads) { uthreads_head = some 1; uthreads_tail = some 1 })

abbrev resumed : Schedule
resumed = record (write_uthread 1 (record new { state = running }) created) {
  running_uthread = some 1;
}

resumed-Reachable : Reachable resumed
unfolding uthread_create uthread_push push_at set_uthread get_uthread uthread_resume resume_by
    switch_to
resumed-Reachable = step (step start (create 1 refl refl)) (resume (some 1) refl refl)

Reachable-OneRuns_example : OneRuns resumed
Reachable-OneRuns_example = Reachable-OneRuns resumed resumed-Reachable

-- Two finished threads in the list, and one to add
abbrev two : Schedule
two = record {
  threads = λ x.
      if x == 1
      then some (record { state = free; next = some 2; prev = none })
      else (if x == 2
          then some (record { state = free; next = none; prev = some 1 })
          else (if x == 3 then some new else none));
  running_uthread = none;
  uthreads_head = some 1;
  uthreads_tail = some 2;
}

two-Queue : Queue two (1 ∷ 2 ∷ [])
two-Queue = record {
  listed = (
    (record { state = free; next = some 2; prev = none }, refl, refl, refl),
    ((record { state = free; next = none; prev = some 1 }, refl, refl, refl), tt),
  );
  head = refl;
  tail = refl;
  distinct = ((refl, tt), (tt, tt));
}

schedule_finished-Queue_example : schedule_finished 2 two ≡ done true
schedule_finished-Queue_example = schedule_finished-Queue two (1 ∷ 2 ∷ []) 2 two-Queue (omega arith)

uthread_pop-Queue_example : uthread_pop two ≡ fault
uthread_pop-Queue_example = uthread_pop-Queue two 1 (2 ∷ []) two-Queue

uthread_yield-Reachable_example :
    (s' : Schedule) × (uthread_yield resumed ≡ done s') × Reachable s' × (s'.running_uthread ≡ none)
uthread_yield-Reachable_example = uthread_yield-Reachable resumed resumed-Reachable
