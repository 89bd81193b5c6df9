-- ===== src/TimerQueue.antt =====
-- The timers of the network library in C++ (liby_cpp/TimerQueue.cpp and TimerQueue.h), kept in a
-- binary heap. A handler is a number, and what handlers do to the queue is a parameter.
pub mod Expire
mod Tests
use old_tools.Common.{
  ℕ, zero, suc, ◌+◌, Bool, true, false, ◌&&◌, Option, none, some, List, [], ◌∷◌, ◌==◌, ltb,
  if◌then◌else◌,
}
use old_tools.Common.Run.{Run, done, exited, fault, ◌>>=◌, ◌>>?◌}
use old_tools.BinaryHeap.{
  Heap, new_heap, find_min, insert_element, delete_min, erase_if, clear_heap,
}

-- Timer
pub record Timer : Type 0 where
  pub id : ℕ
  pub timeout : ℕ
  pub handler : ℕ

-- Timer()
abbrev pub no_timer : Timer
no_timer = record { id = 0; timeout = 0; handler = 0 }

-- operator<
unfoldable pub timer_less : Timer → Timer → Bool
timer_less a b = ltb a.timeout b.timeout && ltb a.id b.id

-- `queue_`, and the time that timerfd_settime was last given
pub record Timers : Type 0 where
  pub queue : Heap Timer
  pub armed : Option ℕ

-- The queue of a new TimerQueue, with the capacity that BinaryHeap has by default
unfoldable pub no_timers : Timers
unfolding new_heap
no_timers = record { queue = new_heap timer_less no_timer 100; armed = none }

-- insert
unfoldable pub insert_timer : Timer → Timers → Run Timers
unfolding insert_element timer_less
insert_timer timer s =
    if timer.id == 0
    then done s
    else (insert_element timer_less no_timer timer s.queue >>= λ queue. done (record {
      queue = queue;
      armed = if s.queue.size == 0 then some timer.timeout else s.armed;
    }))

-- cancel
unfoldable pub cancel : ℕ → Timers → Run Timers
unfolding erase_if timer_less
cancel id s =
    if id == 0
    then done s
    else (erase_if timer_less no_timer (λ timer. timer.id == id) s.queue >>= λ queue.
        done (record { queue = queue; armed = s.armed }))

-- cancelAll
unfoldable pub cancel_all : Timers → Timers
unfolding clear_heap
cancel_all s = record { queue = clear_heap timer_less no_timer s.queue; armed = s.armed }

module _ (run_handler : Timer → Timers → Run Timers) where
  -- The loop of handleTimeoutEvents with at most `fuel` rounds: a handler may insert timers.
  unfoldable pub expire : ℕ → ℕ → Timers → Run (Option Timers)
  unfolding find_min delete_min timer_less
  expire zero now s = done none
  expire (suc fuel) now s =
      if s.queue.size == 0
      then done (some s)
      else (find_min timer_less no_timer s.queue >>= λ least.
          if ltb now least.timeout
          then done (some s)
          else (delete_min timer_less no_timer s.queue >>= λ queue.
              run_handler least (record { queue = queue; armed = s.armed }) >>= λ s'.
              expire fuel now s'))

  -- What handleTimeoutEvents does behind the loop
  unfoldable pub rearm : Timers → Run (Option Timers)
  unfolding find_min timer_less
  rearm s =
      if s.queue.size == 0
      then done (some s)
      else (find_min timer_less no_timer s.queue >>= λ least.
          done (some (record { queue = s.queue; armed = some least.timeout })))

  -- handleTimeoutEvents
  unfoldable pub handle_timeout_events : ℕ → ℕ → Timers → Run (Option Timers)
  unfolding expire rearm
  handle_timeout_events fuel now s =
      if s.queue.size == 0 then done (some s) else (expire fuel now s >>? rearm)
