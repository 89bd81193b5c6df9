-- ===== src/TimerQueue/Tests.antt =====
-- Runs of the timer queue at fixed inputs.
use old_tools.Common.{List, [], ◌∷◌, arith, ℕ, ◌≡◌, refl, some, Option}
use old_tools.Common.Run.{Run, done, ◌>>=◌}
use old_tools.BinaryHeap.{find_min}
use old_tools.TimerQueue.Expire.{IsSettled, AddsNone, Serves, handle_timeout_events-Serves}
use old_tools.TimerQueue.{
  handle_timeout_events, Timer, Timers, no_timer, timer_less, no_timers, insert_timer,
}

abbrev late : Timer
late = record { id = 1; timeout = 900; handler = 0 }

abbrev soon : Timer
soon = record { id = 2; timeout = 100; handler = 0 }

-- The least timer, and what the timer is set to
abbrev seen : Timers → Run (Timer × Option ℕ)
unfolding find_min
seen s = find_min timer_less no_timer s.queue >>= λ least. done (least, s.armed)

-- The second timer is due first, but it is neither the first of the heap nor what the timer is
-- set to.
insert_soon_behind_late :
    (insert_timer late no_timers >>= insert_timer soon >>= seen) ≡ done (late, some 900)
unfolding insert_timer find_min no_timers
insert_soon_behind_late = refl

-- A handler that leaves the queue alone
abbrev quiet : Timer → Timers → Run Timers
quiet t s = done s

quiet-AddsNone : AddsNone quiet
quiet-AddsNone t s room = (s, refl, room, omega arith)

abbrev waiting : Timers
waiting = record {
  queue = record { cells = no_timer ∷ soon ∷ late ∷ []; size = 2 };
  armed = some 100;
}

handle_timeout_events-Serves_example :
    (served : List Timer) × (left : Timers) × (s' : Timers) × (handle_timeout_events quiet 3 500
        waiting
      ≡ done (some s'))
    × Serves quiet 500 waiting served left
    × (s'.queue ≡ left.queue)
    × IsSettled 500 s'
handle_timeout_events-Serves_example =
    handle_timeout_events-Serves quiet quiet-AddsNone 3 500 waiting (omega arith) (omega arith)

-- One timer is served, and the other is waited for.
expires_soon :
    handle_timeout_events quiet 3 500 waiting
    ≡ done (
        some (record {
          queue = record { cells = no_timer ∷ late ∷ no_timer ∷ []; size = 1 };
          armed = some 900;
        }))
unfolding handle_timeout_events
expires_soon = refl
