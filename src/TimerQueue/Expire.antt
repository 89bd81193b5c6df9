-- ===== src/TimerQueue/Expire.antt =====
-- handleTimeoutEvents of the timer queue (liby_cpp/TimerQueue.cpp).
use old_tools.Common.{
  ℕ, zero, suc, ◌≤◌, ◌<◌, ◌≡◌, ◌⊎◌, inl, inr, refl, ap, ◌∙◌, Option, some, ◌==◌, ==→eq, ==_false→ne,
  ltb, ltb→lt, ltb_false→le, ◌+◌, List, [], ◌∷◌, if◌then◌else◌, length, Bool-cases, arith,
}
use old_tools.Common.Run.{Run, done, ◌>>=◌, >>=-done}
use old_tools.BinaryHeap.{Heap, find_min, delete_min}
use old_tools.BinaryHeap.Cells.{at, cell_at-at, total}
use old_tools.BinaryHeap.Runs.{delete_min_runs}
use old_tools.TimerQueue.{Timer, Timers, no_timer, timer_less, expire, rearm, handle_timeout_events}

-- The vector of the queue has a place for every timer.
abbrev pub HasRoom : Timers → Type 0
HasRoom s = s.queue.size < length s.queue.cells

-- No timer is left, or the one that find_min returns is not due.
abbrev pub NoneDue : ℕ → Timers → Type 0
NoneDue now s =
    (s.queue.size ≡ 0)
    ⊎ ((t : Timer) × (find_min timer_less no_timer s.queue ≡ done t) × (now < t.timeout))

-- So it is, and the timer of the system is set to the time of that one.
abbrev pub IsSettled : ℕ → Timers → Type 0
IsSettled now s =
    (s.queue.size ≡ 0)
    ⊎ ((t : Timer) × (find_min timer_less no_timer s.queue ≡ done t)
        × (now < t.timeout)
        × (s.armed ≡ some t.timeout))

-- A handler ends without a fault, and leaves no more timers than there were.
abbrev pub AddsNone : (Timer → Timers → Run Timers) → Type 0
AddsNone run_handler =
    (t : Timer) (s : Timers)
    → HasRoom s
    → (s' : Timers) × (run_handler t s ≡ done s') × HasRoom s' × (s'.queue.size ≤ s.queue.size)

-- One timer is out of the queue, and the others are in it: every measure of timers sums up to
-- what it did without the measure of this one.
abbrev pub TakesOut : Timer → Heap Timer → Heap Timer → Type 0
TakesOut t h h' =
    (h'.size + 1 ≡ h.size)
    × ((f : Timer → ℕ) → total no_timer f h'.cells h'.size + f t ≡ total no_timer f h.cells h.size)

-- The timers of a list are served one after the other: each is due and in the queue, is taken out
-- of it, and then its handler runs. None is due afterwards.
pub data Serves (run_handler : Timer → Timers → Run Timers) (now : ℕ)
    : Timers → List Timer → Timers → Type 0 where
  stop : {s : Timers} → NoneDue now s → Serves run_handler now s [] s
  serve :
      {s s1 s2 : Timers} {t : Timer} {served : List Timer} (queue : Heap Timer)
      → t.timeout ≤ now
      → TakesOut t s.queue queue
      → run_handler t (record { queue = queue; armed = s.armed }) ≡ done s1
      → Serves run_handler now s1 served s2
      → Serves run_handler now s (t ∷ served) s2

module _ (run_handler : Timer → Timers → Run Timers) (adds_none : AddsNone run_handler) where
  expire-Serves :
      (fuel now : ℕ) (s : Timers)
      → HasRoom s
      → s.queue.size < fuel
      → (served : List Timer) × (s' : Timers) × (expire run_handler fuel now s ≡ done (some s'))
        × Serves run_handler now s served s'
        × NoneDue now s'
  unfolding expire find_min
  expire-Serves zero now s room enough = absurd (omega arith)
  expire-Serves (suc fuel) now s room enough = elim (Bool-cases (s.queue.size == 0)) [
    | inl e ↦
        let empty : NoneDue now s = inl (==→eq s.queue.size 0 e) in
        ([], s, rw (e) refl, stop empty, empty)
    | inr e ↦
        let ne = ==_false→ne s.queue.size 0 e in
        let least = at no_timer s.queue.cells 1 in
        let found : find_min timer_less no_timer s.queue ≡ done least =
          cell_at-at no_timer s.queue.cells 1 (omega arith) in
        let handle : Timer → Heap Timer → Run (Option Timers) = λ t queue.
          run_handler t (record { queue = queue; armed = s.armed })
          >>= expire run_handler fuel now in
        let round : Timer → Run (Option Timers) = λ t.
          if ltb now t.timeout
          then done (some s)
          else (delete_min timer_less no_timer s.queue >>= handle t) in
        let behind : (r : Option Timers)
            → round least ≡ done r
            → expire run_handler (suc fuel) now s ≡ done r =
          λ r run.
            ap (λ b. if b then done (some s) else (find_min timer_less no_timer s.queue >>= round))
              e
            ∙ >>=-done (find_min timer_less no_timer s.queue) round found run in
        elim (Bool-cases (ltb now least.timeout)) [
          | inl f ↦
              let later : NoneDue now s = inr (least, found, ltb→lt now least.timeout f) in
              ([], s, behind (some s) (rw (f) refl), stop later, later)
          | inr f ↦
              let deleted = delete_min_runs timer_less no_timer s.queue room (omega arith) in
              let left : Timers = record { queue = deleted.0; armed = s.armed } in
              let handled = adds_none least left (omega (arith, deleted.2, deleted.3)) in
              let rest =
                expire-Serves fuel now handled.0 handled.2 (omega (arith, handled.3, deleted.3)) in
              (
                least ∷ rest.0,
                rest.1,
                behind (some rest.1) (
                    rw (f) (
                      >>=-done (delete_min timer_less no_timer s.queue) (handle least) deleted.1 (
                        >>=-done (run_handler least left) (expire run_handler fuel now) handled.1
                          rest.2))),
                serve deleted.0 (ltb_false→le now least.timeout f) (deleted.3, deleted.4) handled.1
                    rest.3,
                rest.4,
              )
        ]
  ]

  rearm-IsSettled :
      (now : ℕ) (s : Timers)
      → NoneDue now s
      → (s' : Timers) × (rearm run_handler s ≡ done (some s'))
        × (s'.queue ≡ s.queue)
        × IsSettled now s'
  unfolding rearm
  rearm-IsSettled now s (inl empty) = (s, rw (empty) refl, refl, inl empty)
  rearm-IsSettled now s (inr (t, found, later)) = elim (Bool-cases (s.queue.size == 0)) [
    | inl e ↦ (s, rw (e) refl, refl, inl (==→eq s.queue.size 0 e))
    | inr e ↦ (
      record { queue = s.queue; armed = some t.timeout },
      rw (e, found) refl,
      refl,
      inr (t, found, later, refl),
    )
  ]

  -- For handlers that end without a fault and leave no more timers than there were, and a
  -- queue whose vector has a place for every timer, with more rounds than timers
  -- handleTimeoutEvents ends without a fault; the timers that it serves, one after the other,
  -- were due and in the queue, each is taken out of it, and just it, before its handler runs;
  -- then no timer is left, or the one that find_min returns is not due and the timer of the
  -- system is set to its time.
  pub handle_timeout_events-Serves :
      (fuel now : ℕ) (s : Timers)
      → HasRoom s
      → s.queue.size < fuel
      → (served : List Timer) × (left : Timers) × (s' : Timers) × (handle_timeout_events run_handler
            fuel now s
          ≡ done (some s'))
        × Serves run_handler now s served left
        × (s'.queue ≡ left.queue)
        × IsSettled now s'
  unfolding handle_timeout_events
  handle_timeout_events-Serves fuel now s room enough = elim (Bool-cases (s.queue.size == 0)) [
    | inl e ↦
        let empty = ==→eq s.queue.size 0 e in
        ([], s, s, rw (e) refl, stop (inl empty), refl, inl empty)
    | inr e ↦
        let expired = expire-Serves fuel now s room enough in
        let armed = rearm-IsSettled now expired.1 expired.4 in
        (expired.0, expired.1, armed.0, rw (e, expired.2) armed.1, expired.3, armed.2, armed.3)
  ]
