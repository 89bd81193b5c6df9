-- ===== src/Uthread/Queue/Finished.antt =====
-- When a schedule is finished (schedule_finished in uthread/uthread.c).
use old_tools.Common.{
  ℕ, zero, suc, ◌≤◌, ◌≡◌, refl, sym, ap, ◌∙◌, Bool, true, false, ◌&&◌, Option, none, some, List, [],
  ◌∷◌, arith, length,
}
use old_tools.Common.Run.{done, >>=-done}
use old_tools.Uthread.{
  Uthread, Schedule, get_uthread, is_free, all_free, finished_at, schedule_finished,
}
use old_tools.Uthread.Queue.{first, Listed, Queue, get_uthread-some}

abbrev pub free_at : Option Uthread → Bool
free_at none = false
free_at (some u) = is_free u.state

abbrev pub every_free : (ℕ → Option Uthread) → List ℕ → Bool
every_free threads [] = true
every_free threads (x ∷ xs) = free_at (threads x) && every_free threads xs

abbrev pub nobody : Option ℕ → Bool
nobody none = true
nobody (some p) = false

all_free-none : (fuel : ℕ) (s : Schedule) → all_free fuel none s ≡ done true
unfolding all_free
all_free-none zero s = refl
all_free-none (suc fuel) s = refl

all_free-Listed :
    (xs : List ℕ) (p : Option ℕ) (fuel : ℕ) (s : Schedule)
    → Listed s.threads p xs
    → length xs ≤ fuel
    → all_free fuel (first xs) s ≡ done (every_free s.threads xs)
unfolding all_free
all_free-Listed [] p fuel s l h = all_free-none fuel s
all_free-Listed (x ∷ xs) p zero s l h = absurd (omega arith)
all_free-Listed (x ∷ xs) p (suc fuel) s ((u, e, b, n), l) h =
    let rest = all_free-Listed xs (some x) fuel s l (omega arith) in
    >>=-done (get_uthread x s) _ (get_uthread-some x s u e) (
      by_state (is_free u.state) (ap (λ o. all_free fuel o s) n ∙ rest)
      ∙ ap (λ o. done (free_at o && every_free s.threads xs)) (sym e))
  where
    by_state :
        (b : Bool)
        → all_free fuel u.next s ≡ done (every_free s.threads xs)
        → (elim b [ false ↦ done false | true ↦ all_free fuel u.next s ])
          ≡ done (b && every_free s.threads xs)
    by_state true k = k
    by_state false k = refl

-- On a well-formed list and with fuel for its length, schedule_finished ends without a fault
-- and is true exactly if no thread runs and every thread of the list is FREE.
pub schedule_finished-Queue :
    (s : Schedule) (xs : List ℕ) (fuel : ℕ)
    → Queue s xs
    → length xs ≤ fuel
    → schedule_finished fuel s ≡ done (nobody s.running_uthread && every_free s.threads xs)
unfolding schedule_finished finished_at
schedule_finished-Queue s xs fuel q h = by_running s.running_uthread
  where
    by_running : (o : Option ℕ) → finished_at fuel o s ≡ done (nobody o && every_free s.threads xs)
    by_running (some p) = refl
    by_running none = ap (λ o. all_free fuel o s) q.head ∙ all_free-Listed xs none fuel s q.listed h
