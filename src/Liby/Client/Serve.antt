-- ===== src/Liby/Client/Serve.antt =====
-- Serving queued tasks in order (read_message and write_message in liby/src/liby.c).
use old_tools.Common.{
  Avoids, ℕ, ◌+◌, ◌≡◌, refl, ◌∙◌, false, true, Option, none, some, List, [], ◌∷◌, ◌==◌, leb, pos,
}
use old_tools.Common.Run.{done, >>=-done}
use old_tools.Liby.Links.{Memory, free}
use old_tools.Liby.Links.Ring.{Frame, ==_false_sym}
use old_tools.Liby.State.{
  Direction, IoTask, Side, Client, side, set_side, Call, State, get_client, get_task, set_task,
  set_client_side,
}
use old_tools.Liby.Tasks.{pop_task, set_curr_task, io_task_destroy}
use old_tools.Liby.Tasks.Laws.{
  Queued, IsFresh, get_client-eq, changed, changed-Queued, Queued-Frame,
}
use old_tools.Liby.Client.{Outcome, moved, next_task}

pub get_task-eq : (p : ℕ) (s : State) (t : IoTask) → s.tasks p ≡ some t → get_task p s ≡ done t
unfolding get_task
get_task-eq p s t e = rw (e, get_task) refl

pub set_client_side-eq :
    (dir : Direction) (f : Side → Side) (s : State) (c : Client)
    → s.client ≡ some c
    → set_client_side dir f s ≡ done (record s { client = some (set_side dir (f (side dir c)) c) })
unfolding set_client_side
set_client_side-eq dir f s c e = >>=-done (get_client s) _ (get_client-eq s c e) refl

-- Behind a served task: the current task is `q`, and `p` is freed.
abbrev pub behind : Direction → Option ℕ → ℕ → Memory → Client → State → State
behind dir q p m c s = record (set_task p none s) {
  memory = free p m;
  client = some (changed dir (λ x. q) (λ x. x.enabled) c);
}

pub free-Frame : (p : ℕ) (m : Memory) → Frame m (free p m) (p ∷ [])
unfolding free
free-Frame p m c h = let e = ==_false_sym p c h.0 in (rw e, rw e)

pub behind-Queued :
    (dir : Direction) (q : Option ℕ) (p : ℕ) (m : Memory) (c : Client) (s : State)
    (mine others : List ℕ)
    → Queued dir (record s { memory = m }) c mine others
    → IsFresh dir c mine others p
    → Queued dir (behind dir q p m c s) (changed dir (λ x. q) (λ x. x.enabled) c) mine others
unfolding set_task
behind-Queued dir q p m c s mine others h fresh =
    changed-Queued dir (λ x. q) (λ x. x.enabled) (record (set_task p none s) { memory = free p m })
      c mine others
      (Queued-Frame dir (record (set_task p none s) { memory = m }) (free p m) c mine others p
        (free-Frame p m) fresh
        (record { client = h.client; ring = h.ring; other = h.other; apart = h.apart }))

pub next_task-eq :
    (dir : Direction) (q : Option ℕ) (p : ℕ) (m : Memory) (c : Client) (s : State) (t : IoTask)
    → pop_task dir s ≡ done (q, record s { memory = m })
    → s.client ≡ some c
    → s.tasks p ≡ some t
    → next_task dir p s ≡ done (q, behind dir q p m c s)
unfolding next_task set_curr_task io_task_destroy set_task
next_task-eq dir q p m c s t e k h =
    let s1 = record s { memory = m } in
    let s2 = record s1 { client = some (changed dir (λ x. q) (λ x. x.enabled) c) } in
    >>=-done (pop_task dir s) _ e (
      >>=-done (set_curr_task dir q s1) _
        (set_client_side-eq dir (λ x. record x { curr_task = q }) s1 c k)
        (>>=-done (io_task_destroy p s2) _ (>>=-done (get_task p s2) _ (get_task-eq p s2 t h) refl)
          refl))

-- A task of the queue that one transfer completes
pub record Job : Type 0 where
  pub address : ℕ
  pub task : IoTask
  pub handler : ℕ
  pub more : ℕ

abbrev pub addresses : List Job → List ℕ
addresses [] = []
addresses (j ∷ js) = j.address ∷ addresses js

-- One transfer for each task
abbrev pub outcomes : List Job → List Outcome
outcomes [] = []
outcomes (j ∷ js) = moved j.more ∷ outcomes js

-- One call for each task
abbrev pub calls : List Job → List Call
calls [] = []
calls (j ∷ js) =
    (record { handler = j.handler; offset = j.task.offset + (j.more + 1); ec = pos 0 }) ∷ calls js

pub record IsReady (tasks : ℕ → Option IoTask) (j : Job) : Type 0 where
  pub stored : tasks j.address ≡ some j.task
  pub named : j.task.handler ≡ some j.handler
  pub enough : leb j.task.min_except_bytes (j.task.offset + (j.more + 1)) ≡ true

abbrev pub AllReady : (ℕ → Option IoTask) → List Job → Type 0
AllReady tasks [] = Unit {0}
AllReady tasks (j ∷ js) = IsReady tasks j × AllReady tasks js

pub AllReady-other :
    (f g : ℕ → Option IoTask) (p : ℕ) (js : List Job)
    → ((a : ℕ) → (a == p) ≡ false → g a ≡ f a)
    → Avoids p (addresses js)
    → AllReady f js
    → AllReady g js
AllReady-other f g p [] h a r = tt
AllReady-other f g p (j ∷ js) h (n, a) (r, rs) = (
  record { stored = h j.address n ∙ r.stored; named = r.named; enough = r.enough },
  AllReady-other f g p js h a rs,
)
