-- ===== src/Liby/Tasks/Laws.antt =====
-- The queues of tasks as sequences (liby/src/liby.c).
use old_tools.Common.{Avoids, ℕ, ◌≡◌, refl, Bool, Option, none, some, List, [], ◌∷◌, ◌++◌}
use old_tools.Common.Run.{done, >>=-done}
use old_tools.Liby.Links.{Memory, load, list_add_tail, list_del, list_empty}
use old_tools.Liby.Links.Ring.{
  Ring, Mapped, Apart, Apart-push, Apart-append, Apart-drop, Apart-cons, Apart-uncons, ==_false_sym,
  Frame, Ring-Frame, load-Mapped,
}
use old_tools.Liby.Links.Ring.Update.{list_add_tail-Ring, list_del-Ring}
use old_tools.Liby.Links.Ring.Walk.{list_empty-Ring-nil, list_empty-Ring-cons}
use old_tools.Liby.State.{
  Direction, reading, writing, Side, Client, side, set_side, State, get_client,
}
use old_tools.Liby.Tasks.{push_task, take_first, pop_task}

abbrev pub opposite : Direction → Direction
opposite reading = writing
opposite writing = reading

abbrev pub head_of : Direction → Client → ℕ
head_of dir c = (side dir c).list_head

-- The two queues of a client, the one of the direction first
pub record Queued (dir : Direction) (s : State) (c : Client) (mine others : List ℕ) : Type 0 where
  pub client : s.client ≡ some c
  pub ring : Ring s.memory (head_of dir c) mine
  pub other : Ring s.memory (head_of (opposite dir) c) others
  pub apart : Apart (head_of (opposite dir) c ∷ others) (head_of dir c ∷ mine)

pub get_client-eq : (s : State) (c : Client) → s.client ≡ some c → get_client s ≡ done c
unfolding get_client
get_client-eq s c e = rw (e, get_client) refl

-- The address is in use by neither queue.
pub record IsFresh (dir : Direction) (c : Client) (mine others : List ℕ) (task : ℕ) : Type 0 where
  pub outside_mine : Avoids task (head_of dir c ∷ mine)
  pub outside_others : Avoids task (head_of (opposite dir) c ∷ others)

-- For an allocated task at an address in use by neither queue, push_read_task_to_client and
-- push_write_task_to_client end without a fault, put the task behind the others of the queue,
-- and leave the other queue as it was.
pub push_task-Queued :
    (dir : Direction) (s : State) (c : Client) (mine others : List ℕ) (task : ℕ)
    → Queued dir s c mine others
    → Mapped s.memory.next task
    → Mapped s.memory.prev task
    → IsFresh dir c mine others task
    → (m : Memory) × (push_task dir task s ≡ done (record s { memory = m }))
      × Queued dir (record s { memory = m }) c (mine ++ (task ∷ [])) others
unfolding push_task
push_task-Queued dir s c mine others task q n p fresh =
    let (m, e, r, f) =
      list_add_tail-Ring s.memory task (head_of dir c) mine q.ring n p fresh.outside_mine in
    (
      m,
      >>=-done (get_client s) _ (get_client-eq s c q.client)
          (>>=-done (list_add_tail task (head_of dir c) s.memory) _ e refl),
      record {
        client = q.client;
        ring = r;
        other =
            Ring-Frame s.memory m (task ∷ head_of dir c ∷ mine) (head_of (opposite dir) c) others f
              (Apart-push (head_of (opposite dir) c ∷ others) task (head_of dir c ∷ mine)
                fresh.outside_others q.apart)
              q.other;
        apart =
            Apart-append (head_of (opposite dir) c ∷ others) (head_of dir c ∷ mine) task
              fresh.outside_others q.apart;
      },
    )

-- With a queue of tasks pop_read_task_from_client and pop_write_task_from_client end without a
-- fault, return the oldest task, and leave the other tasks of the queue and the other queue as
-- they were.
pub pop_task-Queued :
    (dir : Direction) (s : State) (c : Client) (task : ℕ) (mine others : List ℕ)
    → Queued dir s c (task ∷ mine) others
    → (m : Memory) × (pop_task dir s ≡ done (some task, record s { memory = m }))
      × Queued dir (record s { memory = m }) c mine others
unfolding pop_task take_first
pop_task-Queued dir s c task mine others q =
    let h = head_of dir c in
    let (m, e, r, n, p, f) = list_del-Ring s.memory task h [] mine q.ring in
    (
      m,
      >>=-done (get_client s) _ (get_client-eq s c q.client) (
          >>=-done (list_empty h s.memory) _ (list_empty-Ring-cons s.memory h task mine q.ring) (
            >>=-done (load s.memory.next h) _ (load-Mapped s.memory.next h task q.ring.path.0.0)
              (>>=-done (list_del task s.memory) _ e refl))),
      record {
        client = q.client;
        ring = r;
        other =
            Ring-Frame s.memory m (h ∷ task ∷ mine) (head_of (opposite dir) c) others f q.apart
              q.other;
        apart = Apart-drop (head_of (opposite dir) c ∷ others) h task mine q.apart;
      },
    )

pub pop_task-nil :
    (dir : Direction) (s : State) (c : Client) (others : List ℕ)
    → Queued dir s c [] others
    → pop_task dir s ≡ done (none, s)
unfolding pop_task
pop_task-nil dir s c others q = >>=-done (get_client s) _ (get_client-eq s c q.client) (
    >>=-done (list_empty (head_of dir c) s.memory) _
      (list_empty-Ring-nil s.memory (head_of dir c) q.ring) refl)

-- The client with new flags and a new current task on one side
abbrev pub changed : Direction → (Side → Option ℕ) → (Side → Bool) → Client → Client
changed dir q b c =
    set_side dir (record (side dir c) { curr_task = q (side dir c); enabled = b (side dir c) }) c

pub changed-Queued :
    (dir : Direction) (q : Side → Option ℕ) (b : Side → Bool) (s : State) (c : Client)
    (mine others : List ℕ)
    → Queued dir s c mine others
    → Queued dir (record s { client = some (changed dir q b c) }) (changed dir q b c) mine others
unfolding side set_side
changed-Queued reading q b s c mine others h = record {
  client = refl;
  ring = h.ring;
  other = h.other;
  apart = h.apart;
}
changed-Queued writing q b s c mine others h = record {
  client = refl;
  ring = h.ring;
  other = h.other;
  apart = h.apart;
}

pub changed-IsFresh :
    (dir : Direction) (q : Side → Option ℕ) (b : Side → Bool) (c : Client) (mine others : List ℕ)
    (p : ℕ)
    → IsFresh dir c mine others p
    → IsFresh dir (changed dir q b c) mine others p
unfolding side set_side
changed-IsFresh reading q b c mine others p h = record {
  outside_mine = h.outside_mine;
  outside_others = h.outside_others;
}
changed-IsFresh writing q b c mine others p h = record {
  outside_mine = h.outside_mine;
  outside_others = h.outside_others;
}

pub changed-curr_task :
    (dir : Direction) (q : Side → Option ℕ) (b : Side → Bool) (c : Client)
    → (side dir (changed dir q b c)).curr_task ≡ q (side dir c)
unfolding side set_side
changed-curr_task reading q b c = refl
changed-curr_task writing q b c = refl

pub changed-destroy :
    (dir : Direction) (q : Side → Option ℕ) (b : Side → Bool) (c : Client)
    → (changed dir q b c).destroy ≡ c.destroy
unfolding set_side
changed-destroy reading q b c = refl
changed-destroy writing q b c = refl

-- A change of memory at an address that is in use by neither queue
pub Queued-Frame :
    (dir : Direction) (s : State) (m : Memory) (c : Client) (mine others : List ℕ) (p : ℕ)
    → Frame s.memory m (p ∷ [])
    → IsFresh dir c mine others p
    → Queued dir s c mine others
    → Queued dir (record s { memory = m }) c mine others
Queued-Frame dir s m c mine others p f fresh q = record {
  client = q.client;
  ring =
      Ring-Frame s.memory m (p ∷ []) (head_of dir c) mine f
        (Apart-cons (head_of dir c ∷ mine) p fresh.outside_mine) q.ring;
  other =
      Ring-Frame s.memory m (p ∷ []) (head_of (opposite dir) c) others f
        (Apart-cons (head_of (opposite dir) c ∷ others) p fresh.outside_others) q.other;
  apart = q.apart;
}

-- A task that leaves its queue is then in use by neither.
pub popped-IsFresh :
    (dir : Direction) (s : State) (c : Client) (task : ℕ) (mine others : List ℕ)
    → Queued dir s c (task ∷ mine) others
    → IsFresh dir c mine others task
popped-IsFresh dir s c task mine others q =
    let (a, d) =
      Apart-uncons (head_of (opposite dir) c ∷ others) (head_of dir c) (task ∷ mine) q.apart in
    record {
      outside_mine = (==_false_sym task (head_of dir c) q.ring.distinct.0.0, q.ring.distinct.1.0);
      outside_others = (Apart-uncons (head_of (opposite dir) c ∷ others) task mine d).0;
    }
