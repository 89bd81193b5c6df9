-- ===== src/Liby/Tasks/Start.antt =====
-- Starting to read and to write (liby_async_read_some and liby_async_write_some in
-- liby/src/liby.c).
use old_tools.Common.{
  ℕ, ◌≡◌, ◌≢◌, refl, ap, ◌∙◌, true, Option, some, List, [], ◌∷◌, ◌++◌, ==_self, ne→==_false,
  if◌then◌else◌,
}
use old_tools.Common.Run.{done, exited, ◌>>=◌, >>=-done}
use old_tools.Liby.Links.Ring.{Frame, ==_false_sym}
use old_tools.Liby.State.{
  Direction, reading, writing, IoTask, Client, side, set_side, State, get_client, set_task,
  set_client_side,
}
use old_tools.Liby.Tasks.{push_task, enable, alloc_task, start_write, liby_async_write_some}
use old_tools.Liby.Tasks.Laws.{
  Queued, IsFresh, get_client-eq, push_task-Queued, changed, changed-Queued, Queued-Frame,
}

-- A task that was started: it is stored, and the events of its direction are enabled.
pub record Started (dir : Direction) (s : State) (c : Client) (task : ℕ) (t : IoTask)
    (mine others : List ℕ) : Type 0 where
  pub queued : Queued dir s c (mine ++ (task ∷ [])) others
  pub stored : s.tasks task ≡ some t
  pub enabled : (side dir c).enabled ≡ true

changed-enabled :
    (dir : Direction) (c : Client)
    → (side dir (changed dir (λ x. x.curr_task) (λ x. true) c)).enabled ≡ true
unfolding side set_side
changed-enabled reading c = refl
changed-enabled writing c = refl

alloc_task-Queued :
    (dir : Direction) (s : State) (c : Client) (mine others : List ℕ) (task : ℕ) (t : IoTask)
    → Queued dir s c mine others
    → IsFresh dir c mine others task
    → Queued dir (alloc_task task t s) c mine others
unfolding alloc_task set_task
alloc_task-Queued dir s c mine others task t q fresh =
    let s1 = alloc_task task t s in
    let f : Frame s.memory s1.memory (task ∷ []) =
      λ a h. let e = ==_false_sym task a h.0 in (rw e, rw e) in
    Queued-Frame dir (set_task task (some t) s) s1.memory c mine others task f fresh
      (record { client = q.client; ring = q.ring; other = q.other; apart = q.apart })

push_task-Started :
    (dir : Direction) (s : State) (c : Client) (mine others : List ℕ) (task : ℕ) (t : IoTask)
    → Queued dir s c mine others
    → IsFresh dir c mine others task
    → (s' : State) × (c' : Client) × ((push_task dir task (alloc_task task t s) >>= enable dir)
        ≡ done s')
      × Started dir s' c' task t mine others
unfolding enable set_client_side alloc_task set_task
push_task-Started dir s c mine others task t q fresh =
    let s1 = alloc_task task t s in
    let q1 = alloc_task-Queued dir s c mine others task t q fresh in
    let (m, e, q2) =
      push_task-Queued dir s1 c mine others task q1 (0, rw (==_self task)) (0, rw (==_self task))
        fresh in
    let s2 = record s1 { memory = m } in
    let c' = changed dir (λ x. x.curr_task) (λ x. true) c in
    (
      record s2 { client = some c' },
      c',
      >>=-done (push_task dir task s1) (enable dir) e (
          >>=-done (get_client s2)
            (λ c. done (record s2 { client = some (changed dir (λ x. x.curr_task) (λ x. true) c) }))
            (get_client-eq s2 c q.client) refl),
      record {
        queued =
            changed-Queued dir (λ x. x.curr_task) (λ x. true) s2 c (mine ++ (task ∷ [])) others q2;
        stored = rw (==_self task);
        enabled = changed-enabled dir c;
      },
    )

-- For a client with well-formed queues, a new task at an address in use by neither and a
-- buffer whose size is not 0, liby_async_write_some ends without a fault, the task is stored
-- and stands behind the other writing tasks, the reading tasks are as before, and EPOLLOUT is
-- set.
pub liby_async_write_some-Started :
    (s : State) (c : Client) (mine others : List ℕ) (task size : ℕ) (handler : Option ℕ)
    → Queued writing s c mine others
    → IsFresh writing c mine others task
    → size ≢ 0
    → (s' : State) × (c' : Client) × (liby_async_write_some task (some size) handler s ≡ done s')
      × Started writing s' c' task
          (record { size = size; offset = 0; min_except_bytes = 0; handler = handler })
          mine
          others
unfolding liby_async_write_some start_write
liby_async_write_some-Started s c mine others task size handler q fresh n =
    let t : IoTask = record { size = size; offset = 0; min_except_bytes = 0; handler = handler } in
    let (s', c', e, v) = push_task-Started writing s c mine others task t q fresh in
    (
      s',
      c',
      ap (λ b. if b then exited 134 else start_write task size handler s) (ne→==_false size 0 n)
          ∙ e,
      v,
    )
