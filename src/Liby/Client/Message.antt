-- ===== src/Liby/Client/Message.antt =====
-- What a ready socket does to a client with queued tasks (read_message, write_message and
-- liby_client_update_state in liby/src/liby.c).
use old_tools.Common.{
  ℕ, ◌≡◌, refl, sym, ap, ◌∙◌, Bool, false, true, not, ◌&&◌, none, some, List, [], ◌∷◌, ◌++◌,
  if◌then◌else◌, Bool-cases, inl, inr,
}
use old_tools.Common.Run.{done, >>=-done}
use old_tools.Liby.Links.{Memory, list_empty}
use old_tools.Liby.Links.Ring.{Ring}
use old_tools.Liby.Links.Ring.Walk.{list_empty-Ring-nil, list_empty-Ring-cons}
use old_tools.Liby.State.{
  Direction, reading, writing, Side, Client, side, set_side, Call, State, Handlers, get_client,
}
use old_tools.Liby.Tasks.{pop_task, enable, disable, set_curr_task}
use old_tools.Liby.Tasks.Laws.{
  opposite, head_of, Queued, get_client-eq, pop_task-Queued, changed, changed-Queued,
  changed-destroy, changed-IsFresh, popped-IsFresh,
}
use old_tools.Liby.Client.{
  is_none, update_side, update_sides, liby_client_destroy, liby_client_update_state, first_task,
  message,
}
use old_tools.Liby.Client.Serve.{Job, addresses, outcomes, calls, AllReady, set_client_side-eq}
use old_tools.Liby.Client.Order.{message_loop-Served}

abbrev pub no_tasks : List ℕ → Bool
no_tasks [] = true
no_tasks (x ∷ xs) = false

list_empty-Ring :
    (m : Memory) (head : ℕ) (xs : List ℕ) → Ring m head xs → list_empty head m ≡ done (no_tasks xs)
list_empty-Ring m head [] r = list_empty-Ring-nil m head r
list_empty-Ring m head (x ∷ xs) r = list_empty-Ring-cons m head x xs r

-- The side is interested in events if it has a task, queued or current.
abbrev pub wants : List ℕ → Side → Bool
wants xs x = not (no_tasks xs && is_none x.curr_task)

-- The client with the flag of a side set by its queue
abbrev pub updated : Direction → List ℕ → Client → Client
updated dir xs c = changed dir (λ x. x.curr_task) (wants xs) c

update_side-eq :
    (dir : Direction) (s : State) (c : Client) (xs : List ℕ)
    → s.client ≡ some c
    → Ring s.memory (head_of dir c) xs
    → update_side dir s ≡ done (record s { client = some (updated dir xs c) })
unfolding update_side enable disable
update_side-eq dir s c xs e r =
    let b = no_tasks xs && is_none (side dir c).curr_task in
    >>=-done (get_client s) _ (get_client-eq s c e) (
      >>=-done (list_empty (head_of dir c) s.memory) _
        (list_empty-Ring s.memory (head_of dir c) xs r)
        (elim (Bool-cases b) [
          | inl h ↦
              ap (λ b. if b then disable dir s else enable dir s) h
              ∙ set_client_side-eq dir (λ x. record x { enabled = false }) s c e
              ∙ ap
                  (λ b. done (record s {
                    client = some (set_side dir (record (side dir c) { enabled = not b }) c);
                  }))
                  (sym h)
          | inr h ↦
              ap (λ b. if b then disable dir s else enable dir s) h
              ∙ set_client_side-eq dir (λ x. record x { enabled = true }) s c e
              ∙ ap
                  (λ b. done (record s {
                    client = some (set_side dir (record (side dir c) { enabled = not b }) c);
                  }))
                  (sym h)
        ]))

-- The client with both flags set by the queues, the one of the direction being `mine`
abbrev pub settled : Direction → List ℕ → List ℕ → Client → Client
settled reading mine others c = updated writing others (updated reading mine c)
settled writing mine others c = updated writing mine (updated reading others c)

update_sides-eq :
    (dir : Direction) (s : State) (c : Client) (mine others : List ℕ)
    → Queued dir s c mine others
    → update_sides s ≡ done (record s { client = some (settled dir mine others c) })
unfolding update_sides side set_side
update_sides-eq reading s c mine others q =
    >>=-done (update_side reading s) _ (update_side-eq reading s c mine q.client q.ring) (
      update_side-eq writing (record s { client = some (updated reading mine c) })
        (updated reading mine c) others refl q.other)
update_sides-eq writing s c mine others q =
    >>=-done (update_side reading s) _ (update_side-eq reading s c others q.client q.other) (
      update_side-eq writing (record s { client = some (updated reading others c) })
        (updated reading others c) mine refl q.ring)

-- The state of a client whose flags are set by its queues
pub record Settled (dir : Direction) (s : State) (c : Client) (mine others : List ℕ) : Type 0 where
  pub queued : Queued dir s c mine others
  pub enabled : (side dir c).enabled ≡ wants mine (side dir c)
  pub enabled_other : (side (opposite dir) c).enabled ≡ wants others (side (opposite dir) c)

settled-Settled :
    (dir : Direction) (s : State) (c : Client) (mine others : List ℕ)
    → Queued dir s c mine others
    → Settled dir
        (record s { client = some (settled dir mine others c) })
        (settled dir mine others c)
        mine
        others
unfolding side set_side
settled-Settled reading s c mine others q = record {
  queued = record { client = refl; ring = q.ring; other = q.other; apart = q.apart };
  enabled = refl;
  enabled_other = refl;
}
settled-Settled writing s c mine others q = record {
  queued = record { client = refl; ring = q.ring; other = q.other; apart = q.apart };
  enabled = refl;
  enabled_other = refl;
}

settled-curr_task :
    (dir : Direction) (mine others : List ℕ) (c : Client)
    → (side dir (settled dir mine others c)).curr_task ≡ (side dir c).curr_task
unfolding side set_side
settled-curr_task reading mine others c = refl
settled-curr_task writing mine others c = refl

-- For a client with well-formed queues that is not marked for destruction,
-- liby_client_update_state ends without a fault, keeps the queues and the current task, and
-- enables the events of each direction exactly if the direction has a queued or current task.
pub liby_client_update_state-Settled :
    (handlers : Handlers) (fuel : ℕ) (dir : Direction) (s : State) (c : Client)
    (mine others : List ℕ)
    → Queued dir s c mine others
    → c.destroy ≡ false
    → (c' : Client) × (liby_client_update_state handlers fuel s
        ≡ done (record s { client = some c' }))
      × Settled dir (record s { client = some c' }) c' mine others
      × ((side dir c').curr_task ≡ (side dir c).curr_task)
unfolding liby_client_update_state
liby_client_update_state-Settled handlers fuel dir s c mine others q h = (
  settled dir mine others c,
  >>=-done (get_client s) _ (get_client-eq s c q.client) (
      ap (λ b. if b then liby_client_destroy handlers fuel s else update_sides s) h
      ∙ update_sides-eq dir s c mine others q),
  settled-Settled dir s c mine others q,
  settled-curr_task dir mine others c,
)

-- If the handlers leave the state alone, the client has no current task, a queue of tasks each
-- of which the next transfer completes, and is not marked for destruction, read_message and
-- write_message end without a fault, call the handler of each task once, in the order of the
-- queue and with its new offset, leave that queue empty and the other one as it was, disable
-- the events of the direction, and set those of the other by its queue.
pub message-Served :
    (handlers : Handlers)
    → ((c : Call) (s : State) → handlers c s ≡ done s)
    → (fuel : ℕ) (dir : Direction) (j : Job) (js : List Job) (s : State) (c : Client)
      (others : List ℕ)
    → Queued dir s c (addresses (j ∷ js)) others
    → (side dir c).curr_task ≡ none
    → c.destroy ≡ false
    → AllReady s.tasks (j ∷ js)
    → (s' : State) × (c' : Client) × (message handlers fuel dir (outcomes (j ∷ js)) s ≡ done s')
      × (s'.calls ≡ s.calls ++ calls (j ∷ js))
      × Settled dir s' c' [] others
      × ((side dir c').enabled ≡ false)
unfolding message first_task set_curr_task
message-Served handlers passive fuel dir j js s c others q n d r =
    let (m, e, q1) = pop_task-Queued dir s c j.address (addresses js) others q in
    let c1 = changed dir (λ x. some j.address) (λ x. x.enabled) c in
    let s1 = record s { memory = m; client = some c1 } in
    let fresh =
      changed-IsFresh dir (λ x. some j.address) (λ x. x.enabled) c (addresses js) others j.address
        (popped-IsFresh dir s c j.address (addresses js) others q) in
    let q2 =
      changed-Queued dir (λ x. some j.address) (λ x. x.enabled) (record s { memory = m }) c
        (addresses js) others q1 in
    let (s2, c2, e2, v) =
      message_loop-Served handlers passive fuel dir js j s1 c1 others q2 fresh r in
    let (c3, e3, v3, k) =
      liby_client_update_state-Settled handlers fuel dir s2 c2 [] others v.queued
        (v.same_destroy ∙ changed-destroy dir (λ x. some j.address) (λ x. x.enabled) c ∙ d) in
    (
      record s2 { client = some c3 },
      c3,
      >>=-done (get_client s) _ (get_client-eq s c q.client) (
          >>=-done (first_task dir (side dir c).curr_task s) _
            (ap (λ o. first_task dir o s) n
              ∙ >>=-done (pop_task dir s) _ e (
                  >>=-done (set_curr_task dir (some j.address) (record s { memory = m })) _
                    (set_client_side-eq dir (λ x. record x { curr_task = some j.address })
                      (record s { memory = m }) c q.client)
                    refl))
            (e2 ∙ e3)),
      v.called,
      v3,
      v3.enabled ∙ ap (λ o. not (true && is_none o)) (k ∙ v.no_task),
    )
