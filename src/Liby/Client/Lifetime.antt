-- ===== src/Liby/Client/Lifetime.antt =====
-- Destroying a client (liby_client_destroy in liby/src/liby.c).
use old_tools.Common.{
  Avoids, Distinct, ℕ, ◌≡◌, ◌≢◌, refl, sym, ap, ◌∙◌, Option, none, some, List, [], ◌∷◌, ◌++◌,
  ==_self, negsuc,
}
use old_tools.Common.Run.{Run, done, ◌>>=◌, >>=-done, >>=-eq-done, done-injective}
use old_tools.Liby.Links.{Memory, load, free, list_del, list_empty, list_for_each}
use old_tools.Liby.Links.Ring.{
  Ring, Apart, Apart-push, Apart-cons, Apart-uncons, Distinct-split, Avoids-append, Ring-Frame,
  ==_false_sym, load-Mapped, front,
}
use old_tools.Liby.Links.Ring.Update.{list_del-Ring}
use old_tools.Liby.Links.Ring.Walk.{
  list_empty-Ring-nil, list_empty-Ring-cons, list_for_each_freed, next_front,
}
use old_tools.Liby.State.{
  Direction, reading, writing, IoTask, Client, side, State, Handlers, call_handler, get_client,
  get_task, set_task,
}
use old_tools.Liby.Tasks.{io_task_destroy}
use old_tools.Liby.Tasks.Laws.{head_of, Queued, get_client-eq}
use old_tools.Liby.Client.{
  destroy_task, cancel_task, cancel_list, cancel_tasks, remove_client, free_client,
  liby_client_destroy,
}
use old_tools.Liby.Client.Serve.{get_task-eq}

io_task_destroy-freed :
    (p : ℕ) (s s' : State) → io_task_destroy p s ≡ done s' → s'.memory.next p ≡ none
unfolding io_task_destroy set_task free
io_task_destroy-freed p s s' e =
    let (t, u, v) =
      >>=-eq-done (get_task p s)
        (λ t. done (record (set_task p none s) { memory = free p s.memory })) e in
    ap (λ s. s.memory.next p) (sym (done-injective v)) ∙ rw (==_self p) refl

-- A task with a handler is freed by the round that meets it.
cancel_task-freed :
    (handlers : Handlers) (task h : ℕ) (t : IoTask) (s s' : State)
    → s.tasks task ≡ some t
    → t.handler ≡ some h
    → cancel_task handlers task s ≡ done s'
    → s'.memory.next task ≡ none
unfolding cancel_task
cancel_task-freed handlers task h t s s' e k run =
    let body : Option ℕ → Run State = λ o. elim o [
      | none ↦ done s
      | some h ↦ call_handler handlers h 0 (negsuc 0) s >>= λ s'. io_task_destroy task s'
    ] in
    let whole : body (some h) ≡ done s' =
      sym (>>=-done (get_task task s) (λ t. body t.handler) (get_task-eq task s t e) (ap body k))
      ∙ run in
    let (s1, u, v) =
      >>=-eq-done (call_handler handlers h 0 (negsuc 0) s) (λ s'. io_task_destroy task s') whole in
    io_task_destroy-freed task s1 s' v

-- Cancelling a queue whose first task has a handler never ends with a value.
cancel_tasks_freed :
    (handlers : Handlers) (fuel : ℕ) (dir : Direction) (s s' : State) (c : Client) (task h : ℕ)
    (t : IoTask) (rest : List ℕ)
    → s.client ≡ some c
    → Ring s.memory (head_of dir c) (task ∷ rest)
    → s.tasks task ≡ some t
    → t.handler ≡ some h
    → cancel_tasks handlers fuel dir s ≢ done s'
unfolding cancel_tasks cancel_list
cancel_tasks_freed handlers fuel dir s s' c task h t rest e r k n run =
    let head = head_of dir c in
    let loop = list_for_each (λ s. s.memory) (cancel_task handlers) fuel head task s in
    let entered : cancel_tasks handlers fuel dir s ≡ loop =
      >>=-done (get_client s) _ (get_client-eq s c e) (
        >>=-done (list_empty head s.memory) _ (list_empty-Ring-cons s.memory head task rest r) (
          >>=-done (load s.memory.next head) _ (load-Mapped s.memory.next head task r.path.0.0)
            refl)) in
    list_for_each_freed (λ s. s.memory) (cancel_task handlers) fuel head task s s' (front head rest)
      r.distinct.0.0 (next_front s.memory task head rest r.path.1)
      (λ s1 p. cancel_task-freed handlers task h t s s1 k n p) (sym entered ∙ run)

-- The client's entry in its server's list, which is apart from its queues
pub record Registered (s : State) (c : Client) (server : ℕ) (before after mine others : List ℕ)
    : Type 0 where
  pub ring : Ring s.memory server (before ++ (c.list ∷ after))
  pub apart : Apart (c.read_side.list_head ∷ mine) (server ∷ (before ++ (c.list ∷ after)))
  pub apart_other : Apart (c.write_side.list_head ∷ others) (server ∷ (before ++ (c.list ∷ after)))

remove_client-Queued :
    (s : State) (c : Client) (server : ℕ) (before after mine others : List ℕ)
    → Queued reading s c mine others
    → Registered s c server before after mine others
    → (m : Memory) × (remove_client s ≡ done (record s { memory = m }))
      × Queued reading (record s { memory = m }) c mine others
      × Ring m server (before ++ after)
unfolding remove_client side
remove_client-Queued s c server before after mine others q g =
    let all = server ∷ (before ++ (c.list ∷ after)) in
    let (m, e, r, n, p, f) = list_del-Ring s.memory c.list server before after g.ring in
    (
      m,
      >>=-done (get_client s) _ (get_client-eq s c q.client)
          (>>=-done (list_del c.list s.memory) _ e refl),
      record {
        client = q.client;
        ring = Ring-Frame s.memory m all c.read_side.list_head mine f g.apart q.ring;
        other = Ring-Frame s.memory m all c.write_side.list_head others f g.apart_other q.other;
        apart = q.apart;
      },
      r,
    )

-- For a client that is registered with its server and has no current task, if the first queued
-- reading task has a handler, liby_client_destroy never ends with a value, whatever the
-- handlers do and however much fuel is given.
pub liby_client_destroy_use_after_free :
    (handlers : Handlers) (fuel : ℕ) (s s' : State) (c : Client) (server task h : ℕ) (t : IoTask)
    (before after rest others : List ℕ)
    → Queued reading s c (task ∷ rest) others
    → Registered s c server before after (task ∷ rest) others
    → c.read_side.curr_task ≡ none
    → c.write_side.curr_task ≡ none
    → s.tasks task ≡ some t
    → t.handler ≡ some h
    → liby_client_destroy handlers fuel s ≢ done s'
unfolding liby_client_destroy destroy_task side
liby_client_destroy_use_after_free handlers fuel s s' c server task h t before after rest others q g
      cr cw k n run =
    let (m, e, q1, r) = remove_client-Queued s c server before after (task ∷ rest) others q g in
    let s1 = record s { memory = m } in
    let tail : State → Run State =
      λ s4. cancel_tasks handlers fuel writing s4 >>= λ s5. free_client s5 in
    let entered : liby_client_destroy handlers fuel s
        ≡ (cancel_tasks handlers fuel reading s1 >>= tail) =
      >>=-done (get_client s) _ (get_client-eq s c q.client) (
        >>=-done (remove_client s) _ e (
          >>=-done (destroy_task c.read_side.curr_task s1) _ (ap (λ o. destroy_task o s1) cr) (
            >>=-done (destroy_task c.write_side.curr_task s1) _ (ap (λ o. destroy_task o s1) cw)
              refl))) in
    let (s4, p, u) = >>=-eq-done (cancel_tasks handlers fuel reading s1) tail (sym entered ∙ run) in
    cancel_tasks_freed handlers fuel reading s1 s4 c task h t rest q.client q1.ring k n p

-- A ring stays when an entry that was deleted from it is freed with two heads elsewhere.
free-Ring :
    (m : Memory) (server x a b : ℕ) (before after : List ℕ)
    → Distinct (server ∷ (before ++ (x ∷ after)))
    → Avoids a (server ∷ (before ++ (x ∷ after)))
    → Avoids b (server ∷ (before ++ (x ∷ after)))
    → Ring m server (before ++ after)
    → Ring (free x (free a (free b m))) server (before ++ after)
unfolding free
free-Ring m server x a b before after d ha hb r =
    let (dl, dr, apart) = Distinct-split (server ∷ before) (x ∷ after) d in
    let entries = server ∷ (before ++ after) in
    let hx =
      Avoids-append x (server ∷ before) after (Apart-uncons (server ∷ before) x after apart).0
        dr.0 in
    Ring-Frame m (free x (free a (free b m))) (x ∷ a ∷ b ∷ []) server (before ++ after)
      (λ c h.
        let e = ==_false_sym x c h.0 in
        let f = ==_false_sym a c h.1.0 in
        let g = ==_false_sym b c h.1.1.0 in (rw (e, f, g) refl, rw (e, f, g) refl))
      (Apart-push entries x (a ∷ b ∷ []) hx (
        Apart-push entries a (b ∷ []) (Avoids-without a (server ∷ before) x after ha)
          (Apart-cons entries b (Avoids-without b (server ∷ before) x after hb))))
      r
  where
    Avoids-without :
        (c : ℕ) (xs : List ℕ) (y : ℕ) (ys : List ℕ)
        → Avoids c (xs ++ (y ∷ ys))
        → Avoids c (xs ++ ys)
    Avoids-without c [] y ys h = h.1
    Avoids-without c (z ∷ xs) y ys (n, h) = (n, Avoids-without c xs y ys h)

-- For a client that is registered with its server and has no task, liby_client_destroy ends
-- without a fault, frees the client, calls no handler, and leaves the other clients of the
-- server as a ring in their order.
pub liby_client_destroy-Ring :
    (handlers : Handlers) (fuel : ℕ) (s : State) (c : Client) (server : ℕ) (before after : List ℕ)
    → Queued reading s c [] []
    → Registered s c server before after [] []
    → c.read_side.curr_task ≡ none
    → c.write_side.curr_task ≡ none
    → (m : Memory) × (liby_client_destroy handlers fuel s
        ≡ done (record s { memory = m; client = none }))
      × Ring m server (before ++ after)
unfolding liby_client_destroy destroy_task cancel_tasks free_client side
liby_client_destroy-Ring handlers fuel s c server before after q g cr cw =
    let (m, e, q1, r) = remove_client-Queued s c server before after [] [] q g in
    let s1 = record s { memory = m } in
    let reads = c.read_side.list_head in
    let writes = c.write_side.list_head in
    let freed = free c.list (free reads (free writes m)) in
    (
      freed,
      >>=-done (get_client s) _ (get_client-eq s c q.client) (
          >>=-done (remove_client s) _ e (
            >>=-done (destroy_task c.read_side.curr_task s1) _ (ap (λ o. destroy_task o s1) cr) (
              >>=-done (destroy_task c.write_side.curr_task s1) _ (ap (λ o. destroy_task o s1) cw) (
                >>=-done (cancel_tasks handlers fuel reading s1) _
                  (idle reading s1 q1.client q1.ring)
                  (>>=-done (cancel_tasks handlers fuel writing s1) _
                    (idle writing s1 q1.client q1.other)
                    (>>=-done (get_client s1) _ (get_client-eq s1 c q.client) refl)))))),
      free-Ring m server c.list reads writes before after g.ring.distinct g.apart.0 g.apart_other.0
          r,
    )
  where
    idle :
        (dir : Direction) (s1 : State)
        → s1.client ≡ some c
        → Ring s1.memory (head_of dir c) []
        → cancel_tasks handlers fuel dir s1 ≡ done s1
    idle dir s1 e r = >>=-done (get_client s1) _ (get_client-eq s1 c e) (
        >>=-done (list_empty (head_of dir c) s1.memory) _
          (list_empty-Ring-nil s1.memory (head_of dir c) r) refl)
