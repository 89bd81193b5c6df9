-- ===== src/Liby/Client/Order.antt =====
-- The order in which the handlers of queued tasks are called (read_message and write_message in
-- liby/src/liby.c).
use old_tools.Common.{
  ℕ, ◌+◌, ◌≡◌, refl, ap, ◌∙◌, false, true, Option, none, some, List, [], ◌∷◌, ◌++◌, append_assoc,
  ◌==◌, ==_self, pos,
}
use old_tools.Common.Run.{Run, done, ◌>>=◌, >>=-done}
use old_tools.Liby.Links.{Memory}
use old_tools.Liby.State.{
  Direction, Client, side, Call, State, Handlers, call_handler, get_task, set_task,
}
use old_tools.Liby.Tasks.Laws.{
  Queued, IsFresh, pop_task-Queued, pop_task-nil, changed, changed-curr_task, changed-destroy,
  changed-IsFresh, popped-IsFresh,
}
use old_tools.Liby.Client.{
  notify, Outcome, moved, next_task, advance_task, message_loop, liby_client_update_state,
}
use old_tools.Liby.Client.Serve.{
  Job, addresses, outcomes, calls, IsReady, AllReady, AllReady-other, behind, behind-Queued,
  next_task-eq, get_task-eq,
}

module _ (handlers : Handlers) (passive : (c : Call) (s : State) → handlers c s ≡ done s) (fuel : ℕ)
    (dir : Direction) where
  -- The state after the transfer and the call
  abbrev called : Job → State → State
  called j s =
      let t = record j.task { offset = j.task.offset + (j.more + 1) } in
      record (set_task j.address (some t) s) {
        calls = s.calls ++ (record { handler = j.handler; offset = t.offset; ec = pos 0 } ∷ []);
      }

  -- One round of the loops, `r` being what next_task returns
  message_loop-served :
      (j : Job) (s s' : State) (q : Option ℕ) (rest : List Outcome)
      → IsReady s.tasks j
      → next_task dir j.address (called j s) ≡ done (q, s')
      → message_loop handlers fuel dir (moved j.more ∷ rest) (some j.address) s
        ≡ message_loop handlers fuel dir rest q s'
  unfolding message_loop advance_task notify call_handler
  message_loop-served j s s' q rest r e =
      let t = record j.task { offset = j.task.offset + (j.more + 1) } in
      let s1 = set_task j.address (some t) s in
      let finish : State → Run State =
        λ s2. next_task dir j.address s2 >>= λ p. message_loop handlers fuel dir rest p.0 p.1 in
      >>=-done (advance_task j.address (j.more + 1) s) _
        (>>=-done (get_task j.address s) _ (get_task-eq j.address s j.task r.stored) refl)
        (ap
            (λ b. elim b [
              | false ↦ message_loop handlers fuel dir rest (some j.address) s1
              | true ↦ notify handlers j.task.handler t.offset (pos 0) s1 >>= finish
            ])
            r.enough
          ∙ ap (λ h. notify handlers h t.offset (pos 0) s1 >>= finish) r.named
          ∙ >>=-done (notify handlers (some j.handler) t.offset (pos 0) s1) finish (passive _ _)
              (>>=-done (next_task dir j.address (called j s)) _ e refl))

  called-Queued :
      (j : Job) (s : State) (c : Client) (mine others : List ℕ)
      → Queued dir s c mine others
      → Queued dir (called j s) c mine others
  unfolding set_task
  called-Queued j s c mine others q = record {
    client = q.client;
    ring = q.ring;
    other = q.other;
    apart = q.apart;
  }

  -- What is known when the queue has been served
  pub record Served (s s' : State) (c c' : Client) (js : List Job) (others : List ℕ) : Type 0 where
    pub called : s'.calls ≡ s.calls ++ calls js
    pub queued : Queued dir s' c' [] others
    pub no_task : (side dir c').curr_task ≡ none
    pub same_destroy : c'.destroy ≡ c.destroy

  called-tasks :
      (j : Job) (s : State)
      → (called j s).tasks j.address
        ≡ some (record j.task { offset = j.task.offset + (j.more + 1) })
  unfolding set_task
  called-tasks j s = rw (==_self j.address)

  behind-tasks :
      (j : Job) (s : State) (q : Option ℕ) (m : Memory) (c : Client) (a : ℕ)
      → (a == j.address) ≡ false
      → (behind dir q j.address m c (called j s)).tasks a ≡ s.tasks a
  unfolding set_task
  behind-tasks j s q m c a h = rw h refl

  pub message_loop-Served :
      (js : List Job) (j : Job) (s : State) (c : Client) (others : List ℕ)
      → Queued dir s c (addresses js) others
      → IsFresh dir c (addresses js) others j.address
      → AllReady s.tasks (j ∷ js)
      → (s' : State) × (c' : Client) × (message_loop handlers fuel dir
            (outcomes (j ∷ js))
            (some j.address)
            s
          ≡ liby_client_update_state handlers fuel s')
        × Served s s' c c' (j ∷ js) others
  unfolding message_loop
  message_loop-Served [] j s c others q fresh (r, rs) =
      let s' = behind dir none j.address s.memory c (called j s) in
      (
        s',
        changed dir (λ x. none) (λ x. x.enabled) c,
        message_loop-served j s s' none [] r (
            next_task-eq dir none j.address s.memory c (called j s) _
              (pop_task-nil dir (called j s) c others (called-Queued j s c [] others q)) q.client
              (called-tasks j s)),
        record {
          called = refl;
          queued =
              behind-Queued dir none j.address s.memory c (called j s) [] others
                (called-Queued j s c [] others q) fresh;
          no_task = changed-curr_task dir (λ x. none) (λ x. x.enabled) c;
          same_destroy = changed-destroy dir (λ x. none) (λ x. x.enabled) c;
        },
      )
  message_loop-Served (i ∷ js) j s c others q fresh (r, rs) =
      let (m, e, q1) =
        pop_task-Queued dir (called j s) c i.address (addresses js) others
          (called-Queued j s c (i.address ∷ addresses js) others q) in
      let s1 = behind dir (some i.address) j.address m c (called j s) in
      let c1 = changed dir (λ x. some i.address) (λ x. x.enabled) c in
      let ready =
        AllReady-other s.tasks s1.tasks j.address (i ∷ js) (behind-tasks j s (some i.address) m c)
          fresh.outside_mine.1 rs in
      let q2 =
        behind-Queued dir (some i.address) j.address m c (called j s) (addresses js) others q1
          (record {
            outside_mine = (fresh.outside_mine.0, fresh.outside_mine.1.1);
            outside_others = fresh.outside_others;
          }) in
      let (s', c', e', v) =
        message_loop-Served js i s1 c1 others q2
          (changed-IsFresh dir (λ x. some i.address) (λ x. x.enabled) c (addresses js) others
            i.address (popped-IsFresh dir s c i.address (addresses js) others q))
          ready in
      (
        s',
        c',
        message_loop-served j s s1 (some i.address) (outcomes (i ∷ js)) r (
              next_task-eq dir (some i.address) j.address m c (called j s) _ e q.client
                (called-tasks j s))
            ∙ e',
        record {
          called = v.called ∙ append_assoc s.calls _ (calls (i ∷ js));
          queued = v.queued;
          no_task = v.no_task;
          same_destroy =
              v.same_destroy ∙ changed-destroy dir (λ x. some i.address) (λ x. x.enabled) c;
        },
      )
