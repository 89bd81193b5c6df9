-- ===== src/Liby/Init/Laws.antt =====
-- New clients, with a server and without one (liby_client_init, liby_server_acceptor and
-- liby_client_destroy in liby/src/liby.c).
use old_tools.Common.{
  Avoids, Distinct, ℕ, ◌≡◌, refl, ap, ◌∙◌, false, true, none, some, List, [], ◌∷◌, ==_self,
}
use old_tools.Common.Run.{done, fault, ◌>>=◌, >>=-done, >>=-fault}
use old_tools.Liby.Links.{
  Memory, load, set, save, init_list_head, list_add_tail, list_unlink, list_del,
}
use old_tools.Liby.Links.Ring.{
  Ring, Mapped, Apart, Apart-uncons, Avoids-append, Frame, Ring-Frame, load-Mapped, save-Mapped,
  ==_false_sym,
}
use old_tools.Liby.Links.Ring.Update.{list_add_tail-Ring}
use old_tools.Liby.State.{reading, Client, side, State, Handlers, get_client}
use old_tools.Liby.Tasks.Laws.{Queued}
use old_tools.Liby.Client.{remove_client, liby_client_destroy}
use old_tools.Liby.Client.Lifetime.{Registered}
use old_tools.Liby.Init.{alloc_client, liby_client_init, add_client_to_server}

-- The memory of a new client: three entries, of which two are heads of empty rings
abbrev new_memory : ℕ → ℕ → ℕ → Memory → Memory
new_memory list reads writes m =
    let m0 = alloc_client list reads writes m in
    record {
      next = set (set m0.next reads reads) writes writes;
      prev = set (set m0.prev reads reads) writes writes;
    }

abbrev new_client : ℕ → ℕ → ℕ → Client
new_client list reads writes = record {
  destroy = false;
  list = list;
  read_side = record { list_head = reads; curr_task = none; enabled = true };
  write_side = record { list_head = writes; curr_task = none; enabled = false };
}

init_list_head-eq :
    (a : ℕ) (m : Memory)
    → Mapped m.next a
    → Mapped m.prev a
    → init_list_head a m ≡ done (record { next = set m.next a a; prev = set m.prev a a })
unfolding init_list_head
init_list_head-eq a m n p =
    >>=-done (save m.next a a) _ (save-Mapped m.next a a n)
      (>>=-done (save m.prev a a) _ (save-Mapped m.prev a a p) refl)

module _ (list reads writes : ℕ) (s : State) (d : Distinct (list ∷ reads ∷ writes ∷ [])) where
  abbrev start : State
  start = record s {
    memory = new_memory list reads writes s.memory;
    client = some (new_client list reads writes);
  }

  liby_client_init-eq : liby_client_init list reads writes s ≡ done start
  unfolding liby_client_init alloc_client
  liby_client_init-eq =
      let m0 = alloc_client list reads writes s.memory in
      let m1 : Memory = record { next = set m0.next reads reads; prev = set m0.prev reads reads } in
      let rl = d.0.0 in
      let wl = d.0.1.0 in
      let wr = d.1.0.0 in
      let at_reads : m0.next reads ≡ some 0 = rw (rl, ==_self reads) refl in
      let at_reads' : m0.prev reads ≡ some 0 = rw (rl, ==_self reads) refl in
      let at_writes : m1.next writes ≡ some 0 = rw (wr, wl, ==_self writes) refl in
      let at_writes' : m1.prev writes ≡ some 0 = rw (wr, wl, ==_self writes) refl in
      >>=-done (init_list_head reads m0) _ (init_list_head-eq reads m0 (0, at_reads) (0, at_reads'))
        (>>=-done (init_list_head writes m1) _
          (init_list_head-eq writes m1 (0, at_writes) (0, at_writes')) refl)

  start-list : (start.memory.next list ≡ some 0) × (start.memory.prev list ≡ some 0)
  unfolding alloc_client
  start-list =
      let lw = ==_false_sym writes list d.0.1.0 in
      let lr = ==_false_sym reads list d.0.0 in
      (rw (lw, lr, ==_self list) refl, rw (lw, lr, ==_self list) refl)

  start-Frame : Frame s.memory start.memory (list ∷ reads ∷ writes ∷ [])
  unfolding alloc_client
  start-Frame c h =
      let l = ==_false_sym list c h.0 in
      let r = ==_false_sym reads c h.1.0 in
      let w = ==_false_sym writes c h.1.1.0 in (rw (w, r, l) refl, rw (w, r, l) refl)

  start-Queued : Queued reading start (new_client list reads writes) [] []
  unfolding alloc_client side
  start-Queued =
      let wr = d.1.0.0 in
      let apart_rw = ==_false_sym writes reads wr in
      record {
        client = refl;
        ring = record {
          path = ((rw (apart_rw, ==_self reads) refl, rw (apart_rw, ==_self reads) refl), tt);
          distinct = (tt, tt);
        };
        other = record {
          path = ((rw (==_self writes) refl, rw (==_self writes) refl), tt);
          distinct = (tt, tt);
        };
        apart = ((apart_rw, tt), tt);
      }

  -- The entry was set to zero, so its deletion writes through null.
  remove_client-unlinked :
      Avoids 0 (list ∷ reads ∷ writes ∷ []) → s.memory.prev 0 ≡ none → remove_client start ≡ fault
  unfolding remove_client list_del list_unlink save get_client
  remove_client-unlinked z e =
      let p = start.memory.prev in
      let stuck : save p 0 0 ≡ fault =
        ap (λ o. elim o [ none ↦ fault | some old ↦ done (set p 0 0) ]) ((start-Frame 0 z).1 ∙ e) in
      let unlinked : list_del list start.memory ≡ fault =
        >>=-done (load p list) _ (load-Mapped p list 0 start-list.1) (
          >>=-done (load start.memory.next list) _
            (load-Mapped start.memory.next list 0 start-list.0)
            (>>=-fault (list_unlink 0 0 start.memory) _ (>>=-fault (save p 0 0) _ stuck))) in
      >>=-fault (list_del list start.memory) (λ m. done (record start { memory = m })) unlinked

  -- If the three list entries of a new client are different from each other and from the null
  -- pointer, which is not mapped, liby_client_destroy of a client that liby_client_init made
  -- and that no server registered is a fault.
  pub liby_client_init_unlinked :
      (handlers : Handlers) (fuel : ℕ)
      → Avoids 0 (list ∷ reads ∷ writes ∷ [])
      → s.memory.prev 0 ≡ none
      → (liby_client_init list reads writes s >>= λ s'. liby_client_destroy handlers fuel s')
        ≡ fault
  unfolding liby_client_destroy get_client
  liby_client_init_unlinked handlers fuel z e =
      >>=-done (liby_client_init list reads writes s) _ liby_client_init-eq
        (>>=-fault (remove_client start) _ (remove_client-unlinked z e))

  -- If the three list entries of a new client are different from each other and apart from the
  -- ring of the server's clients, liby_client_init and the registration with the server end
  -- without a fault, and the client then has two empty queues and is the last of the server's
  -- clients.
  pub add_client_to_server-Registered :
      (server : ℕ) (entries : List ℕ)
      → Ring s.memory server entries
      → Apart (server ∷ entries) (list ∷ reads ∷ writes ∷ [])
      → (s' : State) × (c : Client) × ((liby_client_init list reads writes s
            >>= add_client_to_server server)
          ≡ done s')
        × (c.list ≡ list)
        × Queued reading s' c [] []
        × Registered s' c server entries [] [] []
  unfolding add_client_to_server side get_client
  add_client_to_server-Registered server entries r a =
      let (al, a1) = Apart-uncons (server ∷ entries) list (reads ∷ writes ∷ []) a in
      let (ar, a2) = Apart-uncons (server ∷ entries) reads (writes ∷ []) a1 in
      let (aw, a3) = Apart-uncons (server ∷ entries) writes [] a2 in
      let c = new_client list reads writes in
      let r1 =
        Ring-Frame s.memory start.memory (list ∷ reads ∷ writes ∷ []) server entries start-Frame a
          r in
      let (m, e, r2, f) =
        list_add_tail-Ring start.memory list server entries r1 (0, start-list.0) (0, start-list.1)
          al in
      let q = start-Queued in
      let s' = record start { memory = m } in
      let lr = ==_false_sym reads list d.0.0 in
      let lw = ==_false_sym writes list d.0.1.0 in
      let all = list ∷ server ∷ entries in
      (
        s',
        c,
        >>=-done (liby_client_init list reads writes s) _ liby_client_init-eq (
            >>=-done (list_add_tail list server start.memory)
              (λ m. done (record start { memory = m })) e refl),
        refl,
        record {
          client = refl;
          ring = Ring-Frame start.memory m all reads [] f ((lr, ar), tt) q.ring;
          other = Ring-Frame start.memory m all writes [] f ((lw, aw), tt) q.other;
          apart = q.apart;
        },
        record {
          ring = r2;
          apart = (Avoids-append reads (server ∷ entries) (list ∷ []) ar (lr, tt), tt);
          apart_other = (Avoids-append writes (server ∷ entries) (list ∷ []) aw (lw, tt), tt);
        },
      )
