-- ===== src/Liby/Init.antt =====
-- A new client (liby_client_init, and what liby_server_acceptor does with it, in liby/src/liby.c).
pub mod Laws
use old_tools.Common.{ℕ, Bool, true, false, Option, none, some, ◌==◌, if◌then◌else◌}
use old_tools.Common.Run.{Run, done, fault, ◌>>=◌}
use old_tools.Liby.Links.{Memory, init_list_head, list_add_tail}
use old_tools.Liby.State.{Side, Client, State, get_client}

-- Memory set to zero at the list entry `a` of a new struct
abbrev pub zeroed : ℕ → Memory → Memory
zeroed a m = record {
  next = λ x. if x == a then some 0 else m.next x;
  prev = λ x. if x == a then some 0 else m.prev x;
}

-- BZERO of a client whose entries are `list`, `reads` and `writes`
unfoldable pub alloc_client : ℕ → ℕ → ℕ → Memory → Memory
alloc_client list reads writes m = zeroed list (zeroed reads (zeroed writes m))

-- EPOLLIN is set and EPOLLOUT is not; `list` is left zero.
unfoldable pub liby_client_init : ℕ → ℕ → ℕ → State → Run State
unfolding alloc_client init_list_head
liby_client_init list reads writes s = do
  m1 ← init_list_head reads (alloc_client list reads writes s.memory)
  m2 ← init_list_head writes m1
  done (record s {
    memory = m2;
    client = some (record {
      destroy = false;
      list = list;
      read_side = record { list_head = reads; curr_task = none; enabled = true };
      write_side = record { list_head = writes; curr_task = none; enabled = false };
    });
  })

-- `list_add_tail(&(client->list), &(server->clients.list))`
unfoldable pub add_client_to_server : ℕ → State → Run State
unfolding get_client list_add_tail
add_client_to_server clients s = do
  c ← get_client s
  m ← list_add_tail c.list clients s.memory
  done (record s { memory = m })
