-- ===== src/Liby/Tasks.antt =====
-- Queueing tasks and the interest in events (liby/src/liby.c).
pub mod Laws
pub mod Start
use old_tools.Common.{
  ℕ, Bool, true, false, Option, none, some, List, [], ◌∷◌, ◌++◌, ◌==◌, if◌then◌else◌,
}
use old_tools.Common.Run.{Run, done, exited, fault, ◌>>=◌}
use old_tools.Liby.Links.{Memory, load, free, list_add_tail, list_del, list_empty}
use old_tools.Liby.State.{
  Direction, IoTask, Side, Client, side, State, get_client, get_task, set_task, set_client_side,
}

-- push_read_task_to_client and push_write_task_to_client
unfoldable pub push_task : Direction → ℕ → State → Run State
unfolding get_client side list_add_tail
push_task dir task s = do
  c ← get_client s
  m ← list_add_tail task (side dir c).list_head s.memory
  done (record s { memory = m })

-- The first entry is taken off the list.
unfoldable pub take_first : ℕ → State → Run (Option ℕ × State)
unfolding load list_del
take_first head s = do
  ret ← load s.memory.next head
  m ← list_del ret s.memory
  done (some ret, record s { memory = m })

-- pop_read_task_from_client and pop_write_task_from_client
unfoldable pub pop_task : Direction → State → Run (Option ℕ × State)
unfolding get_client side list_empty take_first
pop_task dir s = do
  c ← get_client s
  empty ← list_empty (side dir c).list_head s.memory
  if empty then done (none, s) else take_first (side dir c).list_head s

-- enable_read and enable_write; epoll_ctl is told the same flags.
unfoldable pub enable : Direction → State → Run State
unfolding set_client_side
enable dir s = set_client_side dir (λ x. record x { enabled = true }) s

-- disable_read and disable_write
unfoldable pub disable : Direction → State → Run State
unfolding set_client_side
disable dir s = set_client_side dir (λ x. record x { enabled = false }) s

-- `client->curr_read_task = …`
unfoldable pub set_curr_task : Direction → Option ℕ → State → Run State
unfolding set_client_side
set_curr_task dir p s = set_client_side dir (λ x. record x { curr_task = p }) s

unfoldable pub io_task_destroy : ℕ → State → Run State
unfolding get_task set_task free
io_task_destroy p s = do
  t ← get_task p s
  done (record (set_task p none s) { memory = free p s.memory })

-- malloc of a task at the address `p`; its list entry holds anything.
unfoldable pub alloc_task : ℕ → IoTask → State → State
unfolding set_task
alloc_task p t s = record (set_task p (some t) s) {
  memory = record {
    next = λ x. if x == p then some 0 else s.memory.next x;
    prev = λ x. if x == p then some 0 else s.memory.prev x;
  };
}

-- DEFAULT_BUFFER_SIZE
abbrev pub default_buffer_size : ℕ
default_buffer_size = 4096

-- The size of `buf`; `none` is a NULL buffer, for which one is allocated.
unfoldable pub buffer_size : Option ℕ → ℕ
buffer_size none = default_buffer_size
buffer_size (some size) = size

-- `task` is the address that malloc returns, and `garbage` what `min_except_bytes` then holds: the
-- statement on it assigns nothing.
unfoldable pub liby_async_read_some : ℕ → ℕ → Option ℕ → Option ℕ → State → Run State
unfolding buffer_size alloc_task push_task enable
liby_async_read_some task garbage buf handler s = do
  s' ← push_task Direction.reading task (
      alloc_task task
        (record {
          size = buffer_size buf;
          offset = 0;
          min_except_bytes = garbage;
          handler = handler;
        })
        s)
  enable Direction.reading s'

unfoldable pub liby_async_read : ℕ → ℕ → Option ℕ → State → Run State
unfolding liby_async_read_some
liby_async_read task garbage handler s = liby_async_read_some task garbage none handler s

-- The code after the assertion
unfoldable pub start_write : ℕ → ℕ → Option ℕ → State → Run State
unfolding alloc_task push_task enable
start_write task buffersize handler s = do
  s' ← push_task Direction.writing task (
      alloc_task task
        (record { size = buffersize; offset = 0; min_except_bytes = 0; handler = handler }) s)
  enable Direction.writing s'

-- A failed assertion aborts.
unfoldable pub liby_async_write_some : ℕ → Option ℕ → Option ℕ → State → Run State
unfolding start_write
liby_async_write_some task none handler s = exited 134
liby_async_write_some task (some buffersize) handler s =
    if buffersize == 0 then exited 134 else start_write task buffersize handler s
