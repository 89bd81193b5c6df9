-- ===== src/Liby/Client.antt =====
-- Destroying a client, and serving its tasks when its socket is ready (liby/src/liby.c).
pub mod Lifetime
pub mod Message
pub mod Order
pub mod Serve
use old_tools.Common.{
  ℕ, zero, suc, ◌+◌, Bool, true, false, not, ◌&&◌, ◌||◌, Option, none, some, List, [], ◌∷◌, ◌++◌,
  ◌==◌, leb, if◌then◌else◌, ℤ, pos, negsuc,
}
use old_tools.Common.Run.{Run, done, fault, ◌>>=◌}
use old_tools.Liby.Links.{Memory, load, free, list_del, list_empty, list_for_each}
use old_tools.Liby.State.{
  Direction, reading, writing, IoTask, Side, Client, side, State, Handlers, call_handler,
  get_client, get_task, set_task,
}
use old_tools.Liby.Tasks.{pop_task, enable, disable, set_curr_task, io_task_destroy}

-- `if (curr_task) io_task_destroy(curr_task);`
unfoldable pub destroy_task : Option ℕ → State → Run State
unfolding io_task_destroy
destroy_task none s = done s
destroy_task (some p) s = io_task_destroy p s

-- `if (task->handler) task->handler(client, task->buf, offset, ec);`
unfoldable pub notify : Handlers → Option ℕ → ℕ → ℤ → State → Run State
unfolding call_handler
notify handlers none offset ec s = done s
notify handlers (some h) offset ec s = call_handler handlers h offset ec s

-- The body of the loops over the queued tasks
unfoldable pub cancel_task : Handlers → ℕ → State → Run State
unfolding get_task call_handler io_task_destroy
cancel_task handlers task s = do
  t ← get_task task s
  elim t.handler [
    | none ↦ done s
    | some h ↦ call_handler handlers h 0 (negsuc 0) s >>= λ s'. io_task_destroy task s'
  ]

unfoldable pub cancel_list : Handlers → ℕ → ℕ → State → Run State
unfolding load list_for_each cancel_task
cancel_list handlers fuel head s = do
  first ← load s.memory.next head
  list_for_each (λ s. s.memory) (cancel_task handlers) fuel head first s

unfoldable pub cancel_tasks : Handlers → ℕ → Direction → State → Run State
unfolding get_client side list_empty cancel_list
cancel_tasks handlers fuel dir s = do
  c ← get_client s
  empty ← list_empty (side dir c).list_head s.memory
  if empty then done s else cancel_list handlers fuel (side dir c).list_head s

-- remove_client_from_server or remove_client_from_loop: both delete the entry `list`.
unfoldable pub remove_client : State → Run State
unfolding get_client list_del
remove_client s = do c ← get_client s; m ← list_del c.list s.memory; done (record s { memory = m })

-- `free(client)`; the user's data and the mutexes are left out.
unfoldable pub free_client : State → Run State
unfolding get_client free
free_client s = do
  c ← get_client s
  done (record s {
    client = none;
    memory = free c.list (free c.read_side.list_head (free c.write_side.list_head s.memory));
  })

unfoldable pub liby_client_destroy : Handlers → ℕ → State → Run State
unfolding get_client remove_client destroy_task cancel_tasks free_client
liby_client_destroy handlers fuel s = do
  c ← get_client s
  s1 ← remove_client s
  s2 ← destroy_task c.read_side.curr_task s1
  s3 ← destroy_task c.write_side.curr_task s2
  s4 ← cancel_tasks handlers fuel reading s3
  s5 ← cancel_tasks handlers fuel writing s4
  free_client s5

abbrev pub is_none : Option ℕ → Bool
is_none none = true
is_none (some x) = false

-- One of the two tests of liby_client_update_state
unfoldable pub update_side : Direction → State → Run State
unfolding get_client side list_empty enable disable
update_side dir s = do
  c ← get_client s
  empty ← list_empty (side dir c).list_head s.memory
  if empty && is_none (side dir c).curr_task then disable dir s else enable dir s

unfoldable pub update_sides : State → Run State
unfolding update_side
update_sides s = do s' ← update_side reading s; update_side writing s'

unfoldable pub liby_client_update_state : Handlers → ℕ → State → Run State
unfolding get_client liby_client_destroy update_sides
liby_client_update_state handlers fuel s = do
  c ← get_client s
  if c.destroy then liby_client_destroy handlers fuel s else update_sides s

-- What `read` or `write` returns: `moved n` is `n + 1` bytes, `again` is EAGAIN, `ended` is 0, and
-- `failed` any other error; the number is errno.
pub data Outcome : Type 0 where
  moved : ℕ → Outcome
  again : Outcome
  ended : ℕ → Outcome
  failed : ℕ → Outcome

-- `ec = errno; if (ec == 0 && ret == 0) ec = -1;`
unfoldable pub end_code : ℕ → ℤ
end_code zero = negsuc 0
end_code (suc errno) = pos (suc errno)

-- Only reading disables its events before the handler is called.
unfoldable pub notify_error : Handlers → Direction → Option ℕ → ℕ → ℤ → State → Run State
unfolding disable call_handler
notify_error handlers dir none offset ec s = done s
notify_error handlers reading (some h) offset ec s =
    disable reading s >>= λ s'. call_handler handlers h offset ec s'
notify_error handlers writing (some h) offset ec s = call_handler handlers h offset ec s

-- The branch for an end or an error
unfoldable pub fail_task : Handlers → ℕ → Direction → ℕ → ℤ → State → Run State
unfolding get_task notify_error liby_client_destroy
fail_task handlers fuel dir p ec s = do
  t ← get_task p s
  s' ← notify_error handlers dir t.handler t.offset ec s
  liby_client_destroy handlers fuel s'

-- `curr_task = pop(…); io_task_destroy(p);` behind the inner loop, with the new task
unfoldable pub next_task : Direction → ℕ → State → Run (Option ℕ × State)
unfolding pop_task set_curr_task io_task_destroy
next_task dir p s = do
  (q, s1) ← pop_task dir s
  s2 ← set_curr_task dir q s1
  s3 ← io_task_destroy p s2
  done (q, s3)

-- `p->offset += ret`: the new offset, and the task with it
unfoldable pub advance_task : ℕ → ℕ → State → Run (IoTask × State)
unfolding get_task set_task
advance_task p ret s = do
  t ← get_task p s
  let t' = record t { offset = t.offset + ret }
  done (t', set_task p (some t') s)

-- The two loops over what the calls of `read` or `write` return, at the current task; behind the
-- last outcome there is nothing more to read, which is EAGAIN.
unfoldable pub message_loop : Handlers → ℕ → Direction → List Outcome → Option ℕ → State → Run State
unfolding liby_client_update_state advance_task notify next_task fail_task end_code
message_loop handlers fuel dir outcomes none s = liby_client_update_state handlers fuel s
message_loop handlers fuel dir [] (some p) s = liby_client_update_state handlers fuel s
message_loop handlers fuel dir (again ∷ rest) (some p) s = liby_client_update_state handlers fuel s
message_loop handlers fuel dir (ended errno ∷ rest) (some p) s =
    fail_task handlers fuel dir p (end_code errno) s
message_loop handlers fuel dir (failed errno ∷ rest) (some p) s =
    fail_task handlers fuel dir p (pos errno) s
message_loop handlers fuel dir (moved n ∷ rest) (some p) s = do
  (t, s1) ← advance_task p (n + 1) s
  elim (leb t.min_except_bytes t.offset) [
    | false ↦ message_loop handlers fuel dir rest (some p) s1
    | true ↦ do
      s2 ← notify handlers t.handler t.offset (pos 0) s1
      (q, s3) ← next_task dir p s2
      message_loop handlers fuel dir rest q s3
  ]

-- A client without a current task takes one, and returns where there is none.
unfoldable pub first_task : Direction → Option ℕ → State → Run (Option ℕ × State)
unfolding pop_task set_curr_task
first_task dir (some p) s = done (some p, s)
first_task dir none s = do (q, s1) ← pop_task dir s; s2 ← set_curr_task dir q s1; done (q, s2)

-- read_message and write_message
unfoldable pub message : Handlers → ℕ → Direction → List Outcome → State → Run State
unfolding get_client side first_task message_loop
message handlers fuel dir outcomes s = do
  c ← get_client s
  (q, s') ← first_task dir (side dir c).curr_task s
  if is_none q then done s' else message_loop handlers fuel dir outcomes q s'

-- The events that the handler looks at: any of EPOLLHUP, EPOLLERR and EPOLLRDHUP, then EPOLLIN and
-- EPOLLOUT
pub record Events : Type 0 where
  pub hangup : Bool
  pub epollin : Bool
  pub epollout : Bool

unfoldable pub liby_client_handler : Handlers → ℕ → Events → List Outcome → State → Run State
unfolding liby_client_destroy message
liby_client_handler handlers fuel events outcomes s =
    if events.hangup
    then liby_client_destroy handlers fuel s
    else if events.epollin
    then message handlers fuel reading outcomes s
    else if events.epollout
    then message handlers fuel writing outcomes s
    else done s
