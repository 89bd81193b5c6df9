-- ===== src/Liby/State.antt =====
-- A client of the library with its tasks (io_task and liby_client in liby/src/liby.h).
use old_tools.Common.{ℕ, Bool, Option, none, some, List, [], ◌∷◌, ◌++◌, ◌==◌, if◌then◌else◌, ℤ}
use old_tools.Common.Run.{Run, done, fault, ◌>>=◌}
use old_tools.Liby.Links.{Memory}

-- The code has each function on tasks twice, for reading and for writing.
pub data Direction : Type 0 where
  reading : Direction
  writing : Direction

-- `io_task`; the handler is a name, `none` for NULL. The buffer's bytes are left out, and a
-- negative `min_except_bytes` acts as 0 does.
pub record IoTask : Type 0 where
  pub size : ℕ
  pub offset : ℕ
  pub min_except_bytes : ℕ
  pub handler : Option ℕ

-- `read_list_head`, `curr_read_task` and EPOLLIN in `event.events`, or what belongs to writing
pub record Side : Type 0 where
  pub list_head : ℕ
  pub curr_task : Option ℕ
  pub enabled : Bool

-- `liby_client`. A task, the heads and the client's own `list` are named by their list entries.
pub record Client : Type 0 where
  pub destroy : Bool
  pub list : ℕ
  pub read_side : Side
  pub write_side : Side

unfoldable pub side : Direction → Client → Side
side reading c = c.read_side
side writing c = c.write_side

unfoldable pub set_side : Direction → Side → Client → Client
set_side reading x c = record c { read_side = x }
set_side writing x c = record c { write_side = x }

-- A call of `task->handler(client, task->buf, offset, ec)`
pub record Call : Type 0 where
  pub handler : ℕ
  pub offset : ℕ
  pub ec : ℤ

-- One client with the memory around it: `none` is freed. `calls` are the calls of handlers so far.
pub record State : Type 0 where
  pub memory : Memory
  pub tasks : ℕ → Option IoTask
  pub client : Option Client
  pub calls : List Call

-- What the handlers of the program do; they may call the library.
abbrev pub Handlers : Type 0
Handlers = Call → State → Run State

unfoldable pub call_handler : Handlers → ℕ → ℕ → ℤ → State → Run State
call_handler handlers h offset ec s =
    let c : Call = record { handler = h; offset = offset; ec = ec } in
    handlers c (record s { calls = s.calls ++ (c ∷ []) })

-- `client->…`
unfoldable pub get_client : State → Run Client
get_client s = elim s.client [ none ↦ fault | some c ↦ done c ]

-- `task->…`
unfoldable pub get_task : ℕ → State → Run IoTask
get_task p s = elim (s.tasks p) [ none ↦ fault | some t ↦ done t ]

unfoldable pub set_task : ℕ → Option IoTask → State → State
set_task p t s = record s { tasks = λ x. if x == p then t else s.tasks x }

unfoldable pub set_client_side : Direction → (Side → Side) → State → Run State
unfolding get_client side set_side
set_client_side dir f s = do
  c ← get_client s
  done (record s { client = some (set_side dir (f (side dir c)) c) })
