-- ===== src/Liby/Samples.antt =====
-- A client with two tasks, in a server's list with another: the data of the tests of liby/src.
use old_tools.Common.{ℕ, ◌≡◌, refl, false, true, none, some, List, [], ◌∷◌, ◌==◌, if◌then◌else◌}
use old_tools.Common.Run.{done}
use old_tools.Liby.Links.{Field, Memory}
use old_tools.Liby.Links.Ring.{Ring}
use old_tools.Liby.State.{reading, writing, IoTask, Client, side, State, Handlers}
use old_tools.Liby.Tasks.Laws.{Queued, IsFresh}
use old_tools.Liby.Client.Serve.{Job, AllReady}
use old_tools.Liby.Client.Lifetime.{Registered}

abbrev pub field : List (ℕ × ℕ) → Field
field [] a = none
field ((k, v) ∷ rest) a = if a == k then some v else field rest a

-- The server's ring is 1, 2, 10; the client's are 11, 20, 21 and 12; 30 is a new entry.
abbrev pub memory : Memory
memory = record {
  next =
      field ((1, 2) ∷ (2, 10) ∷ (10, 1) ∷ (11, 20) ∷ (20, 21) ∷ (21, 11) ∷ (12, 12) ∷ (30, 5) ∷ []);
  prev =
      field ((1, 10) ∷ (2, 1) ∷ (10, 2) ∷ (11, 21) ∷ (20, 11) ∷ (21, 20) ∷ (12, 12) ∷ (30, 5) ∷ []);
}

-- The same without tasks
abbrev pub idle_memory : Memory
idle_memory = record {
  next = field ((1, 2) ∷ (2, 10) ∷ (10, 1) ∷ (11, 11) ∷ (12, 12) ∷ []);
  prev = field ((1, 10) ∷ (2, 1) ∷ (10, 2) ∷ (11, 11) ∷ (12, 12) ∷ []);
}

abbrev pub client : Client
client = record {
  destroy = false;
  list = 10;
  read_side = record { list_head = 11; curr_task = none; enabled = true };
  write_side = record { list_head = 12; curr_task = none; enabled = false };
}

abbrev pub task : IoTask
task = record { size = 4096; offset = 0; min_except_bytes = 1; handler = some 7 }

abbrev pub state : State
state = record {
  memory = memory;
  tasks = λ a. if a == 20 then some task else (if a == 21 then some task else none);
  client = some client;
  calls = [];
}

abbrev pub idle : State
idle = record { memory = idle_memory; tasks = λ a. none; client = some client; calls = [] }

abbrev pub jobs : List Job
jobs = (record { address = 21; task = task; handler = 7; more = 4 }) ∷ []

abbrev pub job : Job
job = record { address = 20; task = task; handler = 7; more = 99 }

pub server-Ring : Ring memory 1 (2 ∷ 10 ∷ [])
server-Ring = record {
  path = ((refl, refl), ((refl, refl), ((refl, refl), tt)));
  distinct = ((refl, (refl, tt)), ((refl, tt), (tt, tt)));
}

pub reads-Ring : Ring memory 11 (20 ∷ 21 ∷ [])
reads-Ring = record {
  path = ((refl, refl), ((refl, refl), ((refl, refl), tt)));
  distinct = ((refl, (refl, tt)), ((refl, tt), (tt, tt)));
}

pub writes-Ring : Ring memory 12 []
writes-Ring = record { path = ((refl, refl), tt); distinct = (tt, tt) }

pub state-Queued : Queued reading state client (20 ∷ 21 ∷ []) []
unfolding side
state-Queued = record {
  client = refl;
  ring = reads-Ring;
  other = writes-Ring;
  apart = ((refl, (refl, (refl, tt))), tt);
}

pub state-Registered : Registered state client 1 (2 ∷ []) [] (20 ∷ 21 ∷ []) []
state-Registered = record {
  ring = server-Ring;
  apart =
      ((refl, (refl, (refl, tt))), ((refl, (refl, (refl, tt))), ((refl, (refl, (refl, tt))), tt)));
  apart_other = ((refl, (refl, (refl, tt))), tt);
}

pub idle-Queued : Queued reading idle client [] []
unfolding side
idle-Queued = record {
  client = refl;
  ring = record { path = ((refl, refl), tt); distinct = (tt, tt) };
  other = record { path = ((refl, refl), tt); distinct = (tt, tt) };
  apart = ((refl, tt), tt);
}

pub idle-Registered : Registered idle client 1 (2 ∷ []) [] [] []
idle-Registered = record {
  ring = record {
    path = ((refl, refl), ((refl, refl), ((refl, refl), tt)));
    distinct = ((refl, (refl, tt)), ((refl, tt), (tt, tt)));
  };
  apart = ((refl, (refl, (refl, tt))), tt);
  apart_other = ((refl, (refl, (refl, tt))), tt);
}

pub fresh : IsFresh reading client (20 ∷ 21 ∷ []) [] 30
unfolding side
fresh = record { outside_mine = (refl, (refl, (refl, tt))); outside_others = (refl, tt) }

pub writing-Queued : Queued writing idle client [] []
unfolding side
writing-Queued = record {
  client = refl;
  ring = record { path = ((refl, refl), tt); distinct = (tt, tt) };
  other = record { path = ((refl, refl), tt); distinct = (tt, tt) };
  apart = ((refl, tt), tt);
}

pub writing-IsFresh : IsFresh writing client [] [] 30
unfolding side
writing-IsFresh = record { outside_mine = (refl, tt); outside_others = (refl, tt) }

abbrev pub passive : Handlers
passive c s = done s

pub ready : AllReady state.tasks (job ∷ jobs)
ready = (
  record { stored = refl; named = refl; enough = refl },
  (record { stored = refl; named = refl; enough = refl }, tt),
)

pub no_task : (side reading client).curr_task ≡ none
unfolding side
no_task = refl
