-- ===== src/Liby/Tests.antt =====
-- The theorems on the event library at a client with two tasks, in a server's list with another.
use old_tools.Common.{◌≡◌, ◌≢◌, refl, false, none, some, [], ◌∷◌, arith}
use old_tools.Common.Run.{done, fault, ◌>>=◌}
use old_tools.Liby.Links.{Memory, list_add_tail, list_del, list_poison1, list_poison2}
use old_tools.Liby.Links.Ring.{Ring, Frame}
use old_tools.Liby.Links.Ring.Update.{list_add_tail-Ring, list_del-Ring}
use old_tools.Liby.Loop.{get_entries, get_entries-Ring}
use old_tools.Liby.State.{reading, Client, side, State}
use old_tools.Liby.Tasks.Laws.{Queued}
use old_tools.Liby.Client.{liby_client_destroy, liby_client_update_state, message}
use old_tools.Liby.Client.Serve.{outcomes, calls}
use old_tools.Liby.Client.Message.{Settled, message-Served, liby_client_update_state-Settled}
use old_tools.Liby.Client.Lifetime.{
  Registered, liby_client_destroy_use_after_free, liby_client_destroy-Ring,
}
use old_tools.Liby.Init.{liby_client_init, add_client_to_server}
use old_tools.Liby.Init.Laws.{liby_client_init_unlinked, add_client_to_server-Registered}
use old_tools.Liby.Samples.{
  memory, client, task, state, idle, jobs, job, server-Ring, reads-Ring, state-Queued,
  state-Registered, idle-Queued, idle-Registered, passive, ready, no_task,
}

list_add_tail-Ring_example :
    (m' : Memory) × (list_add_tail 30 1 memory ≡ done m')
    × Ring m' 1 (2 ∷ 10 ∷ 30 ∷ [])
    × Frame memory m' (30 ∷ 1 ∷ 2 ∷ 10 ∷ [])
list_add_tail-Ring_example =
    list_add_tail-Ring memory 30 1 (2 ∷ 10 ∷ []) server-Ring (5, refl) (5, refl)
      (refl, (refl, (refl, tt)))

list_del-Ring_example :
    (m' : Memory) × (list_del 20 memory ≡ done m')
    × Ring m' 11 (21 ∷ [])
    × (m'.next 20 ≡ some list_poison1)
    × (m'.prev 20 ≡ some list_poison2)
    × Frame memory m' (11 ∷ 20 ∷ 21 ∷ [])
list_del-Ring_example = list_del-Ring memory 20 11 [] (21 ∷ []) reads-Ring

get_entries-Ring_example : get_entries 3 1 memory ≡ done (2, 2 ∷ 10 ∷ [])
get_entries-Ring_example = get_entries-Ring 3 1 memory (2 ∷ 10 ∷ []) server-Ring (omega arith)

message-Served_example :
    (s' : State) × (c' : Client) × (message passive 5 reading (outcomes (job ∷ jobs)) state
      ≡ done s')
    × (s'.calls ≡ calls (job ∷ jobs))
    × Settled reading s' c' [] []
    × ((side reading c').enabled ≡ false)
message-Served_example =
    message-Served passive (λ c s. refl) 5 reading job jobs state client [] state-Queued no_task
      refl ready

liby_client_update_state-Settled_example :
    (c' : Client) × (liby_client_update_state passive 5 state
      ≡ done (record state { client = some c' }))
    × Settled reading (record state { client = some c' }) c' (20 ∷ 21 ∷ []) []
    × ((side reading c').curr_task ≡ (side reading client).curr_task)
liby_client_update_state-Settled_example =
    liby_client_update_state-Settled passive 5 reading state client (20 ∷ 21 ∷ []) [] state-Queued
      refl

liby_client_destroy_use_after_free_example : liby_client_destroy passive 5 state ≢ done idle
liby_client_destroy_use_after_free_example =
    liby_client_destroy_use_after_free passive 5 state idle client 1 20 7 task (2 ∷ []) [] (21 ∷ [])
      [] state-Queued state-Registered refl refl refl refl

liby_client_destroy-Ring_example :
    (m : Memory) × (liby_client_destroy passive 5 idle
      ≡ done (record idle { memory = m; client = none }))
    × Ring m 1 (2 ∷ [])
liby_client_destroy-Ring_example =
    liby_client_destroy-Ring passive 5 idle client 1 (2 ∷ []) [] idle-Queued idle-Registered refl
      refl

liby_client_init_unlinked_example :
    (liby_client_init 40 41 42 idle >>= λ s'. liby_client_destroy passive 5 s') ≡ fault
liby_client_init_unlinked_example =
    liby_client_init_unlinked 40 41 42 idle ((refl, (refl, tt)), ((refl, tt), (tt, tt))) passive 5
      (refl, (refl, (refl, tt))) refl

add_client_to_server-Registered_example :
    (s' : State) × (c : Client) × ((liby_client_init 40 41 42 idle >>= add_client_to_server 1)
      ≡ done s')
    × (c.list ≡ 40)
    × Queued reading s' c [] []
    × Registered s' c 1 (2 ∷ 10 ∷ []) [] [] []
add_client_to_server-Registered_example =
    add_client_to_server-Registered 40 41 42 idle ((refl, (refl, tt)), ((refl, tt), (tt, tt))) 1
      (2 ∷ 10 ∷ []) idle-Registered.ring
      ((refl, (refl, (refl, tt))), ((refl, (refl, (refl, tt))), ((refl, (refl, (refl, tt))), tt)))
