-- ===== src/Server/Listen/Tests.antt =====
-- A server that takes two connections and has room for one.
use paid_server.Base.{ℕ, ◌≡◌, ◌↔◌, refl, Text, Bool, true, false, List, [], ◌∷◌, ◌++◌, some}
use paid_server.Database.Monad.{Result, ok}
use paid_server.Interfaces.{pos}
use paid_server.Settings.Numbers.{is_positive}
use paid_server.Server
use paid_server.Server.{init, worker_turn, worker_count_of}
use paid_server.Server.Listen.{
  Options, Task, Listener, Waited, events, listening, client, would_block, System, take_connection,
  try_acquire_connection_slot, set_read_timeout, submit, close, release_connection_slot, run,
}
use paid_server.Server.Listen.Served.{Reach, begin, take_step, start_step, IsServed, Reach-IsServed}
use paid_server.Server.Listen.Opened.{opened, all_opened, run-IsServed}

abbrev narrow : Options
narrow = record {
  port = 8080;
  listen_backlog = pos 16;
  worker_threads = pos 4;
  max_concurrent_connections = pos 1;
  read_timeout_seconds = pos 10;
}

abbrev silent : ℕ → Text → ℕ → Result (Unit {0}) × ℕ
silent fd ip w = (ok tt, w)

abbrev first_task : Task
first_task = record { client_fd = 7; peer_ip = [] }

-- The first connection is served, and the second one was closed.
abbrev busy : Listener
busy = record {
  active = 1;
  pool = record { worker_count = 4; initialized = true; stop = false; tasks = [] };
  closed = 8 ∷ [];
  timeouts = (7, pos 10) ∷ [];
}

busy-Reach : Reach narrow silent (8 ∷ 7 ∷ []) (0, busy) (first_task ∷ [])
unfolding Server.start init worker_turn worker_count_of take_connection try_acquire_connection_slot
    set_read_timeout submit close release_connection_slot is_positive
busy-Reach = start_step refl (take_step 8 [] (take_step 7 [] (begin (pos 4) 0)))

Reach-IsServed_example :
    IsServed narrow (8 ∷ 7 ∷ []) busy (first_task ∷ [])
    × ((fd : ℕ) (ip : Text) → (take_connection narrow fd ip busy).0 ≡ ok tt)
Reach-IsServed_example = Reach-IsServed busy-Reach

abbrev opened_system : System
opened_system = record {
  server_fd = some 3;
  bound = true;
  listens = true;
  epoll_fd = some 4;
  added = true;
  error_text = [];
}

abbrev one_wait : List (Bool × Waited)
one_wait =
    (true, events (listening ((true, client 9 []) ∷ (true, would_block) ∷ []) ∷ []))
    ∷ (false, events [])
    ∷ []

run-IsServed_example :
    (l : Listener) × IsServed narrow (9 ∷ 8 ∷ 7 ∷ []) l (first_task ∷ [])
    × ((run narrow opened_system one_wait busy).1
        ≡ record l { closed = opened opened_system ++ l.closed })
    × (((run narrow opened_system one_wait busy).0 ≡ ok tt) ↔ (all_opened opened_system ≡ true))
run-IsServed_example = run-IsServed narrow opened_system one_wait busy (Reach-IsServed busy-Reach).0
