-- ===== src/Server/Listen.antt =====
-- gateway/common/http_server.hpp: Server::run, which accepts the connections of the gateway and
-- hands them to its workers, and submit of gateway/common/thread_pool.hpp.
pub mod Served
pub mod Opened
mod Tests
use paid_server.Base.{
  ℕ, ◌+◌, ◌-◌, Text, text, Bool, true, false, not, List, [], ◌∷◌, ◌++◌, Option, none, some, leb,
  if◌then◌else◌,
}
use paid_server.Database.Monad.{Result, ok, throws, continue}
use paid_server.Interfaces.{ℤ, pos, negsuc}
use paid_server.Settings.Numbers.{is_positive}
use paid_server.Server.{WorkerPool}

pub record Options : Type 0 where
  pub port : ℕ
  pub listen_backlog : ℤ
  pub worker_threads : ℤ
  pub max_concurrent_connections : ℤ
  pub read_timeout_seconds : ℤ

-- The task of a connection: the descriptor, and the address of the client.
pub record Task : Type 0 where
  pub client_fd : ℕ
  pub peer_ip : Text

-- What the server and the pool of workers keep, and the calls of the system that they made.
pub record Listener : Type 0 where
  -- active_connections_.
  pub active : ℕ
  pub pool : WorkerPool Task
  -- The descriptors given to ::close, and the read timeouts that were set, the latest first.
  pub closed : List ℕ
  pub timeouts : List (ℕ × ℤ)

unfoldable pub close : ℕ → Listener → Listener
close fd l = record l { closed = fd ∷ l.closed }

unfoldable pub submit : Task → WorkerPool Task → Result (Unit {0}) × WorkerPool Task
submit task p =
    if not p.initialized
    then (throws (text "gateway_http::WorkerPool 未初始化"), p)
    else if p.stop
    then (ok tt, p)
    else (ok tt, record p { tasks = p.tasks ++ task ∷ [] })

unfoldable pub set_read_timeout : Options → ℕ → Listener → Listener
set_read_timeout options client_fd l =
    if is_positive options.read_timeout_seconds
    then record l { timeouts = (client_fd, options.read_timeout_seconds) ∷ l.timeouts }
    else l

unfoldable pub release_connection_slot : Listener → Listener
release_connection_slot l = record l { active = l.active - 1 }

abbrev pub within : ℤ → ℕ → Bool
within (pos max) current = leb current max
within (negsuc n) current = false

unfoldable pub try_acquire_connection_slot : Options → Listener → Bool × Listener
unfolding release_connection_slot
try_acquire_connection_slot options l =
    if within options.max_concurrent_connections (l.active + 1)
    then (true, record l { active = l.active + 1 })
    else (false, release_connection_slot (record l { active = l.active + 1 }))

abbrev pub with_pool : Listener → Result (Unit {0}) × WorkerPool Task → Result (Unit {0}) × Listener
with_pool l (r, p) = (r, record l { pool = p })

abbrev pub hand_over : Options → ℕ → Text → Bool × Listener → Result (Unit {0}) × Listener
hand_over options client_fd peer_ip (false, l) = (ok tt, close client_fd l)
hand_over options client_fd peer_ip (true, l) =
    with_pool (set_read_timeout options client_fd l)
      (submit (record { client_fd = client_fd; peer_ip = peer_ip }) l.pool)

-- What the loop does with a connection that ::accept gave.
unfoldable pub take_connection : Options → ℕ → Text → Listener → Result (Unit {0}) × Listener
unfolding close set_read_timeout submit
take_connection options client_fd peer_ip l =
    hand_over options client_fd peer_ip (try_acquire_connection_slot options l)

-- ::accept gives a connection, or an error: there is none, it was interrupted, or another.
pub data Accepted : Type 0 where
  client : ℕ → Text → Accepted
  would_block interrupted failed : Accepted

-- The inner loop, with what running says before each call.
unfoldable pub accept_all :
    Options → List (Bool × Accepted) → Listener → Result (Unit {0}) × Listener
unfolding take_connection
accept_all options [] l = (ok tt, l)
accept_all options ((false, a) ∷ calls) l = (ok tt, l)
accept_all options ((true, client fd ip) ∷ calls) l =
    continue (take_connection options fd ip l) (λ _ l'. accept_all options calls l')
accept_all options ((true, would_block) ∷ calls) l = (ok tt, l)
accept_all options ((true, interrupted) ∷ calls) l = accept_all options calls l
accept_all options ((true, failed) ∷ calls) l = (ok tt, l)

-- One event of epoll: of the socket that listens, with the calls of ::accept; or of another one.
pub data Event : Type 0 where
  listening : List (Bool × Accepted) → Event
  other : Event

unfoldable pub each_event : Options → List Event → Listener → Result (Unit {0}) × Listener
unfolding accept_all
each_event options [] l = (ok tt, l)
each_event options (listening calls ∷ es) l =
    continue (accept_all options calls l) (λ _ l'. each_event options es l')
each_event options (other ∷ es) l = each_event options es l

-- ::epoll_wait gives events, or an error: it was interrupted, or another.
pub data Waited : Type 0 where
  events : List Event → Waited
  interrupted failed : Waited

unfoldable pub serve : Options → List (Bool × Waited) → Listener → Result (Unit {0}) × Listener
unfolding each_event
serve options [] l = (ok tt, l)
serve options ((false, w) ∷ ws) l = (ok tt, l)
serve options ((true, events es) ∷ ws) l =
    continue (each_event options es l) (λ _ l'. serve options ws l')
serve options ((true, Waited.interrupted) ∷ ws) l = serve options ws l
serve options ((true, Waited.failed) ∷ ws) l = (ok tt, l)

-- What the system answers to the calls that open the server; error_text is that of errno.
pub record System : Type 0 where
  pub server_fd : Option ℕ
  pub bound : Bool
  pub listens : Bool
  pub epoll_fd : Option ℕ
  pub added : Bool
  pub error_text : Text

abbrev pub open_socket : System → Option ℕ → Listener → Result ℕ × Listener
open_socket system none l = (throws (text "创建 socket 失败"), l)
open_socket system (some fd) l =
    if not system.bound
    then (throws (text "bind 失败: " ++ system.error_text), close fd l)
    else if not system.listens
    then (throws (text "listen 失败"), close fd l)
    else (ok fd, l)

unfoldable pub create_listen_socket : System → Listener → Result ℕ × Listener
unfolding close
create_listen_socket system l = open_socket system system.server_fd l

abbrev pub closing : ℕ → ℕ → Result (Unit {0}) × Listener → Result (Unit {0}) × Listener
closing epoll_fd server_fd (throws e, l) = (throws e, l)
closing epoll_fd server_fd (ok u, l) = (ok tt, close server_fd (close epoll_fd l))

abbrev pub run_with :
    Options → System → List (Bool × Waited) → ℕ → Option ℕ → Listener → Result (Unit {0}) × Listener
run_with options system waits server_fd none l =
    (throws (text "epoll_create1 失败: " ++ system.error_text), close server_fd l)
run_with options system waits server_fd (some epoll_fd) l =
    if not system.added
    then (throws (text "epoll_ctl 失败: " ++ system.error_text), close server_fd (close epoll_fd l))
    else closing epoll_fd server_fd (serve options waits l)

unfoldable pub run :
    Options → System → List (Bool × Waited) → Listener → Result (Unit {0}) × Listener
unfolding create_listen_socket serve
run options system waits l =
    continue (create_listen_socket system l)
      (λ server_fd l'. run_with options system waits server_fd system.epoll_fd l')

-- The task that a worker runs: what the handler throws is logged.
module _ {W : Type 0} (handler : ℕ → Text → W → Result (Unit {0}) × W) where
  unfoldable pub run_task : Task → W × Listener → W × Listener
  unfolding close release_connection_slot
  run_task task (w, l) =
      ((handler task.client_fd task.peer_ip w).1, release_connection_slot (close task.client_fd l))
