-- ===== src/Gateway/Listen.antt =====
-- gateway/main.cpp: createListenSocket and runWebSocketServer, which accepts the WebSocket
-- connections and starts a thread for each.
use paid_server.Base.{
  ℕ, Text, text, Bool, true, false, not, List, [], ◌∷◌, ◌++◌, Option, none, some, leb,
  if◌then◌else◌,
}
use paid_server.Database.Monad.{Result, ok, throws}
use paid_server.Interfaces.{ℤ, pos, negsuc}

-- The threads that were started and the descriptors given to ::close, the latest first.
pub record WsListener : Type 0 where
  pub started : List ℕ
  pub closed : List ℕ

-- What the system answers to the calls that open the server; error_text is that of errno.
pub record Socket : Type 0 where
  pub server_fd : Option ℕ
  pub bound : Bool
  pub listens : Bool
  pub error_text : Text

-- Where bind or listen fails, the descriptor stays open.
abbrev open_socket : Socket → Option ℕ → Result ℕ
open_socket socket none = throws (text "创建 socket 失败")
open_socket socket (some fd) =
    if not socket.bound
    then throws (text "bind 失败: " ++ socket.error_text)
    else if not socket.listens
    then throws (text "listen 失败")
    else ok fd

unfoldable pub create_listen_socket : Socket → Result ℕ
create_listen_socket socket = open_socket socket socket.server_fd

-- ::accept gives a connection, with what g_ws_active_connections is then, or an error.
pub data Accepted : Type 0 where
  client : ℕ → ℕ → Accepted
  would_block interrupted failed : Accepted

-- g_ws_active_connections.load() >= max_connections
abbrev pub is_full : ℤ → ℕ → Bool
is_full (pos max) active = leb max active
is_full (negsuc n) active = true

unfoldable pub take_client : ℤ → ℕ → ℕ → WsListener → WsListener
take_client max_connections client_fd active l =
    if is_full max_connections active
    then record l { closed = client_fd ∷ l.closed }
    else record l { started = client_fd ∷ l.started }

-- The inner loop, with what g_running says before each call.
unfoldable pub accept_clients : ℤ → List (Bool × Accepted) → WsListener → WsListener
unfolding take_client
accept_clients max [] l = l
accept_clients max ((false, a) ∷ calls) l = l
accept_clients max ((true, client fd active) ∷ calls) l =
    accept_clients max calls (take_client max fd active l)
accept_clients max ((true, would_block) ∷ calls) l = l
accept_clients max ((true, interrupted) ∷ calls) l = accept_clients max calls l
accept_clients max ((true, failed) ∷ calls) l = l

-- ::poll finds connections or none, or an error: it was interrupted, or another.
pub data Polled : Type 0 where
  ready : List (Bool × Accepted) → Polled
  idle interrupted failed : Polled

unfoldable pub poll_clients : ℤ → List (Bool × Polled) → WsListener → WsListener
unfolding accept_clients
poll_clients max [] l = l
poll_clients max ((false, w) ∷ polls) l = l
poll_clients max ((true, ready calls) ∷ polls) l =
    poll_clients max polls (accept_clients max calls l)
poll_clients max ((true, idle) ∷ polls) l = poll_clients max polls l
poll_clients max ((true, Polled.interrupted) ∷ polls) l = poll_clients max polls l
poll_clients max ((true, Polled.failed) ∷ polls) l = l

abbrev close_server : ℕ → WsListener → WsListener
close_server server_fd l = record l { closed = server_fd ∷ l.closed }

abbrev serve_clients :
    ℤ → List (Bool × Polled) → Result ℕ → WsListener → Result (Unit {0}) × WsListener
serve_clients max polls (throws e) l = (throws e, l)
serve_clients max polls (ok server_fd) l =
    (ok tt, close_server server_fd (poll_clients max polls l))

unfoldable pub run_web_socket_server :
    Socket → ℤ → List (Bool × Polled) → WsListener → Result (Unit {0}) × WsListener
unfolding create_listen_socket poll_clients
run_web_socket_server socket max_connections polls l =
    serve_clients max_connections polls (create_listen_socket socket) l
