-- ===== src/Gateway/Connection.antt =====
-- gateway/main.cpp: handleWebSocketClient, which serves one WebSocket connection in its own thread,
-- and the count of these connections.
pub mod Ends
mod Tests
use paid_server.Base.{
  ℕ, suc, ◌+◌, ◌-◌, ◌*◌, Text, text, empty, Bool, true, false, List, [], ◌∷◌, ◌++◌, Option, none,
  some, is_some, ltb, ◌||◌, if◌then◌else◌, length,
}
use paid_server.Http.{cut_end}
use paid_server.Gateway.Frame.{text_frame}
use paid_server.Gateway.Registry.{WsRegistry, bind, unbind}
use paid_server.Gateway.Handshake.{perform_handshake}

-- The state that the threads share.
pub record WsServer : Type 0 where
  pub registry : WsRegistry
  -- g_ws_active_connections.
  pub active : ℕ
  -- The frames that handleWebSocketClient gave to ::write, the latest first.
  pub frames : List (ℕ × Text)

-- The constructor and the destructor of the ConnectionGuard.
unfoldable pub enter : WsServer → WsServer
enter s = record s { active = s.active + 1 }

unfoldable pub leave : WsServer → WsServer
leave s = record s { active = s.active - 1 }

-- ::close
unfoldable pub close : ℕ → WsServer → WsServer
close client_fd s = record s {
  registry = record s.registry { closed = client_fd ∷ s.registry.closed };
}

abbrev max_upgrade : ℕ
max_upgrade = 64 * 1024

abbrev pub go_on :
    Bool → Bool → Text → List Text → Option (Text × List Text) → Option (Text × List Text)
go_on true stop raw cs later = some (raw, cs)
go_on false true raw cs later = none
go_on false false raw cs later = later

-- The loop that reads the request: all that was read, and the reads that remain. None where the
-- connection ends first, or where there is too much.
unfoldable pub read_upgrade : Text → List Text → Option (Text × List Text)
read_upgrade raw [] = go_on (is_some (cut_end raw)) true raw [] none
read_upgrade raw (c ∷ cs) =
    go_on (is_some (cut_end raw)) (empty c || ltb max_upgrade (length (raw ++ c))) raw (c ∷ cs)
      (read_upgrade (raw ++ c) cs)

abbrev pub unless_ended : Text → List Text → List Text → List Text
unless_ended [] cs later = cs
unless_ended (x ∷ c) cs later = later

-- The loop that waits for the end of the connection, with what g_running says in each round: the
-- reads that remain.
unfoldable pub wait_end : List Bool → List Text → List Text
wait_end [] cs = cs
wait_end (false ∷ running) cs = cs
wait_end (true ∷ running) [] = []
wait_end (true ∷ running) (c ∷ cs) = unless_ended c cs (wait_end running cs)

abbrev logged : ℕ → Option Text → WsServer → WsServer
logged client_fd none s = s
logged client_fd (some frame) s = record s { frames = (client_fd, frame) ∷ s.frames }

-- sendTextFrame, whose result is not looked at.
unfoldable pub send_bind_success : ℕ → WsServer → WsServer
send_bind_success client_fd s = logged client_fd (text_frame (text "{\"type\":\"BIND_SUCCESS\"}")) s

-- What comes before the loop that waits, once the handshake is done.
unfoldable pub bind_client : Text → ℕ → WsServer → WsServer
unfolding send_bind_success
bind_client session client_fd s =
    send_bind_success client_fd (record s { registry = bind session client_fd s.registry })

-- What comes behind that loop.
unfoldable pub end_client : ℕ → WsServer → WsServer
unfolding close leave
end_client client_fd s =
    leave (close client_fd (record s { registry = unbind client_fd s.registry }))

abbrev pub with_reads : List Text → Option Text → Option (Text × List Text)
with_reads cs none = none
with_reads cs (some session) = some (session, cs)

-- The shared state when the thread is done, and the reads that remain.
abbrev pub serve_client :
    ℕ
    → List Bool
    → (WsServer → WsServer)
    → Option (Text × List Text)
    → WsServer
    → WsServer × List Text
serve_client client_fd running meanwhile none s = (leave (close client_fd s), [])
serve_client client_fd running meanwhile (some (session, cs)) s =
    (end_client client_fd (meanwhile (bind_client session client_fd s)), wait_end running cs)

module _ (sha1 : Text → Text) (write : ℕ → Text → Bool) where
  abbrev pub shake_hands : ℕ → Option (Text × List Text) → Option (Text × List Text)
  shake_hands client_fd none = none
  shake_hands client_fd (some (raw, cs)) =
      with_reads cs (perform_handshake sha1 write client_fd raw)

  -- The payment session of the handshake and the reads that remain, or none where the connection is
  -- given up.
  unfoldable pub open_session : ℕ → List Text → Option (Text × List Text)
  unfolding read_upgrade
  open_session client_fd reads = shake_hands client_fd (read_upgrade [] reads)

  -- The connection gives the reads; running is what g_running says in each round. What the other
  -- threads do to the shared state is before while this one reads the request, and meanwhile while it
  -- waits for the end of the connection.
  unfoldable pub handle_web_socket_client :
      ℕ
      → List Text
      → List Bool
      → (WsServer → WsServer)
      → (WsServer → WsServer)
      → WsServer
      → WsServer × List Text
  unfolding enter bind_client end_client wait_end open_session
  handle_web_socket_client client_fd reads running before meanwhile s =
      serve_client client_fd running meanwhile (open_session client_fd reads) (before (enter s))
