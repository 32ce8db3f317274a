-- ===== src/Gateway/Registry.antt =====
-- gateway/common/ws_registry.hpp: class WsRegistry. Each method runs under the mutex.
pub mod Links
pub mod History
use paid_server.Base.{
  ℕ, Text, Bool, true, false, List, [], ◌∷◌, Option, none, some, ◌==◌, if◌then◌else◌, length,
}
use paid_server.Base.Map.{find, put, erase, nat_eq, text_eq}
use paid_server.Gateway.Frame.{send_text_frame}

pub record WsRegistry : Type 0 where
  pub session_to_fd : List (Text × ℕ)
  pub fd_to_session : List (ℕ × Text)
  -- The descriptors given to ::close, the latest first.
  pub closed : List ℕ

unfoldable pub start : WsRegistry
start = record { session_to_fd = []; fd_to_session = []; closed = [] }

-- The older connection of the session, if it is another one, is closed.
abbrev pub closing : Option ℕ → ℕ → List ℕ → List ℕ
closing none fd closed = closed
closing (some old) fd closed = if old == fd then closed else old ∷ closed

unfoldable pub bind : Text → ℕ → WsRegistry → WsRegistry
bind session fd r = record {
  session_to_fd = put session fd r.session_to_fd;
  fd_to_session = put fd session r.fd_to_session;
  closed = closing (find session r.session_to_fd) fd r.closed;
}

abbrev pub is_fd : Option ℕ → ℕ → Bool
is_fd none fd = false
is_fd (some f) fd = f == fd

abbrev pub release : Option Text → ℕ → WsRegistry → WsRegistry
release none fd r = r
release (some session) fd r = record r {
  fd_to_session = erase fd r.fd_to_session;
  session_to_fd =
      if is_fd (find session r.session_to_fd) fd
      then erase session r.session_to_fd
      else r.session_to_fd;
}

unfoldable pub unbind : ℕ → WsRegistry → WsRegistry
unbind fd r = release (find fd r.fd_to_session) fd r

-- `write fd bytes` says whether the system took all of the bytes.
module _ (write : ℕ → Text → Bool) where
  abbrev pub push_to : Option ℕ → Text → Bool
  push_to none message = false
  push_to (some fd) message = send_text_frame write fd message

  unfoldable pub push : Text → Text → WsRegistry → Bool
  push session message r = push_to (find session r.session_to_fd) message

unfoldable pub connection_count : WsRegistry → ℕ
connection_count r = length r.session_to_fd
