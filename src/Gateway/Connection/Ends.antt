-- ===== src/Gateway/Connection/Ends.antt =====
-- gateway/main.cpp: how the thread of a WebSocket connection leaves the state that it shares.
use paid_server.Base.{
  ℕ, ◌-◌, ◌≤◌, ◌≡◌, ◌≢◌, ◌⊎◌, ◌↔◌, refl, ap, Text, text, Bool, true, List, [], ◌∷◌, Option, none,
  some, arith, ◌==◌, if◌then◌else◌, length, Option-cases, inl, inr,
}
use paid_server.Base.Map.{find, nat_eq}
use paid_server.Strings.{starts_with, cut, query_param}
use paid_server.Http.{request_words, query_of}
use paid_server.Gateway.Frame.{text_frame, read_frame}
use paid_server.Gateway.Registry.{WsRegistry, unbind, release}
use paid_server.Gateway.Registry.Links.{
  BoundTo, IsLinked, IsBound, bind-IsBound, unbind-BoundTo, unbind-names, unbind-IsLinked,
}
use paid_server.Gateway.Handshake.{
  check_handshake, cut_line, with_line, with_words, with_path, with_session, perform_handshake,
  answer_handshake,
}
use paid_server.Gateway.Connection.{
  WsServer, enter, leave, close, read_upgrade, send_bind_success, bind_client, end_client,
  with_reads, shake_hands, open_session, handle_web_socket_client,
}

-- The name of a payment session.
abbrev pub IsName : Text → Type 0
IsName session = (starts_with (text "PS") session ≡ true) × (3 ≤ length session)

with_session-IsName :
    (session headers : Text) {s k : Text} → with_session session headers ≡ some (s, k) → IsName s
with_session-IsName session headers e = ground arith

with_path-IsName :
    (p : Text × Option Text) (headers : Text) {s k : Text}
    → with_path p headers ≡ some (s, k)
    → IsName s
with_path-IsName (path, query) headers e =
    ground (
      arith,
      with_session-IsName (query_param (query_of query) (text "payment_session_id")) headers,
    )

with_words-IsName :
    (w : Text × Text) (headers : Text) {s k : Text} → with_words w headers ≡ some (s, k) → IsName s
with_words-IsName (method, target) headers e =
    ground (arith, with_path-IsName (cut b'?' target) headers)

with_line-IsName : (l : Option (Text × Text)) {s k : Text} → with_line l ≡ some (s, k) → IsName s
with_line-IsName none e = cc
with_line-IsName (some (line, rest)) e = with_words-IsName (request_words line) rest e

check_handshake-IsName : (raw : Text) {s k : Text} → check_handshake raw ≡ some (s, k) → IsName s
unfolding check_handshake
check_handshake-IsName raw e = with_line-IsName (cut_line raw) e

module _ (sha1 : Text → Text) (write : ℕ → Text → Bool) (fd : ℕ) where
  answer_handshake-IsName :
      (h : Option (Text × Text)) {s : Text}
      → ((s' k : Text) → h ≡ some (s', k) → IsName s')
      → answer_handshake sha1 write fd h ≡ some s
      → IsName s
  answer_handshake-IsName none f e = cc
  answer_handshake-IsName (some (s', k)) f e = ground (arith, f s' k refl)

  with_reads-IsName :
      (cs : List Text) (o : Option Text) {s : Text} {rest : List Text}
      → ((s' : Text) → o ≡ some s' → IsName s')
      → with_reads cs o ≡ some (s, rest)
      → IsName s
  with_reads-IsName cs none f e = cc
  with_reads-IsName cs (some s') f e = ground (arith, f s' refl)

  shake_hands-IsName :
      (r : Option (Text × List Text)) {s : Text} {rest : List Text}
      → shake_hands sha1 write fd r ≡ some (s, rest)
      → IsName s
  unfolding perform_handshake
  shake_hands-IsName none e = cc
  shake_hands-IsName (some (raw, cs)) e =
      with_reads-IsName cs (perform_handshake sha1 write fd raw)
        (λ s' q.
          answer_handshake-IsName (check_handshake raw) (λ s'' k r. check_handshake-IsName raw r) q)
        e

  open_session-IsName :
      (reads : List Text) {s : Text} {rest : List Text}
      → open_session sha1 write fd reads ≡ some (s, rest)
      → IsName s
  unfolding open_session
  open_session-IsName reads e = shake_hands-IsName (read_upgrade [] reads) e

-- The thread gave the connection up before it was bound.
pub record IsGivenUp (fd : ℕ) (r t : WsServer) : Type 0 where
  pub closed : t.registry.closed ≡ fd ∷ r.registry.closed
  pub sessions : t.registry.session_to_fd ≡ r.registry.session_to_fd
  pub descriptors : t.registry.fd_to_session ≡ r.registry.fd_to_session
  pub counted : t.active ≡ r.active - 1
  pub quiet : t.frames ≡ r.frames

-- The connection was bound to the session, and told so in one frame that a client can read.
pub record IsWelcomed (session : Text) (fd : ℕ) (r b : WsServer) : Type 0 where
  pub name : IsName session
  pub bound : IsBound session fd r.registry b.registry
  pub counted : b.active ≡ r.active
  pub frame : Text
  pub told : b.frames ≡ (fd, frame) ∷ r.frames
  pub readable : read_frame frame ≡ some (text "{\"type\":\"BIND_SUCCESS\"}", [])

-- The connection is closed and no longer counted, and no session is bound to it; each other binding
-- is what it was.
pub record IsEnded (fd : ℕ) (m t : WsServer) : Type 0 where
  pub closed : t.registry.closed ≡ fd ∷ m.registry.closed
  pub counted : t.active ≡ m.active - 1
  pub quiet : t.frames ≡ m.frames
  pub linked : IsLinked m.registry → IsLinked t.registry
  pub released :
      IsLinked m.registry
      → (session : Text) (f : ℕ)
      → BoundTo t.registry session f ↔ (BoundTo m.registry session f × (f ≢ fd))
  pub names :
      (f : ℕ)
      → find f t.registry.fd_to_session
        ≡ (if fd == f then none else find f m.registry.fd_to_session)

bind_client-IsWelcomed :
    (session : Text) (fd : ℕ) (r : WsServer)
    → IsName session
    → IsWelcomed session fd r (bind_client session fd r)
unfolding bind_client send_bind_success text_frame text
bind_client-IsWelcomed session fd r name = record {
  name = name;
  bound = bind-IsBound session fd r.registry;
  counted = refl;
  frame = 0x81 ∷ 23 ∷ text "{\"type\":\"BIND_SUCCESS\"}";
  told = refl;
  readable = refl;
}

release-closed : (o : Option Text) (fd : ℕ) (r : WsRegistry) → (release o fd r).closed ≡ r.closed
release-closed none fd r = refl
release-closed (some session) fd r = refl

unbind-closed : (fd : ℕ) (r : WsRegistry) → (unbind fd r).closed ≡ r.closed
unfolding unbind
unbind-closed fd r = release-closed (find fd r.fd_to_session) fd r

end_client-IsEnded : (fd : ℕ) (m : WsServer) → IsEnded fd m (end_client fd m)
unfolding end_client close leave
end_client-IsEnded fd m = record {
  closed = ap (λ cs. fd ∷ cs) (unbind-closed fd m.registry);
  counted = refl;
  quiet = refl;
  linked = unbind-IsLinked fd m.registry;
  released = λ linked s f. unbind-BoundTo fd m.registry linked s f;
  names = unbind-names fd m.registry;
}

leave-close-IsGivenUp : (fd : ℕ) (r : WsServer) → IsGivenUp fd r (leave (close fd r))
unfolding leave close
leave-close-IsGivenUp fd r = record {
  closed = refl;
  sessions = refl;
  descriptors = refl;
  counted = refl;
  quiet = refl;
}

-- Whatever the connection sends, and whatever the other threads do before the connection is bound
-- and while it is open, the thread that serves it either gives it up, with nothing bound, or binds
-- it to a session whose name starts with PS and has three bytes at least, closes the session's older
-- connection if there is another one, leaves every other binding as it was, and tells the page so.
-- In both cases it closes the connection once at its end and takes itself off the count. A connection
-- that was bound is unbound then, and every other binding is left as it is at that time, where the
-- two maps agree.
pub handle_web_socket_client-IsEnded :
    (sha1 : Text → Text) (write : ℕ → Text → Bool) (fd : ℕ) (reads : List Text)
    (running : List Bool) (before meanwhile : WsServer → WsServer) (s : WsServer)
    → (let r = before (enter s) in
        let t = (handle_web_socket_client sha1 write fd reads running before meanwhile s).0 in
        IsGivenUp fd r t
        ⊎ ((session : Text) × (b : WsServer) × IsWelcomed session fd r b
            × IsEnded fd (meanwhile b) t))
unfolding handle_web_socket_client
handle_web_socket_client-IsEnded sha1 write fd reads running before meanwhile s =
    elim (Option-cases (open_session sha1 write fd reads)) [
      | inl e ↦ rw e (inl (leave-close-IsGivenUp fd (before (enter s))))
      | inr ((session, cs), e) ↦ rw e (
          inr (
            session,
            bind_client session fd (before (enter s)),
            bind_client-IsWelcomed session fd (before (enter s))
                (open_session-IsName sha1 write fd reads e),
            end_client-IsEnded fd (meanwhile (bind_client session fd (before (enter s)))),
          ))
    ]
