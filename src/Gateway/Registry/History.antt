-- ===== src/Gateway/Registry/History.antt =====
-- The registry of WebSocket connections against the history of its calls.
use paid_server.Base.{
  ℕ, Text, same, List, [], ◌∷◌, Option, none, some, ◌==◌, if◌then◌else◌, ◌≡◌, ◌∙◌, refl, arith,
  same_iff,
}
use paid_server.Base.Map.{find, find-put, find-erase, nat_eq, text_eq}
use paid_server.Gateway.Registry.{WsRegistry, start, bind, unbind, release, closing}
use paid_server.Gateway.Registry.Links.{
  IsLinked, start-IsLinked, bind-IsLinked, unbind-IsLinked, unbind-names,
}

-- What the threads do with the registry.
pub data RegistryUse : Type 0 where
  binds : Text → ℕ → RegistryUse
  unbinds : ℕ → RegistryUse

abbrev pub after_use : RegistryUse → WsRegistry → WsRegistry
after_use (binds session fd) r = bind session fd r
after_use (unbinds fd) r = unbind fd r

-- The registry after these calls, the latest first.
abbrev pub after_uses : List RegistryUse → WsRegistry
after_uses [] = start
after_uses (u ∷ us) = after_use u (after_uses us)

abbrev unless_at : ℕ → Option ℕ → Option ℕ
unless_at fd none = none
unless_at fd (some f) = if f == fd then none else some f

-- The connection of a session: the one that it was bound to last, unless that was unbound since.
abbrev pub connection_of : List RegistryUse → Text → Option ℕ
connection_of [] session = none
connection_of (binds s fd ∷ us) session =
    if same s session then some fd else connection_of us session
connection_of (unbinds fd ∷ us) session = unless_at fd (connection_of us session)

-- The session of a connection: the one that was bound to it last, unless it was unbound since.
abbrev pub name_of : List RegistryUse → ℕ → Option Text
name_of [] f = none
name_of (binds s fd ∷ us) f = if fd == f then some s else name_of us f
name_of (unbinds fd ∷ us) f = if fd == f then none else name_of us f

abbrev displaced : Option ℕ → ℕ → List ℕ → List ℕ
displaced none fd closed = closed
displaced (some old) fd closed = if old == fd then closed else old ∷ closed

-- The connections that another one of the same session displaced, the latest first.
abbrev pub displaced_by : List RegistryUse → List ℕ
displaced_by [] = []
displaced_by (binds s fd ∷ us) = displaced (connection_of us s) fd (displaced_by us)
displaced_by (unbinds fd ∷ us) = displaced_by us

-- No other session has the connection when it is bound.
abbrev pub AllFresh : List RegistryUse → Type 0
AllFresh [] = Unit
AllFresh (binds s fd ∷ us) =
    ((other : Text) → connection_of us other ≡ some fd → other ≡ s) × AllFresh us
AllFresh (unbinds fd ∷ us) = AllFresh us

-- The registry holds what the history says.
pub record IsRecorded (us : List RegistryUse) (r : WsRegistry) : Type 0 where
  pub sessions : (session : Text) → find session r.session_to_fd ≡ connection_of us session
  pub names : (fd : ℕ) → find fd r.fd_to_session ≡ name_of us fd
  pub linked : IsLinked r
  pub closed : r.closed ≡ displaced_by us

start-IsRecorded : IsRecorded [] start
unfolding start find
start-IsRecorded = record {
  sessions = λ session. refl;
  names = λ fd. refl;
  linked = start-IsLinked;
  closed = refl;
}

closing-displaced :
    (o : Option ℕ) (fd : ℕ) (closed : List ℕ) → closing o fd closed ≡ displaced o fd closed
closing-displaced none fd closed = refl
closing-displaced (some old) fd closed = refl

bind-IsRecorded :
    (s : Text) (fd : ℕ) (us : List RegistryUse) (r : WsRegistry)
    → ((other : Text) → connection_of us other ≡ some fd → other ≡ s)
    → IsRecorded us r
    → IsRecorded (binds s fd ∷ us) (bind s fd r)
unfolding bind
bind-IsRecorded s fd us r fresh h = record {
  sessions = λ session. ground (arith, find-put s session fd r.session_to_fd, h.sessions session);
  names = λ f. ground (arith, find-put fd f s r.fd_to_session, h.names f);
  linked =
      bind-IsLinked s fd r h.linked (λ other b. fresh other (ground (arith, h.sessions other)));
  closed =
      rw (h.sessions s, h.closed) (closing-displaced (connection_of us s) fd (displaced_by us));
}

-- Unbinding fd, where its session is known.
module _ (fd : ℕ) (us : List RegistryUse) (r : WsRegistry) (h : IsRecorded us r) where
  sessions_left :
      (name : Option Text) (session : Text) (o : Option ℕ)
      → find fd r.fd_to_session ≡ name
      → connection_of us session ≡ o
      → find session (release name fd r).session_to_fd ≡ unless_at fd o
  sessions_left none session none e q = ground (arith, h.sessions session)
  sessions_left none session (some f) e q = ground (arith, h.sessions session, h.linked session f)
  sessions_left (some s) session none e q =
      ground (arith, h.sessions session, find-erase s session r.session_to_fd)
  sessions_left (some s) session (some f) e q = ground (
    arith,
    h.sessions session,
    h.linked session f,
    find-erase s session r.session_to_fd,
    same_iff s session,
  )

  release-closed : (name : Option Text) → (release name fd r).closed ≡ r.closed
  release-closed none = refl
  release-closed (some s) = refl

  unbind-IsRecorded : IsRecorded (unbinds fd ∷ us) (unbind fd r)
  unfolding unbind
  unbind-IsRecorded = record {
    sessions = λ session.
        sessions_left (find fd r.fd_to_session) session (connection_of us session) refl refl;
    names = λ f. ground (arith, unbind-names fd r f, h.names f);
    linked = unbind-IsLinked fd r h.linked;
    closed = release-closed (find fd r.fd_to_session) ∙ h.closed;
  }

-- Through any calls of bind and unbind from the empty registry, where no other session has the
-- connection when one is bound: session_to_fd gives for each session the connection that it was bound
-- to last, unless that was unbound since; fd_to_session gives for each connection the session that was
-- bound to it last, unless it was unbound since; a session that is bound is the session of its
-- connection; and exactly the connections that another one of their session displaced were closed.
pub after_uses-IsRecorded : (us : List RegistryUse) → AllFresh us → IsRecorded us (after_uses us)
after_uses-IsRecorded [] fresh = start-IsRecorded
after_uses-IsRecorded (binds s fd ∷ us) (f, fresh) =
    bind-IsRecorded s fd us (after_uses us) f (after_uses-IsRecorded us fresh)
after_uses-IsRecorded (unbinds fd ∷ us) fresh =
    unbind-IsRecorded fd us (after_uses us) (after_uses-IsRecorded us fresh)
