-- ===== src/Gateway/Registry/Links.antt =====
-- The two maps of the registry of WebSocket connections agree.
use paid_server.Base.{
  ℕ, Text, Bool, false, ◌∷◌, Option, none, some, ◌==◌, if◌then◌else◌, ◌≡◌, ◌≢◌, ◌↔◌, refl, inl, inr,
  arith, same_iff, same_refl, Option-cases,
}
use paid_server.Base.Map.{find, put, find-put, find-erase, nat_eq, text_eq}
use paid_server.Gateway.Registry.{WsRegistry, start, bind, unbind, push, release}

abbrev pub BoundTo : WsRegistry → Text → ℕ → Type 0
BoundTo r session fd = find session r.session_to_fd ≡ some fd

-- Each bound session is the session of its descriptor.
abbrev pub IsLinked : WsRegistry → Type 0
IsLinked r =
    (session : Text) (fd : ℕ) → BoundTo r session fd → find fd r.fd_to_session ≡ some session

-- No other session is bound to the descriptor.
abbrev pub IsFresh : WsRegistry → Text → ℕ → Type 0
IsFresh r session fd = (other : Text) → BoundTo r other fd → other ≡ session

pub start-IsLinked : IsLinked start
unfolding start find
start-IsLinked session fd e = cc

-- bind keeps the two maps in agreement, where no other session is bound to the descriptor.
pub bind-IsLinked :
    (session : Text) (fd : ℕ) (r : WsRegistry)
    → IsLinked r
    → IsFresh r session fd
    → IsLinked (bind session fd r)
unfolding bind
bind-IsLinked session fd r linked fresh s f e = ground (
  arith,
  find-put session s fd r.session_to_fd,
  find-put fd f session r.fd_to_session,
  same_iff session s,
  linked s f,
  fresh s,
)

release-IsLinked :
    (fd : ℕ) (r : WsRegistry) (session : Text)
    → find fd r.fd_to_session ≡ some session
    → IsLinked r
    → IsLinked (release (some session) fd r)
release-IsLinked fd r session found linked s f e = ground (
  arith,
  find-erase session s r.session_to_fd,
  find-erase fd f r.fd_to_session,
  same_iff session s,
  linked s f,
)

-- unbind keeps the two maps in agreement.
pub unbind-IsLinked : (fd : ℕ) (r : WsRegistry) → IsLinked r → IsLinked (unbind fd r)
unfolding unbind
unbind-IsLinked fd r linked = elim (Option-cases (find fd r.fd_to_session)) [
  | inl e ↦ rw e linked
  | inr (session, e) ↦ rw e (release-IsLinked fd r session e linked)
]

-- What bind() does: the session and the descriptor are bound to each other, nothing else is touched,
-- and an older connection of the session is closed.
pub record IsBound (session : Text) (fd : ℕ) (r b : WsRegistry) : Type 0 where
  pub bound : BoundTo b session fd
  pub named : find fd b.fd_to_session ≡ some session
  pub others :
      (other : Text) → other ≢ session → find other b.session_to_fd ≡ find other r.session_to_fd
  pub other_names : (f : ℕ) → f ≢ fd → find f b.fd_to_session ≡ find f r.fd_to_session
  pub older_closed : (old : ℕ) → BoundTo r session old → old ≢ fd → b.closed ≡ old ∷ r.closed
  pub first_bound : find session r.session_to_fd ≡ none → b.closed ≡ r.closed
  pub bound_again : BoundTo r session fd → b.closed ≡ r.closed

pub bind-IsBound :
    (session : Text) (fd : ℕ) (r : WsRegistry) → IsBound session fd r (bind session fd r)
unfolding bind
bind-IsBound session fd r = record {
  bound = ground (arith, find-put session session fd r.session_to_fd, same_refl session);
  named = ground (arith, find-put fd fd session r.fd_to_session);
  others =
      λ other d. ground (arith, find-put session other fd r.session_to_fd, same_iff session other);
  other_names = λ f d. ground (arith, find-put fd f session r.fd_to_session);
  older_closed = λ old e d. ground arith;
  first_bound = λ e. ground arith;
  bound_again = λ e. ground arith;
}

module _ (fd : ℕ) (r : WsRegistry) (linked : IsLinked r) (s : Text) (f : ℕ) where
  release-BoundTo :
      (session : Text)
      → find fd r.fd_to_session ≡ some session
      → BoundTo (release (some session) fd r) s f ↔ (BoundTo r s f × (f ≢ fd))
  release-BoundTo session found = (
    (λ e. ground (arith, find-erase session s r.session_to_fd, same_iff session s, linked s f, e)),
    (λ (e, d).
        ground (arith, find-erase session s r.session_to_fd, same_iff session s, linked s f)),
  )

  -- Where the maps agree, unbinding a descriptor unbinds exactly what was bound to it.
  pub unbind-BoundTo : BoundTo (unbind fd r) s f ↔ (BoundTo r s f × (f ≢ fd))
  unfolding unbind
  unbind-BoundTo = elim (Option-cases (find fd r.fd_to_session)) [
    | inl e ↦ rw e ((λ b. (b, λ q. ground (arith, linked s f))), λ (b, _). b)
    | inr (session, e) ↦ rw e (release-BoundTo session e)
  ]

release-names :
    (fd : ℕ) (r : WsRegistry) (o : Option Text) (f : ℕ)
    → find fd r.fd_to_session ≡ o
    → find f (release o fd r).fd_to_session ≡ (if fd == f then none else find f r.fd_to_session)
release-names fd r none f e = ground arith
release-names fd r (some session) f e = ground (arith, find-erase fd f r.fd_to_session)

-- Unbinding a descriptor takes its session from it, and no other one.
pub unbind-names :
    (fd : ℕ) (r : WsRegistry) (f : ℕ)
    → find f (unbind fd r).fd_to_session ≡ (if fd == f then none else find f r.fd_to_session)
unfolding unbind
unbind-names fd r f = release-names fd r (find fd r.fd_to_session) f refl

-- bind() closes the descriptor a of the session's older connection while the thread that serves it
-- still runs. If the system gives a to a new connection, which binds another session, the unbind of
-- the old thread takes that session away: nothing is pushed to it any more.
pub unbind_reused :
    (write : ℕ → Text → Bool) (s t message : Text) (a b : ℕ) (r : WsRegistry)
    → BoundTo r s a
    → s ≢ t
    → a ≢ b
    → (let r₁ = bind s b r in
        let r₂ = bind t a r₁ in
        let r₃ = unbind a r₂ in
        (r₁.closed ≡ a ∷ r.closed) × BoundTo r₂ t a × (push write t message r₃ ≡ false))
unfolding bind unbind push
unbind_reused write s t message a b r bound d e = (
  ground arith,
  ground (arith, find-put t t a (put s b r.session_to_fd), same_refl t),
  ground (
    arith,
    find-put t t a (put s b r.session_to_fd),
    find-put a a t (put b s r.fd_to_session),
    find-erase t t (put t a (put s b r.session_to_fd)),
    same_refl t,
  ),
)
