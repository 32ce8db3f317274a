-- ===== src/Server/Listen/Opened.antt =====
-- gateway/common/http_server.hpp: run() closes what it opened, on each of its paths, and leaves the
-- connections that it accepted to the workers.
use paid_server.Base.{
  ℕ, ◌≡◌, refl, sym, Bool, true, false, ◌&&◌, List, [], ◌∷◌, ◌++◌, Option, none, some, is_some,
  if◌then◌else◌, Bool-cases, Option-cases, ◌↔◌, arith, inl, inr,
}
use mathlib.Core.List.{append_assoc}
use mathlib.Core.Path.{subst}
use paid_server.Database.Monad.{Result, ok, throws, continue}
use paid_server.Server.Listen.{
  Options, Task, Listener, close, take_connection, Accepted, client, would_block, interrupted,
  failed, accept_all, Event, listening, other, each_event, Waited, events, serve, System,
  create_listen_socket, closing, run,
}
use paid_server.Server.Listen.Served.{IsServed, take_connection-IsServed}

-- The descriptors that ::accept gives, the latest first, until running is false or there is none.
abbrev pub given_by_calls : List (Bool × Accepted) → List ℕ
given_by_calls [] = []
given_by_calls ((false, a) ∷ calls) = []
given_by_calls ((true, client fd ip) ∷ calls) = given_by_calls calls ++ fd ∷ []
given_by_calls ((true, would_block) ∷ calls) = []
given_by_calls ((true, interrupted) ∷ calls) = given_by_calls calls
given_by_calls ((true, failed) ∷ calls) = []

abbrev pub given_by_events : List Event → List ℕ
given_by_events [] = []
given_by_events (listening calls ∷ es) = given_by_events es ++ given_by_calls calls
given_by_events (other ∷ es) = given_by_events es

abbrev pub given_by_waits : List (Bool × Waited) → List ℕ
given_by_waits [] = []
given_by_waits ((false, w) ∷ ws) = []
given_by_waits ((true, events es) ∷ ws) = given_by_waits ws ++ given_by_events es
given_by_waits ((true, Waited.interrupted) ∷ ws) = given_by_waits ws
given_by_waits ((true, Waited.failed) ∷ ws) = []

-- More connections were accepted, and nothing was thrown.
abbrev Continues : Options → List ℕ → List ℕ → List Task → Result (Unit {0}) × Listener → Type 0
Continues options more given serving r =
    (r.0 ≡ ok tt) × IsServed options (more ++ given) r.1 serving

module _ (options : Options) (serving : List Task) where
  continue-Continues :
      (given more later : List ℕ) (r : Result (Unit {0}) × Listener)
      (next : Listener → Result (Unit {0}) × Listener)
      → Continues options more given serving r
      → ((given' : List ℕ) (l : Listener)
          → IsServed options given' l serving
          → Continues options later given' serving (next l))
      → Continues options (later ++ more) given serving (continue r (λ _ l. next l))
  continue-Continues given more later (throws e, l) next (q, h) k = cc
  continue-Continues given more later (ok u, l) next (q, h) k =
      let (q', h') = k (more ++ given) l h in
      (
        q',
        subst (λ g. IsServed options g (next l).1 serving) (sym (append_assoc later more given)) h',
      )

  accept_all-Continues :
      (calls : List (Bool × Accepted)) (given : List ℕ) (l : Listener)
      → IsServed options given l serving
      → Continues options (given_by_calls calls) given serving (accept_all options calls l)
  unfolding accept_all
  accept_all-Continues [] given l h = (refl, h)
  accept_all-Continues ((false, a) ∷ calls) given l h = (refl, h)
  accept_all-Continues ((true, client fd ip) ∷ calls) given l h =
      let (q, h') = take_connection-IsServed options fd ip h in
      continue-Continues given (fd ∷ []) (given_by_calls calls) (take_connection options fd ip l)
        (accept_all options calls) (q, h') (accept_all-Continues calls)
  accept_all-Continues ((true, would_block) ∷ calls) given l h = (refl, h)
  accept_all-Continues ((true, interrupted) ∷ calls) given l h =
      accept_all-Continues calls given l h
  accept_all-Continues ((true, failed) ∷ calls) given l h = (refl, h)

  each_event-Continues :
      (es : List Event) (given : List ℕ) (l : Listener)
      → IsServed options given l serving
      → Continues options (given_by_events es) given serving (each_event options es l)
  unfolding each_event
  each_event-Continues [] given l h = (refl, h)
  each_event-Continues (listening calls ∷ es) given l h =
      continue-Continues given (given_by_calls calls) (given_by_events es)
        (accept_all options calls l) (each_event options es) (accept_all-Continues calls given l h)
        (each_event-Continues es)
  each_event-Continues (other ∷ es) given l h = each_event-Continues es given l h

  serve-Continues :
      (waits : List (Bool × Waited)) (given : List ℕ) (l : Listener)
      → IsServed options given l serving
      → Continues options (given_by_waits waits) given serving (serve options waits l)
  unfolding serve
  serve-Continues [] given l h = (refl, h)
  serve-Continues ((false, w) ∷ waits) given l h = (refl, h)
  serve-Continues ((true, events es) ∷ waits) given l h =
      continue-Continues given (given_by_events es) (given_by_waits waits) (each_event options es l)
        (serve options waits) (each_event-Continues es given l h) (serve-Continues waits)
  serve-Continues ((true, Waited.interrupted) ∷ waits) given l h = serve-Continues waits given l h
  serve-Continues ((true, Waited.failed) ∷ waits) given l h = (refl, h)

-- The descriptors that the calls of run() gave, the one that is closed last first.
abbrev opened_by : Option ℕ → Bool → Option ℕ → List ℕ
opened_by none listens epoll_fd = []
opened_by (some server_fd) false epoll_fd = server_fd ∷ []
opened_by (some server_fd) true none = server_fd ∷ []
opened_by (some server_fd) true (some epoll_fd) = server_fd ∷ epoll_fd ∷ []

abbrev pub opened : System → List ℕ
opened system = opened_by system.server_fd (system.bound && system.listens) system.epoll_fd

-- No call that opens the server failed.
abbrev pub all_opened : System → Bool
all_opened system =
    is_some system.server_fd
    && system.bound
    && system.listens
    && is_some system.epoll_fd
    && system.added

-- The descriptors that ::accept gave to run().
abbrev pub given_to : System → List (Bool × Waited) → List ℕ
given_to system waits = if all_opened system then given_by_waits waits else []

module _ (options : Options) (serving : List Task) where
  closing-Continues :
      (given more : List ℕ) (server_fd epoll_fd : ℕ) (r : Result (Unit {0}) × Listener)
      → Continues options more given serving r
      → (l : Listener) × IsServed options (more ++ given) l serving
        × ((closing epoll_fd server_fd r).1 ≡ record l { closed = server_fd ∷ epoll_fd ∷ l.closed })
        × (((closing epoll_fd server_fd r).0 ≡ ok tt) ↔ (true ≡ true))
  unfolding close
  closing-Continues given more server_fd epoll_fd (throws e, l) (q, h) = cc
  closing-Continues given more server_fd epoll_fd (ok u, l) (q, h) = (l, h, refl, ground arith)

-- How run() ends, from a state where the descriptors given were accepted.
abbrev IsRun :
    Options
    → System
    → List (Bool × Waited)
    → List ℕ
    → List Task
    → Result (Unit {0}) × Listener
    → Type 0
IsRun options system waits given serving r =
    (l : Listener) × IsServed options (given_to system waits ++ given) l serving
    × (r.1 ≡ record l { closed = opened system ++ l.closed })
    × ((r.0 ≡ ok tt) ↔ (all_opened system ≡ true))

module _ (options : Options) {given : List ℕ} {serving : List Task} where
  -- Where each descriptor that was accepted is queued, served or closed before run(): it returns
  -- exactly where every call that opens the server succeeds, and throws otherwise. In both cases it
  -- closes what it opened, and each descriptor that was accepted before or that ::accept gave to run(),
  -- while running was true and no call of it failed, is queued, served or closed, as often as it was
  -- accepted.
  pub run-IsServed :
      (system : System) (waits : List (Bool × Waited)) (l : Listener)
      → IsServed options given l serving
      → IsRun options system waits given serving (run options system waits l)
  unfolding run create_listen_socket close
  run-IsServed system waits l h = elim (Option-cases system.server_fd) [
    | inl s ↦ rw s (l, h, refl, ground arith)
    | inr (server_fd, s) ↦ elim (Bool-cases system.bound) [
      | inr b ↦ rw (s, b) (l, h, refl, ground arith)
      | inl b ↦ elim (Bool-cases system.listens) [
        | inr i ↦ rw (s, b, i) (l, h, refl, ground arith)
        | inl i ↦ elim (Option-cases system.epoll_fd) [
          | inl p ↦ rw (s, b, i, p) (l, h, refl, ground arith)
          | inr (epoll_fd, p) ↦ elim (Bool-cases system.added) [
            | inr a ↦ rw (s, b, i, p, a) (l, h, refl, ground arith)
            | inl a ↦
                rw (s, b, i, p, a)
                  (closing-Continues options serving given (given_by_waits waits) server_fd epoll_fd
                    (serve options waits l) (serve-Continues options serving waits given l h))
          ]
        ]
      ]
    ]
  ]
