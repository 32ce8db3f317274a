-- ===== src/Server/WebSockets.antt =====
-- gateway/main.cpp: the count of WebSocket connections. The thread of a connection counts it, after
-- the loop of runWebSocketServer has tested the count.
use mathlib.Core.Path.{subst}
use paid_server.Base.{ℕ, zero, suc, ◌+◌, ◌-◌, ◌<◌, ◌≡◌, ltb, if◌then◌else◌, arith}

pub record WsConnections : Type 0 where
  -- g_ws_active_connections.
  pub active : ℕ
  -- Threads that have not counted their connection, and those that have.
  pub spawned : ℕ
  pub serving : ℕ

unfoldable pub start : WsConnections
start = record { active = 0; spawned = 0; serving = 0 }

-- A connection is accepted.
unfoldable pub accept : ℕ → WsConnections → WsConnections
accept max s = if ltb s.active max then record s { spawned = s.spawned + 1 } else s

-- The ConnectionGuard of a thread: its constructor and its destructor.
unfoldable pub enter : WsConnections → WsConnections
enter s = record { active = s.active + 1; spawned = s.spawned - 1; serving = s.serving + 1 }

unfoldable pub leave : WsConnections → WsConnections
leave s = record s { active = s.active - 1; serving = s.serving - 1 }

pub data Reach (max : ℕ) : WsConnections → Type 0 where
  begin : Reach max start
  accept_step : {s : WsConnections} → Reach max s → Reach max (accept max s)
  enter_step : {s : WsConnections} → 0 < s.spawned → Reach max s → Reach max (enter s)
  leave_step : {s : WsConnections} → 0 < s.serving → Reach max s → Reach max (leave s)

abbrev of : ℕ → ℕ → WsConnections
of spawned serving = record { active = serving; spawned = spawned; serving = serving }

accept-of : (max n : ℕ) → 0 < max → accept max (of n 0) ≡ of (suc n) 0
unfolding accept
accept-of max n h = ground arith

enter-of : (n m : ℕ) → enter (of (suc n) m) ≡ of n (suc m)
unfolding enter
enter-of n m = ground arith

spawn_all : (max n : ℕ) → 0 < max → Reach max (of n 0)
unfolding start
spawn_all max zero h = begin
spawn_all max (suc n) h =
    subst (λ s. Reach max s) (accept-of max n h) (accept_step (spawn_all max n h))

enter_all : (max n m : ℕ) → Reach max (of n m) → Reach max (of 0 (n + m))
enter_all max zero m r = subst (λ k. Reach max (of 0 k)) (omega arith) r
enter_all max (suc n) m r =
    subst (λ k. Reach max (of 0 k)) (omega arith)
      (enter_all max n (suc m)
        (subst (λ s. Reach max s) (enter-of n m) (enter_step (omega arith) r)))

-- With a bound of one or more, any number of WebSocket connections can be served at once: when they
-- are all accepted before their threads run.
pub ws_unbounded : (max n : ℕ) → 0 < max → Reach max (of 0 n)
ws_unbounded max n h =
    subst (λ k. Reach max (of 0 k)) (omega arith) (enter_all max n 0 (spawn_all max n h))
