-- ===== src/Pool/Guards.antt =====
-- backend/common/mysql_pool.hpp: ConnectionGuard, which owns a lent connection. The guard of
-- backend/common/redis_pool.hpp has the same text.
pub mod Owned
mod Tests
use paid_server.Base.{
  ℕ, zero, suc, ◌+◌, ◌<◌, ◌≤◌, ◌≡◌, refl, sym, ap, ◌∙◌, false, List, [], ◌∷◌, ◌++◌, Option, none,
  some, ◌==◌, if◌then◌else◌, arith, length, Option-cases, Bool-cases, inl, inr,
}
use paid_server.Pool.{ConnectionPool, remove, release, close, give_back}

-- The pool and the guards of a thread. A guard is its member conn_; pool_ is null where conn_ is.
pub record Guards : Type 0 where
  pub pool : ConnectionPool
  pub guards : List (Option ℕ)

abbrev pub conn_at : ℕ → List (Option ℕ) → Option ℕ
conn_at i [] = none
conn_at zero (g ∷ gs) = g
conn_at (suc i) (g ∷ gs) = conn_at i gs

abbrev pub with_conn : ℕ → Option ℕ → List (Option ℕ) → List (Option ℕ)
with_conn i c [] = []
with_conn zero c (g ∷ gs) = c ∷ gs
with_conn (suc i) c (g ∷ gs) = g ∷ with_conn i c gs

-- ConnectionGuard(pool, conn)
unfoldable pub construct : ℕ → Guards → Guards
construct conn s = record s { guards = s.guards ++ some conn ∷ [] }

abbrev pub released : Option ℕ → ConnectionPool → ConnectionPool
released none p = p
released (some conn) p = release conn p

unfoldable pub reset : ℕ → Guards → Guards
reset i s = record {
  pool = released (conn_at i s.guards) s.pool;
  guards = with_conn i none s.guards;
}

-- ConnectionGuard(ConnectionGuard&& other)
unfoldable pub move_construct : ℕ → Guards → Guards
move_construct other s = record s {
  guards = with_conn other none s.guards ++ conn_at other s.guards ∷ [];
}

abbrev pub take_over : ℕ → ℕ → Guards → Guards
take_over i other s = record s {
  guards = with_conn other none (with_conn i (conn_at other s.guards) s.guards);
}

-- operator=(ConnectionGuard&& other)
unfoldable pub move_assign : ℕ → ℕ → Guards → Guards
unfolding reset
move_assign i other s = if i == other then s else take_over i other (reset i s)

pub data Use : Type 0 where
  moves_in ends : ℕ → Use
  assigns : ℕ → ℕ → Use

-- What a thread does with its guards: move construction, destruction, move assignment.
unfoldable pub use_guard : Use → Guards → Guards
unfolding move_construct move_assign reset
use_guard (moves_in other) s = move_construct other s
use_guard (ends i) s = reset i s
use_guard (assigns i other) s = move_assign i other s

unfoldable pub use_guards : List Use → Guards → Guards
unfolding use_guard
use_guards [] s = s
use_guards (u ∷ us) s = use_guards us (use_guard u s)

-- The guards end with their scopes, the last one first.
unfoldable pub end_guards : ℕ → Guards → Guards
unfolding reset
end_guards zero s = s
end_guards (suc n) s = end_guards n (reset n s)
