-- ===== src/Pool.antt =====
-- The members that MySqlPool (backend/common/mysql_pool.hpp), RedisPool
-- (backend/common/redis_pool.hpp) and SessionStore (gateway/common/session_store.hpp) share, and
-- what they do with a connection. A connection is the number of its opening.
pub mod Ledger
pub mod Redis
pub mod MySql
pub mod SessionStore
pub mod Outcomes
pub mod Steps
pub mod Safety
pub mod Capacity
pub mod Losses
pub mod Guards
pub mod Commands
mod Tests
use paid_server.Base.{
  ℕ, zero, suc, Text, Bool, true, false, not, ◌||◌, List, [], ◌∷◌, ◌++◌, ◌==◌, if◌then◌else◌,
}
use paid_server.Database.Monad.{Result, ok, throws, ◌>>=◌, continue}
use paid_server.Interfaces.{ℤ, pos, negsuc}

pub record ConnectionPool : Type 0 where
  -- The queue, its front first.
  pub connections : List ℕ
  pub initialized : Bool
  pub shutting_down : Bool
  -- How many connections were opened.
  pub opened : ℕ
  -- In the hands of a running method, or of a ConnectionGuard.
  pub lent : List ℕ
  -- Given to mysql_close or redisFree.
  pub closed : List ℕ
  -- Open, with no pointer to them.
  pub lost : List ℕ

unfoldable pub start : ConnectionPool
start = record {
  connections = [];
  initialized = false;
  shutting_down = false;
  opened = 0;
  lent = [];
  closed = [];
  lost = [];
}

unfoldable pub remove : ℕ → List ℕ → List ℕ
remove n [] = []
remove n (m ∷ ms) = if m == n then ms else m ∷ remove n ms

-- A new connection, number `p.opened`, in the hands of the method that opens it.
unfoldable pub open_one : ConnectionPool → ConnectionPool
open_one p = record p { opened = suc p.opened; lent = p.opened ∷ p.lent }

unfoldable pub close : ℕ → ConnectionPool → ConnectionPool
close n p = record p { lent = remove n p.lent; closed = n ∷ p.closed }

-- An exception leaves the method that holds the only pointer.
unfoldable pub lose : ℕ → ConnectionPool → ConnectionPool
lose n p = record p { lent = remove n p.lent; lost = n ∷ p.lost }

unfoldable pub give_back : ℕ → ConnectionPool → ConnectionPool
give_back n p = record p { lent = remove n p.lent; connections = p.connections ++ n ∷ [] }

unfoldable pub close_idle : ConnectionPool → ConnectionPool
close_idle p = record p {
  connections = [];
  closed = p.connections ++ p.closed;
  shutting_down = true;
  initialized = false;
}

abbrev pub is_empty : List ℕ → Bool
is_empty [] = true
is_empty (n ∷ ns) = false

abbrev lend : Text → List ℕ → ConnectionPool → Result ℕ × ConnectionPool
lend timed_out [] p = (throws timed_out, p)
lend timed_out (n ∷ ns) p = (ok n, record p { connections = ns; lent = n ∷ p.lent })

-- The part of acquire() under the mutex, when the wait is over.
unfoldable pub take_front : Text → Text → ConnectionPool → Result ℕ × ConnectionPool
take_front uninitialized timed_out p =
    if not p.initialized
    then (throws uninitialized, p)
    else if p.shutting_down || is_empty p.connections
    then (throws timed_out, p)
    else lend timed_out p.connections p

unfoldable pub release : ℕ → ConnectionPool → ConnectionPool
release n p = if p.shutting_down then close n p else give_back n p

-- How often the loop of init() runs.
abbrev pub rounds : ℤ → ℕ
rounds (pos n) = n
rounds (negsuc n) = 0

module _ {Answers : Type 0} (create : Answers → ConnectionPool → Result ℕ × ConnectionPool) where
  -- The loop of init(): `n` more connections.
  unfoldable pub fill : ℕ → (ℕ → Answers) → ConnectionPool → Result (Unit {0}) × ConnectionPool
  fill zero answers p = (ok tt, p)
  fill (suc n) answers p = continue (create (answers n) p) (λ c q. fill n answers (give_back c q))

  unfoldable pub init : ℤ → (ℕ → Answers) → ConnectionPool → Result (Unit {0}) × ConnectionPool
  unfolding fill
  init pool_size answers p =
      if p.initialized
      then (ok tt, p)
      else continue (fill (rounds pool_size) answers (record p { shutting_down = false }))
          (λ _ q. (ok tt, record q { initialized = true }))
