-- ===== src/Pool/Steps.antt =====
-- The methods of a pool (backend/common/mysql_pool.hpp, backend/common/redis_pool.hpp,
-- gateway/common/session_store.hpp) as steps. acquire() is two steps, what it does under the mutex
-- and the test of the connection, so that other threads may run in between.
use paid_server.Base.{ℕ, ◌<◌}
use paid_server.Database.Monad.{Result, continue}
use paid_server.Interfaces.{ℤ}
use paid_server.Pool.{ConnectionPool, start, init, take_front, release}
use paid_server.Pool.Ledger.{count}
use paid_server.Pool.Outcomes.{PoolClass}

module _ (c : PoolClass) where
  pub data Step : ConnectionPool → ConnectionPool → Type 0 where
    init_step :
        {p : ConnectionPool} (pool_size : ℤ) (answers : ℕ → c.Answers)
        → Step p (init c.create pool_size answers p).1
    take_step : {p : ConnectionPool} → Step p (take_front c.uninitialized c.timed_out p).1
    check_step :
        {p : ConnectionPool} (a : c.Answers) (conn : ℕ)
        → 0 < count conn p.lent
        → Step p (c.check a conn p).1
    release_step : {p : ConnectionPool} (conn : ℕ) → 0 < count conn p.lent → Step p (release conn p)
    shutdown_step : {p : ConnectionPool} → Step p (c.shutdown p)

  pub data Reach : ConnectionPool → Type 0 where
    begin : Reach start
    next : {p q : ConnectionPool} → Reach p → Step p q → Reach q

  -- acquire(), when no other thread runs in between.
  unfoldable pub acquire : c.Answers → ConnectionPool → Result ℕ × ConnectionPool
  acquire a p = continue (take_front c.uninitialized c.timed_out p) (c.check a)
