-- ===== src/Pool/MySql.antt =====
-- backend/common/mysql_pool.hpp: the pool of MySqlPool.
use paid_server.Base.{ℕ, Text, text, Bool, ◌++◌, if◌then◌else◌, ◌&&◌, not}
use paid_server.Database.Monad.{Result, ok, throws, continue}
use paid_server.Settings.Backend.{MySqlConfig}
use paid_server.Pool.{ConnectionPool, open_one, close, take_front, close_idle}
use paid_server.Pool

-- How mysql_init and mysql_real_connect end: no handle, an error, or a connection.
pub data Connect : Type 0 where
  no_handle connected : Connect
  failed : Text → Connect

pub record Answers : Type 0 where
  pub connect : Connect
  -- Whether mysql_ping answers 0.
  pub alive : Bool

abbrev pub connect_with : Connect → ConnectionPool → Result ℕ × ConnectionPool
connect_with no_handle p = (throws (text "mysql_init 执行失败"), p)
connect_with (failed e) p =
    (throws (text "mysql_real_connect 执行失败: " ++ e), close p.opened (open_one p))
connect_with connected p = (ok p.opened, open_one p)

unfoldable pub create_connection : Answers → ConnectionPool → Result ℕ × ConnectionPool
create_connection a = connect_with a.connect

unfoldable pub check : Answers → ℕ → ConnectionPool → Result ℕ × ConnectionPool
check a conn p = if a.alive then (ok conn, p) else create_connection a (close conn p)

unfoldable pub init :
    MySqlConfig → (ℕ → Answers) → ConnectionPool → Result (Unit {0}) × ConnectionPool
init cfg = Pool.init create_connection cfg.pool_size

abbrev pub uninitialized : Text
uninitialized = text "mysql 连接池尚未初始化"

abbrev pub timed_out : Text
timed_out = text "获取 mysql 连接超时"

unfoldable pub acquire : Answers → ConnectionPool → Result ℕ × ConnectionPool
acquire a p = continue (take_front uninitialized timed_out p) (check a)

abbrev pub is_unused : ConnectionPool → Bool
is_unused p = not p.initialized && Pool.is_empty p.connections

unfoldable pub shutdown : ConnectionPool → ConnectionPool
shutdown p = if is_unused p then p else close_idle p
