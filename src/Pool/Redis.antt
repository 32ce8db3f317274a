-- ===== src/Pool/Redis.antt =====
-- backend/common/redis_pool.hpp: the pool of RedisPool, and what it makes of the replies of hiredis.
use paid_server.Base.{
  ℕ, Text, text, same, Bool, true, false, ◌++◌, [], ◌∷◌, Option, some, if◌then◌else◌, ◌&&◌, ◌||◌,
  not,
}
use paid_server.Database.Monad.{Result, ok, throws, continue}
use paid_server.Interfaces.{ℤ}
use paid_server.Settings.Backend.{RedisConfig}
use paid_server.Pool.{ConnectionPool, open_one, close, lose, take_front, close_idle}
use paid_server.Pool

-- redisReply: its type, with the member that the pool reads. The pointer to a string may be null.
pub data Reply : Type 0 where
  no_reply nil_reply other_reply : Reply
  status_reply string_reply : Option Text → Reply
  integer_reply : ℤ → Reply

-- How redisConnectWithTimeout ends: a null pointer, a context with an error, or a connection.
pub data Connect : Type 0 where
  no_context connected : Connect
  failed : Text → Connect

pub record Answers : Type 0 where
  pub connect : Connect
  -- Whether redisSetTimeout answers REDIS_OK.
  pub timeout_set : Bool
  pub auth : Reply
  pub select : Reply
  pub ping : Reply
  -- The member errstr of the connection.
  pub errstr : Text

unfoldable pub connection_error : Text → Text
connection_error [] = text "未知错误"
connection_error (c ∷ errstr) = c ∷ errstr

unfoldable pub check_status_reply : Reply → Text → Text → Result Bool
unfolding connection_error
check_status_reply no_reply errstr op =
    throws (text "redis " ++ op ++ text " 执行失败: " ++ connection_error errstr)
check_status_reply (status_reply (some str)) errstr op =
    ok (same str (text "OK") || same str (text "PONG"))
check_status_reply (string_reply (some str)) errstr op = ok (same str (text "PONG"))
check_status_reply reply errstr op = throws (text "redis " ++ op ++ text " 返回异常响应")

-- The reply to a command of createConnection(), by an exception or the answer of checkStatusReply.
abbrev pub on_status :
    Result Bool
    → Text
    → ℕ
    → (ConnectionPool → Result ℕ × ConnectionPool)
    → ConnectionPool
    → Result ℕ × ConnectionPool
on_status (throws e) message conn next p = (throws e, lose conn p)
on_status (ok false) message conn next p = (throws message, close conn p)
on_status (ok true) message conn next p = next p

abbrev pub is_empty_text : Text → Bool
is_empty_text [] = true
is_empty_text (c ∷ s) = false

module _ (cfg : RedisConfig) (a : Answers) where
  abbrev pub select_db : ℕ → ConnectionPool → Result ℕ × ConnectionPool
  select_db conn =
      on_status (check_status_reply a.select a.errstr (text "SELECT")) (text "redis SELECT 失败") conn
        (λ p. (ok conn, p))

  abbrev pub authenticate : ℕ → ConnectionPool → Result ℕ × ConnectionPool
  authenticate conn p =
      if is_empty_text cfg.password
      then select_db conn p
      else on_status (check_status_reply a.auth a.errstr (text "AUTH")) (text "redis AUTH 失败") conn
          (select_db conn) p

  abbrev pub set_timeout : ℕ → ConnectionPool → Result ℕ × ConnectionPool
  set_timeout conn p =
      if a.timeout_set
      then authenticate conn p
      else (throws (text "redis 设置命令超时失败: " ++ connection_error a.errstr), close conn p)

  abbrev pub connect_with : Connect → ConnectionPool → Result ℕ × ConnectionPool
  connect_with no_context p = (throws (text "redisConnectWithTimeout 执行失败: 无法分配连接"), p)
  connect_with (failed e) p =
      (throws (text "redis 连接失败: " ++ connection_error e), close p.opened (open_one p))
  connect_with connected p = set_timeout p.opened (open_one p)

  unfoldable pub create_connection : ConnectionPool → Result ℕ × ConnectionPool
  create_connection = connect_with a.connect

  abbrev pub on_ping : Result Bool → ℕ → ConnectionPool → Result ℕ × ConnectionPool
  on_ping (throws e) conn p = (throws e, lose conn p)
  on_ping (ok true) conn p = (ok conn, p)
  on_ping (ok false) conn p = create_connection (close conn p)

  -- ping(), and a new connection in place of one that does not answer.
  unfoldable pub check : ℕ → ConnectionPool → Result ℕ × ConnectionPool
  check = on_ping (check_status_reply a.ping a.errstr (text "PING"))

unfoldable pub init :
    RedisConfig → (ℕ → Answers) → ConnectionPool → Result (Unit {0}) × ConnectionPool
init cfg = Pool.init (create_connection cfg) cfg.pool_size

abbrev pub uninitialized : Text
uninitialized = text "redis 连接池尚未初始化"

abbrev pub timed_out : Text
timed_out = text "获取 redis 连接超时"

unfoldable pub acquire : RedisConfig → Answers → ConnectionPool → Result ℕ × ConnectionPool
acquire cfg a p = continue (take_front uninitialized timed_out p) (check cfg a)

abbrev pub is_unused : ConnectionPool → Bool
is_unused p = not p.initialized && Pool.is_empty p.connections

unfoldable pub shutdown : ConnectionPool → ConnectionPool
shutdown p = if is_unused p then p else close_idle p
