-- ===== src/Pool/SessionStore.antt =====
-- gateway/common/session_store.hpp: SessionStore.
use paid_server.Base.{
  ℕ, Text, text, same, Bool, false, ◌++◌, [], ◌∷◌, Option, none, some, if◌then◌else◌,
}
use paid_server.Database.Monad.{Result, ok, throws, continue}
use paid_server.Settings.Gateway.{RedisConfig}
use paid_server.Pool.{ConnectionPool, open_one, close, take_front, close_idle, release}
use paid_server.Pool
use paid_server.Pool.Redis.{
  Reply, no_reply, nil_reply, status_reply, string_reply, Answers, Connect, no_context, connected,
  failed,
}

unfoldable pub connection_error : Text → Text
connection_error [] = text "未知错误"
connection_error (c ∷ errstr) = c ∷ errstr

unfoldable pub status_ok : Reply → Text → Bool
status_ok (status_reply (some str)) expected = same str expected
status_ok reply expected = false

module _ (a : Answers) where
  abbrev pub select_db : ℕ → ConnectionPool → Result ℕ × ConnectionPool
  select_db conn p =
      if status_ok a.select (text "OK")
      then (ok conn, p)
      else (throws (text "网关 Redis SELECT 失败"), close conn p)

  abbrev pub authenticate : ℕ → ConnectionPool → Result ℕ × ConnectionPool
  authenticate conn p =
      if status_ok a.auth (text "OK")
      then select_db conn p
      else (throws (text "网关 Redis AUTH 失败"), close conn p)

  abbrev pub set_timeout : ℕ → ConnectionPool → Result ℕ × ConnectionPool
  set_timeout conn p =
      if a.timeout_set
      then authenticate conn p
      else (throws (text "Redis 设置命令超时失败: " ++ connection_error a.errstr), close conn p)

  abbrev pub connect_with : Connect → ConnectionPool → Result ℕ × ConnectionPool
  connect_with no_context p = (throws (text "Redis 连接失败: 无法分配连接"), p)
  connect_with (failed e) p =
      (throws (text "Redis 连接失败: " ++ connection_error e), close p.opened (open_one p))
  connect_with connected p = set_timeout p.opened (open_one p)

  unfoldable pub create_connection : ConnectionPool → Result ℕ × ConnectionPool
  create_connection = connect_with a.connect

  -- ping(), and a new connection in place of one that does not answer.
  unfoldable pub check : ℕ → ConnectionPool → Result ℕ × ConnectionPool
  check conn p =
      if status_ok a.ping (text "PONG") then (ok conn, p) else create_connection (close conn p)

unfoldable pub init :
    RedisConfig → (ℕ → Answers) → ConnectionPool → Result (Unit {0}) × ConnectionPool
init cfg = Pool.init create_connection cfg.pool_size

abbrev pub uninitialized : Text
uninitialized = text "网关 Redis 连接池尚未初始化"

abbrev pub timed_out : Text
timed_out = text "获取网关 Redis 连接超时"

unfoldable pub acquire : Answers → ConnectionPool → Result ℕ × ConnectionPool
acquire a p = continue (take_front uninitialized timed_out p) (check a)

unfoldable pub shutdown : ConnectionPool → ConnectionPool
shutdown p = close_idle p

abbrev pub user_id_in : Reply → Text → Result (Option Text)
user_id_in no_reply errstr = throws (text "Redis GET 执行失败: " ++ connection_error errstr)
user_id_in nil_reply errstr = ok none
user_id_in (string_reply none) errstr = ok (some [])
user_id_in (string_reply (some str)) errstr = ok (some str)
user_id_in reply errstr = throws (text "Redis GET 返回类型异常")

-- userIdOf(): `get` is the reply to GET with the key. The guard gives the connection back.
unfoldable pub user_id_of :
    Answers → (Text → Reply) → Text → ConnectionPool → Result (Option Text) × ConnectionPool
user_id_of a get [] p = (ok none, p)
user_id_of a get (c ∷ session_id) p = continue (acquire a p) (λ conn q.
    (user_id_in (get (text "payment:session:" ++ c ∷ session_id)) a.errstr, release conn q))
