-- ===== src/Pool/Tests.antt =====
-- The pools on runs of three methods.
use paid_server.Base.{◌≡◌, ◌⊎◌, refl, [], ◌∷◌, true, false, text, some, arith}
use paid_server.Database.Monad.{throws}
use paid_server.Interfaces.{pos}
use paid_server.Settings.Backend.{RedisConfig}
use paid_server.Pool.{
  ConnectionPool, start, init, take_front, fill, give_back, open_one, remove, close, lose,
}
use paid_server.Pool.Ledger.{IsLedger, count}
use paid_server.Pool.Outcomes.{class, mysql}
use paid_server.Pool.Steps.{Reach, begin, next, init_step, take_step, acquire}
use paid_server.Pool.Safety.{pool-IsLedger}
use paid_server.Pool.Capacity.{Acquired, IsDrained, pool_acquire-Acquired, drained_stays}
use paid_server.Pool.Losses.{shutdown_closes}
use paid_server.Pool.MySql
use paid_server.Pool.Redis

abbrev up : MySql.Answers
up = record { connect = MySql.connected; alive = true }

abbrev down : MySql.Answers
down = record { connect = MySql.failed (text "down"); alive = false }

-- A pool of two connections, one of them lent.
abbrev one_lent : ConnectionPool
one_lent = record {
  connections = 1 ∷ [];
  initialized = true;
  shutting_down = false;
  opened = 2;
  lent = 0 ∷ [];
  closed = [];
  lost = [];
}

one_lent-Reach : Reach (class mysql) one_lent
unfolding start init fill take_front give_back open_one remove MySql.create_connection
one_lent-Reach = next (next begin (init_step (pos 2) (λ n. up))) take_step

pool-IsLedger_example : IsLedger one_lent
pool-IsLedger_example = pool-IsLedger mysql one_lent-Reach

abbrev two_idle : ConnectionPool
two_idle = record one_lent { connections = 0 ∷ 1 ∷ []; lent = [] }

two_idle-Reach : Reach (class mysql) two_idle
unfolding start init fill take_front give_back open_one remove MySql.create_connection
two_idle-Reach = next begin (init_step (pos 2) (λ n. up))

shutdown_closes_example : count 1 (MySql.shutdown two_idle).closed ≡ 1
shutdown_closes_example = shutdown_closes mysql 1 refl two_idle-Reach refl (omega arith)

pool_acquire-Acquired_example : Acquired two_idle (acquire (class mysql) down two_idle)
pool_acquire-Acquired_example = pool_acquire-Acquired mysql down two_idle

-- The database does not answer: the connection is closed, and no other takes its place.
acquire-down : acquire (class mysql) down (record two_idle { connections = 0 ∷ [] }) ≡ (
  throws (text "mysql_real_connect 执行失败: down"),
  record two_idle { connections = []; opened = 3; closed = 2 ∷ 0 ∷ [] },
)
unfolding acquire take_front MySql.check MySql.create_connection close open_one remove text
acquire-down = refl

abbrev drained : ConnectionPool
drained = record two_idle { connections = []; opened = 3; closed = 2 ∷ 0 ∷ [] }

drained-IsDrained : IsDrained drained
unfolding IsDrained
drained-IsDrained = (refl, refl, refl, refl)

drained_stays_example :
    ((drained ≡ drained) ⊎ (drained ≡ MySql.shutdown drained))
    × ((a : MySql.Answers) → acquire (class mysql) a drained ≡ (throws MySql.timed_out, drained))
unfolding take_front
drained_stays_example = drained_stays mysql drained-IsDrained take_step

abbrev cfg : RedisConfig
cfg = record {
  host = text "redis";
  port = pos 6379;
  db = pos 0;
  username = [];
  password = [];
  connect_timeout_seconds = 3;
  command_timeout_seconds = 3;
  pool_size = pos 2;
}

-- A connection of Redis breaks.
abbrev broken : Redis.Answers
broken = record {
  connect = Redis.connected;
  timeout_set = true;
  auth = Redis.status_reply (some (text "OK"));
  select = Redis.status_reply (some (text "OK"));
  ping = Redis.no_reply;
  errstr = text "Server closed the connection";
}

acquire-broken : Redis.acquire cfg broken two_idle ≡ (
  throws (text "redis PING 执行失败: Server closed the connection"),
  record two_idle { connections = 1 ∷ []; lost = 0 ∷ [] },
)
unfolding Redis.acquire take_front Redis.check Redis.check_status_reply Redis.connection_error lose
    remove text
acquire-broken = refl
