-- ===== src/Pool/Outcomes.antt =====
-- How the methods of the three pools that open or test a connection end: one list of outcomes, and
-- the interface of a pool with them.
use paid_server.Base.{
  ℕ, Text, Bool, true, false, ◌≡◌, refl, ◌⊎◌, inl, inr, List, [], ◌∷◌, not, ◌&&◌, text, Bool-cases,
  if◌then◌else◌, arith,
}
use paid_server.Database.Monad.{Result, ok, throws}
use paid_server.Pool.{ConnectionPool, open_one, close, lose, close_idle}
use paid_server.Pool
use paid_server.Settings.Backend.{RedisConfig}
use paid_server.Pool.MySql
use paid_server.Pool.Redis
use paid_server.Pool.SessionStore

-- Ends of createConnection(). Only a pool with `leaks` loses the connection it has opened.
pub data Created (leaks : Bool) (p : ConnectionPool) : Result ℕ × ConnectionPool → Type 0 where
  made : Created leaks p (ok p.opened, open_one p)
  refused : {e : Text} → Created leaks p (throws e, p)
  dropped : {e : Text} → Created leaks p (throws e, close p.opened (open_one p))
  leaked : {e : Text} → leaks ≡ true → Created leaks p (throws e, lose p.opened (open_one p))

-- Ends of the test of a connection that acquire() has taken.
pub data Checked (leaks : Bool) (n : ℕ) (p : ConnectionPool)
    : Result ℕ × ConnectionPool → Type 0 where
  alive : Checked leaks n p (ok n, p)
  forgotten : {e : Text} → leaks ≡ true → Checked leaks n p (throws e, lose n p)
  renewed : {r : Result ℕ × ConnectionPool} → Created leaks (close n p) r → Checked leaks n p r

pub record PoolClass : Type 1 where
  pub Answers : Type 0
  pub leaks : Bool
  pub uninitialized : Text
  pub timed_out : Text
  pub create : Answers → ConnectionPool → Result ℕ × ConnectionPool
  pub check : Answers → ℕ → ConnectionPool → Result ℕ × ConnectionPool
  pub shutdown : ConnectionPool → ConnectionPool
  pub create-Created : (a : Answers) (p : ConnectionPool) → Created leaks p (create a p)
  pub check-Checked : (a : Answers) (n : ℕ) (p : ConnectionPool) → Checked leaks n p (check a n p)
  pub shutdown_cases :
      (p : ConnectionPool) → (shutdown p ≡ close_idle p) ⊎ ((shutdown p ≡ p) × (p.connections ≡ []))

pub mysql-Created :
    (a : MySql.Answers) (p : ConnectionPool) → Created false p (MySql.create_connection a p)
unfolding MySql.create_connection
mysql-Created a p = with_connect a.connect
  where
    with_connect : (c : MySql.Connect) → Created false p (MySql.connect_with c p)
    with_connect MySql.no_handle = refused
    with_connect (MySql.failed e) = dropped
    with_connect MySql.connected = made

pub mysql-Checked :
    (a : MySql.Answers) (n : ℕ) (p : ConnectionPool) → Checked false n p (MySql.check a n p)
unfolding MySql.check MySql.create_connection
mysql-Checked a n p = elim (Bool-cases a.alive) [
  | inl e ↦ rw e alive
  | inr e ↦ rw e (renewed (mysql-Created a (close n p)))
]

-- A command of createConnection() on the connection it has just opened.
on_status-Created :
    (r : Result Bool) (message : Text) (p : ConnectionPool)
    (next : ConnectionPool → Result ℕ × ConnectionPool)
    → Created true p (next (open_one p))
    → Created true p (Redis.on_status r message p.opened next (open_one p))
on_status-Created (throws e) message p next h = leaked refl
on_status-Created (ok false) message p next h = dropped
on_status-Created (ok true) message p next h = h

module _ (cfg : RedisConfig) (a : Redis.Answers) (p : ConnectionPool) where
  selected : Created true p (Redis.select_db cfg a p.opened (open_one p))
  selected = on_status-Created _ _ p (λ q. (ok p.opened, q)) made

  with_auth : Created true p (Redis.authenticate cfg a p.opened (open_one p))
  with_auth = elim (Bool-cases (Redis.is_empty_text cfg.password)) [
    | inl e ↦ rw e selected
    | inr e ↦ rw e (on_status-Created _ _ p (Redis.select_db cfg a p.opened) selected)
  ]

  with_timeout : Created true p (Redis.set_timeout cfg a p.opened (open_one p))
  with_timeout = elim (Bool-cases a.timeout_set) [ inl e ↦ rw e with_auth | inr e ↦ rw e dropped ]

  pub redis-Created : Created true p (Redis.create_connection cfg a p)
  unfolding Redis.create_connection
  redis-Created = with_connect a.connect
    where
      with_connect : (c : Redis.Connect) → Created true p (Redis.connect_with cfg a c p)
      with_connect Redis.no_context = refused
      with_connect (Redis.failed e) = dropped
      with_connect Redis.connected = with_timeout

pub redis-Checked :
    (cfg : RedisConfig) (a : Redis.Answers) (n : ℕ) (p : ConnectionPool)
    → Checked true n p (Redis.check cfg a n p)
unfolding Redis.check
redis-Checked cfg a n p = on_ping (Redis.check_status_reply a.ping a.errstr (text "PING"))
  where
    on_ping : (r : Result Bool) → Checked true n p (Redis.on_ping cfg a r n p)
    on_ping (throws e) = forgotten refl
    on_ping (ok false) = renewed (redis-Created cfg a (close n p))
    on_ping (ok true) = alive

pub store-Created :
    (a : Redis.Answers) (p : ConnectionPool) → Created false p (SessionStore.create_connection a p)
unfolding SessionStore.create_connection
store-Created a p = with_connect a.connect
  where
    with_connect : (c : Redis.Connect) → Created false p (SessionStore.connect_with a c p)
    with_connect Redis.no_context = refused
    with_connect (Redis.failed e) = dropped
    with_connect Redis.connected = elim (Bool-cases a.timeout_set) [
      | inr e ↦ rw e dropped
      | inl e ↦ rw e (elim (Bool-cases (SessionStore.status_ok a.auth (text "OK"))) [
        | inr e ↦ rw e dropped
        | inl e ↦ rw e (elim (Bool-cases (SessionStore.status_ok a.select (text "OK"))) [
          | inr e ↦ rw e dropped
          | inl e ↦ rw e made
        ])
      ])
    ]

pub store-Checked :
    (a : Redis.Answers) (n : ℕ) (p : ConnectionPool) → Checked false n p (SessionStore.check a n p)
unfolding SessionStore.check
store-Checked a n p = elim (Bool-cases (SessionStore.status_ok a.ping (text "PONG"))) [
  | inl e ↦ rw e alive
  | inr e ↦ rw e (renewed (store-Created a (close n p)))
]

is_empty→nil : (ns : List ℕ) → Pool.is_empty ns ≡ true → ns ≡ []
is_empty→nil [] e = refl
is_empty→nil (n ∷ ns) e = cc

-- shutdown() of the backend's pools.
unused_cases :
    (p : ConnectionPool) (r : ConnectionPool)
    → r ≡ (if not p.initialized && Pool.is_empty p.connections then p else close_idle p)
    → (r ≡ close_idle p) ⊎ ((r ≡ p) × (p.connections ≡ []))
unused_cases p r e = ground (arith, e, is_empty→nil p.connections)

abbrev pub ShutDown : (ConnectionPool → ConnectionPool) → Type 0
ShutDown f = (p : ConnectionPool) → (f p ≡ close_idle p) ⊎ ((f p ≡ p) × (p.connections ≡ []))

pub mysql_shutdown : ShutDown MySql.shutdown
unfolding MySql.shutdown
mysql_shutdown p = unused_cases p (MySql.shutdown p) refl

pub redis_shutdown : ShutDown Redis.shutdown
unfolding Redis.shutdown
redis_shutdown p = unused_cases p (Redis.shutdown p) refl

pub store_shutdown : ShutDown SessionStore.shutdown
unfolding SessionStore.shutdown
store_shutdown p = inl refl

abbrev pub mysql_pool : PoolClass
mysql_pool = record {
  Answers = MySql.Answers;
  leaks = false;
  uninitialized = MySql.uninitialized;
  timed_out = MySql.timed_out;
  create = MySql.create_connection;
  check = MySql.check;
  shutdown = MySql.shutdown;
  create-Created = mysql-Created;
  check-Checked = mysql-Checked;
  shutdown_cases = mysql_shutdown;
}

abbrev pub redis_pool : RedisConfig → PoolClass
redis_pool cfg = record {
  Answers = Redis.Answers;
  leaks = true;
  uninitialized = Redis.uninitialized;
  timed_out = Redis.timed_out;
  create = Redis.create_connection cfg;
  check = Redis.check cfg;
  shutdown = Redis.shutdown;
  create-Created = redis-Created cfg;
  check-Checked = redis-Checked cfg;
  shutdown_cases = redis_shutdown;
}

abbrev pub session_store : PoolClass
session_store = record {
  Answers = Redis.Answers;
  leaks = false;
  uninitialized = SessionStore.uninitialized;
  timed_out = SessionStore.timed_out;
  create = SessionStore.create_connection;
  check = SessionStore.check;
  shutdown = SessionStore.shutdown;
  create-Created = store-Created;
  check-Checked = store-Checked;
  shutdown_cases = store_shutdown;
}

-- The pools of the two services.
pub data Service : Type 0 where
  mysql sessions : Service
  redis : RedisConfig → Service

abbrev pub class : Service → PoolClass
class mysql = mysql_pool
class sessions = session_store
class (redis cfg) = redis_pool cfg
