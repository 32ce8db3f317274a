-- ===== src/Settings/Backend.antt =====
-- backend/common/config.hpp: the sections of the configuration. An int is an integer within its
-- bounds; an unsigned field keeps the conversion's wrap-around.
use paid_server.Base.{ℕ, Text, text, Bool, not, ◌==◌, [], ◌∷◌, false}
use paid_server.Database.Monad.{Result, ok}
use paid_server.Results.{◌>>=◌, ◌>>◌, require}
use paid_server.Interfaces.{ℤ}
use paid_server.Settings.Numbers.{to_unsigned, is_negative}
use paid_server.Settings.Load.{Settings}
use paid_server.Settings.Values.{
  require_string, require_int, require_bool, require_positive, int_or, validate_jwt_algorithm,
}

pub record MySqlConfig : Type 0 where
  pub host : Text
  pub port : ℤ
  pub user : Text
  pub password : Text
  pub database : Text
  pub connect_timeout_seconds : ℕ
  pub read_timeout_seconds : ℕ
  pub write_timeout_seconds : ℕ
  pub pool_size : ℤ

unfoldable pub mysql : Settings → Result MySqlConfig
mysql m = do
  host ← require_string m (text "MYSQL_HOST")
  port ← require_int m (text "MYSQL_PORT")
  user ← require_string m (text "MYSQL_USER")
  password ← require_string m (text "MYSQL_PASSWORD")
  database ← require_string m (text "MYSQL_DATABASE")
  connect_timeout_seconds ← require_int m (text "MYSQL_CONNECT_TIMEOUT_SECONDS")
  read_timeout_seconds ← require_int m (text "MYSQL_READ_TIMEOUT_SECONDS")
  write_timeout_seconds ← require_int m (text "MYSQL_WRITE_TIMEOUT_SECONDS")
  pool_size ← require_int m (text "MYSQL_POOL_SIZE")
  ok (record {
    host = host;
    port = port;
    user = user;
    password = password;
    database = database;
    connect_timeout_seconds = to_unsigned 32 connect_timeout_seconds;
    read_timeout_seconds = to_unsigned 32 read_timeout_seconds;
    write_timeout_seconds = to_unsigned 32 write_timeout_seconds;
    pool_size = pool_size;
  })

pub record LoggerConfig : Type 0 where
  pub file : Text
  pub max_file_size : ℕ
  pub max_files : ℕ
  pub console_enabled : Bool

unfoldable pub logger : Settings → Result LoggerConfig
logger m = do
  file ← require_string m (text "LOG_FILE")
  max_file_size ← require_int m (text "LOG_MAX_FILE_SIZE")
  max_files ← require_int m (text "LOG_MAX_FILES")
  console_enabled ← require_bool m (text "LOG_CONSOLE_ENABLED")
  ok (record {
    file = file;
    max_file_size = to_unsigned 64 max_file_size;
    max_files = to_unsigned 64 max_files;
    console_enabled = console_enabled;
  })

pub record RedisConfig : Type 0 where
  pub host : Text
  pub port : ℤ
  pub db : ℤ
  pub username : Text
  pub password : Text
  pub connect_timeout_seconds : ℕ
  pub command_timeout_seconds : ℕ
  pub pool_size : ℤ

unfoldable pub redis : Settings → Result RedisConfig
redis m = do
  host ← require_string m (text "REDIS_HOST")
  port ← require_int m (text "REDIS_PORT")
  db ← require_int m (text "REDIS_DB")
  username ← require_string m (text "REDIS_BACKEND_USERNAME")
  password ← require_string m (text "REDIS_BACKEND_PASSWORD")
  connect_timeout_seconds ← require_int m (text "REDIS_CONNECT_TIMEOUT_SECONDS")
  command_timeout_seconds ← require_int m (text "REDIS_COMMAND_TIMEOUT_SECONDS")
  pool_size ← require_int m (text "REDIS_POOL_SIZE")
  require_positive (text "REDIS_PORT") port
  require_positive (text "REDIS_POOL_SIZE") pool_size
  require (not (is_negative db)) (text "REDIS_DB 必须 >= 0")
  require (not (to_unsigned 32 connect_timeout_seconds == 0))
      (text "REDIS_CONNECT_TIMEOUT_SECONDS 必须为正数")
  require (not (to_unsigned 32 command_timeout_seconds == 0))
      (text "REDIS_COMMAND_TIMEOUT_SECONDS 必须为正数")
  ok (record {
    host = host;
    port = port;
    db = db;
    username = username;
    password = password;
    connect_timeout_seconds = to_unsigned 32 connect_timeout_seconds;
    command_timeout_seconds = to_unsigned 32 command_timeout_seconds;
    pool_size = pool_size;
  })

pub record JwtConfig : Type 0 where
  pub algorithm : Text
  pub secret : Text
  pub qr_token_ttl_seconds : ℤ
  pub clock_skew_seconds : ℤ

unfoldable pub jwt : Settings → Result JwtConfig
jwt m = do
  algorithm ← require_string m (text "JWT_ALGORITHM")
  secret ← require_string m (text "JWT_SECRET")
  qr_token_ttl_seconds ← require_int m (text "JWT_QR_TOKEN_TTL_SECONDS")
  clock_skew_seconds ← require_int m (text "JWT_CLOCK_SKEW_SECONDS")
  validate_jwt_algorithm algorithm
  require_positive (text "JWT_QR_TOKEN_TTL_SECONDS") qr_token_ttl_seconds
  require (not (is_negative clock_skew_seconds)) (text "JWT_CLOCK_SKEW_SECONDS 必须 >= 0")
  ok (record {
    algorithm = algorithm;
    secret = secret;
    qr_token_ttl_seconds = qr_token_ttl_seconds;
    clock_skew_seconds = clock_skew_seconds;
  })

pub record HmacHashConfig : Type 0 where
  pub user_email_hash_secret : Text
  pub user_id_card_hash_secret : Text

unfoldable pub hash : Settings → Result HmacHashConfig
hash m = do
  user_email_hash_secret ← require_string m (text "USER_EMAIL_HASH_SECRET")
  user_id_card_hash_secret ← require_string m (text "USER_ID_CARD_HASH_SECRET")
  ok (record {
    user_email_hash_secret = user_email_hash_secret;
    user_id_card_hash_secret = user_id_card_hash_secret;
  })

pub record PasswordHashConfig : Type 0 where
  pub secret : Text

unfoldable pub password_hash : Settings → Result PasswordHashConfig
password_hash m = do
  secret ← require_string m (text "PASSWORD_HASH_SECRET")
  ok (record { secret = secret })

pub record PaymentBackendConfig : Type 0 where
  pub ip : Text
  pub http_port : ℤ
  pub websocket_port : ℤ

unfoldable pub payment_backend : Settings → Result PaymentBackendConfig
payment_backend m = do
  ip ← require_string m (text "PAYMENT_BACKEND_IP")
  http_port ← require_int m (text "PAYMENT_BACKEND_HTTP_PORT")
  websocket_port ← require_int m (text "PAYMENT_BACKEND_WEBSOCKET_PORT")
  require_positive (text "PAYMENT_BACKEND_HTTP_PORT") http_port
  require_positive (text "PAYMENT_BACKEND_WEBSOCKET_PORT") websocket_port
  ok (record { ip = ip; http_port = http_port; websocket_port = websocket_port })

pub record PaymentGatewayConfig : Type 0 where
  pub public_host : Text
  pub websocket_port : ℤ
  pub http_port : ℤ

unfoldable pub payment_gateway : Settings → Result PaymentGatewayConfig
payment_gateway m = do
  public_host ← require_string m (text "PAYMENT_GATEWAY_IP")
  websocket_port ← require_int m (text "PAYMENT_GATEWAY_WEBSOCKET_PORT")
  http_port ← require_int m (text "PAYMENT_GATEWAY_HTTP_PORT")
  require_positive (text "PAYMENT_GATEWAY_WEBSOCKET_PORT") websocket_port
  require_positive (text "PAYMENT_GATEWAY_HTTP_PORT") http_port
  ok (record { public_host = public_host; websocket_port = websocket_port; http_port = http_port })

starts_with_slash : Text → Bool
starts_with_slash [] = false
starts_with_slash (c ∷ s) = c == b'/'

pub record PaymentNginxConfig : Type 0 where
  pub public_host : Text
  pub port : ℤ
  pub scan_page_path : Text

unfoldable pub payment_nginx : Settings → Result PaymentNginxConfig
unfolding starts_with_slash
payment_nginx m = do
  public_host ← require_string m (text "PAYMENT_NGINX_IP")
  port ← require_int m (text "PAYMENT_NGINX_PORT")
  scan_page_path ← require_string m (text "PAYMENT_SCAN_PAGE_PATH")
  require_positive (text "PAYMENT_NGINX_PORT") port
  require (starts_with_slash scan_page_path) (text "PAYMENT_SCAN_PAGE_PATH 必须以 / 开头")
  ok (record { public_host = public_host; port = port; scan_page_path = scan_page_path })

pub record PaymentRuntimeConfig : Type 0 where
  pub login_session_ttl_seconds : ℤ
  pub payment_session_ttl_seconds : ℤ
  pub payment_attempt_request_ttl_seconds : ℤ
  pub websocket_heartbeat_interval_seconds : ℤ
  pub websocket_idle_timeout_seconds : ℤ
  pub login_reauth_max_retry : ℤ

unfoldable pub runtime : Settings → Result PaymentRuntimeConfig
runtime m = do
  login_session_ttl_seconds ← int_or m (text "LOGIN_SESSION_TTL_SECONDS") 86400
  payment_session_ttl_seconds ← require_int m (text "PAYMENT_SESSION_TTL_SECONDS")
  payment_attempt_request_ttl_seconds ← require_int m (text "PAYMENT_ATTEMPT_REQUEST_TTL_SECONDS")
  websocket_heartbeat_interval_seconds ← require_int m (text "WEBSOCKET_HEARTBEAT_INTERVAL_SECONDS")
  websocket_idle_timeout_seconds ← require_int m (text "WEBSOCKET_IDLE_TIMEOUT_SECONDS")
  login_reauth_max_retry ← require_int m (text "LOGIN_REAUTH_MAX_RETRY")
  require_positive (text "LOGIN_SESSION_TTL_SECONDS") login_session_ttl_seconds
  require_positive (text "PAYMENT_SESSION_TTL_SECONDS") payment_session_ttl_seconds
  require_positive (text "PAYMENT_ATTEMPT_REQUEST_TTL_SECONDS") payment_attempt_request_ttl_seconds
  require_positive (text "WEBSOCKET_HEARTBEAT_INTERVAL_SECONDS")
      websocket_heartbeat_interval_seconds
  require_positive (text "WEBSOCKET_IDLE_TIMEOUT_SECONDS") websocket_idle_timeout_seconds
  require_positive (text "LOGIN_REAUTH_MAX_RETRY") login_reauth_max_retry
  ok (record {
    login_session_ttl_seconds = login_session_ttl_seconds;
    payment_session_ttl_seconds = payment_session_ttl_seconds;
    payment_attempt_request_ttl_seconds = payment_attempt_request_ttl_seconds;
    websocket_heartbeat_interval_seconds = websocket_heartbeat_interval_seconds;
    websocket_idle_timeout_seconds = websocket_idle_timeout_seconds;
    login_reauth_max_retry = login_reauth_max_retry;
  })

pub record HttpServerConfig : Type 0 where
  pub worker_threads : ℤ
  pub listen_backlog : ℤ
  pub max_concurrent_connections : ℤ
  pub read_timeout_seconds : ℤ

unfoldable pub http_server : Settings → Result HttpServerConfig
http_server m = do
  worker_threads ← int_or m (text "HTTP_WORKER_THREADS") 20
  listen_backlog ← int_or m (text "HTTP_LISTEN_BACKLOG") 128
  max_concurrent_connections ← int_or m (text "HTTP_MAX_CONCURRENT_CONNECTIONS") 256
  read_timeout_seconds ← int_or m (text "HTTP_READ_TIMEOUT_SECONDS") 10
  require_positive (text "HTTP_WORKER_THREADS") worker_threads
  require_positive (text "HTTP_LISTEN_BACKLOG") listen_backlog
  require_positive (text "HTTP_MAX_CONCURRENT_CONNECTIONS") max_concurrent_connections
  require_positive (text "HTTP_READ_TIMEOUT_SECONDS") read_timeout_seconds
  ok (record {
    worker_threads = worker_threads;
    listen_backlog = listen_backlog;
    max_concurrent_connections = max_concurrent_connections;
    read_timeout_seconds = read_timeout_seconds;
  })
