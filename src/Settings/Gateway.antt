-- ===== src/Settings/Gateway.antt =====
-- gateway/common/config.hpp: the sections of the configuration that the gateway reads.
use paid_server.Base.{ℕ, Text, text, Bool, not}
use paid_server.Database.Monad.{Result, ok}
use paid_server.Results.{◌>>=◌, ◌>>◌, require}
use paid_server.Interfaces.{ℤ}
use paid_server.Settings.Numbers.{to_unsigned, to_int, is_negative}
use paid_server.Settings.Load.{Settings}
use paid_server.Settings.Values.{
  require_string, require_int, require_bool, require_positive, int_or,
}

pub record RedisConfig : Type 0 where
  pub host : Text
  pub port : ℤ
  pub db : ℤ
  pub username : Text
  pub password : Text
  pub connect_timeout_seconds : ℕ
  pub command_timeout_seconds : ℕ
  pub pool_size : ℤ

unfoldable pub redis : Settings → Result RedisConfig
redis m = do
  host ← require_string m (text "REDIS_HOST")
  port ← require_int m (text "REDIS_PORT")
  db ← require_int m (text "REDIS_DB")
  username ← require_string m (text "REDIS_GATEWAY_USERNAME")
  password ← require_string m (text "REDIS_GATEWAY_PASSWORD")
  connect_timeout_seconds ← require_int m (text "REDIS_CONNECT_TIMEOUT_SECONDS")
  command_timeout_seconds ← require_int m (text "REDIS_COMMAND_TIMEOUT_SECONDS")
  pool_size ← require_int m (text "REDIS_POOL_SIZE")
  require_positive (text "REDIS_PORT") port
  require_positive (text "REDIS_POOL_SIZE") pool_size
  require (not (is_negative db)) (text "REDIS_DB 必须 >= 0")
  require_positive (text "REDIS_CONNECT_TIMEOUT_SECONDS")
      (to_int (to_unsigned 32 connect_timeout_seconds))
  require_positive (text "REDIS_COMMAND_TIMEOUT_SECONDS")
      (to_int (to_unsigned 32 command_timeout_seconds))
  ok (record {
    host = host;
    port = port;
    db = db;
    username = username;
    password = password;
    connect_timeout_seconds = to_unsigned 32 connect_timeout_seconds;
    command_timeout_seconds = to_unsigned 32 command_timeout_seconds;
    pool_size = pool_size;
  })

pub record PaymentBackendConfig : Type 0 where
  pub ip : Text
  pub http_port : ℤ

unfoldable pub payment_backend : Settings → Result PaymentBackendConfig
payment_backend m = do
  ip ← require_string m (text "PAYMENT_BACKEND_IP")
  http_port ← require_int m (text "PAYMENT_BACKEND_HTTP_PORT")
  require_positive (text "PAYMENT_BACKEND_HTTP_PORT") http_port
  ok (record { ip = ip; http_port = http_port })

pub record PaymentGatewayConfig : Type 0 where
  pub websocket_port : ℤ
  pub http_port : ℤ

unfoldable pub payment_gateway : Settings → Result PaymentGatewayConfig
payment_gateway m = do
  websocket_port ← require_int m (text "PAYMENT_GATEWAY_WEBSOCKET_PORT")
  http_port ← require_int m (text "PAYMENT_GATEWAY_HTTP_PORT")
  require_positive (text "PAYMENT_GATEWAY_WEBSOCKET_PORT") websocket_port
  require_positive (text "PAYMENT_GATEWAY_HTTP_PORT") http_port
  ok (record { websocket_port = websocket_port; http_port = http_port })

pub record PaymentNginxConfig : Type 0 where
  pub ip : Text
  pub port : ℤ

unfoldable pub payment_nginx : Settings → Result PaymentNginxConfig
payment_nginx m = do
  ip ← require_string m (text "PAYMENT_NGINX_IP")
  port ← require_int m (text "PAYMENT_NGINX_PORT")
  require_positive (text "PAYMENT_NGINX_PORT") port
  ok (record { ip = ip; port = port })

pub record LoggerConfig : Type 0 where
  pub file : Text
  pub max_file_size : ℕ
  pub max_files : ℕ
  pub console_enabled : Bool

unfoldable pub logger : Settings → Result LoggerConfig
logger m = do
  file ← require_string m (text "LOG_FILE")
  max_file_size ← require_int m (text "LOG_MAX_FILE_SIZE")
  max_files ← require_int m (text "LOG_MAX_FILES")
  console_enabled ← require_bool m (text "LOG_CONSOLE_ENABLED")
  ok (record {
    file = file;
    max_file_size = to_unsigned 64 max_file_size;
    max_files = to_unsigned 64 max_files;
    console_enabled = console_enabled;
  })

pub record HttpServerConfig : Type 0 where
  pub worker_threads : ℤ
  pub listen_backlog : ℤ
  pub max_concurrent_connections : ℤ
  pub read_timeout_seconds : ℤ

unfoldable pub http_server : Settings → Result HttpServerConfig
http_server m = do
  worker_threads ← int_or m (text "HTTP_WORKER_THREADS") 20
  listen_backlog ← int_or m (text "HTTP_LISTEN_BACKLOG") 128
  max_concurrent_connections ← int_or m (text "HTTP_MAX_CONCURRENT_CONNECTIONS") 256
  read_timeout_seconds ← int_or m (text "HTTP_READ_TIMEOUT_SECONDS") 10
  require_positive (text "HTTP_WORKER_THREADS") worker_threads
  require_positive (text "HTTP_LISTEN_BACKLOG") listen_backlog
  require_positive (text "HTTP_MAX_CONCURRENT_CONNECTIONS") max_concurrent_connections
  require_positive (text "HTTP_READ_TIMEOUT_SECONDS") read_timeout_seconds
  ok (record {
    worker_threads = worker_threads;
    listen_backlog = listen_backlog;
    max_concurrent_connections = max_concurrent_connections;
    read_timeout_seconds = read_timeout_seconds;
  })

unfoldable pub ws_max_connections : Settings → Result ℤ
ws_max_connections m = do
  max_connections ← int_or m (text "WS_MAX_CONNECTIONS") 256
  require_positive (text "WS_MAX_CONNECTIONS") max_connections
  ok max_connections
