-- ===== src/Payment/World.antt =====
-- What the backend's handlers act on: the database, Redis, the clock, the random numbers, and the
-- notifications handed to the worker pool.
use paid_server.Base.{ℕ, Text, text, List, [], ◌∷◌, ◌++◌}
use paid_server.Base.Map.{text_eq}
use paid_server.Database.Monad.{Result, ok, throws, State, Fault, pure, ◌>>=◌}
use paid_server.Strings.{Headers, to_string}

-- Redis: each key with its value and the second at which it expires.
pub record Redis : Type 0 where
  pub entries : List (Text × (Text × ℕ))
  pub faults : List Fault

pub record World : Type 0 where
  pub db : State
  pub redis : Redis
  -- system_clock, in seconds.
  pub clock : ℕ
  -- What the coming calls of randomHex and secureNonceHex give; a call fails when the list is used up.
  pub rands : List Text
  -- The tasks submitted to the worker pool: payment_session_id and order_sn, the latest first.
  pub notified : List (Text × Text)

pub record HttpRequest : Type 0 where
  pub method : Text
  pub path : Text
  pub query : Text
  pub headers : Headers
  pub body : Text

-- The JSON object with the fields code, message and data.
pub record Envelope (J : Type 0) : Type 0 where
  pub code : ℕ
  pub message : Text
  pub content : J

pub record HttpResponse (J : Type 0) : Type 0 where
  pub http_status : ℕ
  pub envelope : Envelope J
  pub extra_headers : List (Text × Text)

-- The values of payment_config::Config that the handlers read.
pub record Config : Type 0 where
  pub password_secret : Text
  pub email_hash_secret : Text
  pub id_card_hash_secret : Text
  pub login_session_ttl_seconds : ℕ
  pub payment_session_ttl_seconds : ℕ
  pub nginx_host : Text
  pub nginx_port : ℕ
  pub scan_page_path : Text
  pub jwt_algorithm : Text
  pub jwt_secret : Text
  pub qr_token_ttl_seconds : ℕ
  pub clock_skew_seconds : ℕ

abbrev pub with_db : {A : Type 0} → World → Result A × State → Result A × World
with_db w (r, s) = (r, record w { db = s })

-- A call of MySqlPool.
abbrev pub on_db : {A : Type 0} → (State → Result A × State) → World → Result A × World
on_db m w = with_db w (m w.db)

-- A computation that may throw.
abbrev pub lift : {A : Type 0} → Result A → World → Result A × World
lift r w = (r, w)

abbrev pub read : {A : Type 0} → (World → A) → World → Result A × World
read f w = (ok (f w), w)

take_random : Text → List Text → World → Result Text × World
take_random error [] w = (throws error, w)
take_random error (r ∷ rs) w = (ok r, record w { rands = rs })

unfoldable pub random_hex : World → Result Text × World
unfolding take_random
random_hex w = take_random (text "生成随机数失败") w.rands w

-- secureNonceHex() of jwt.hpp.
unfoldable pub secure_nonce_hex : World → Result Text × World
unfolding take_random
secure_nonce_hex w = take_random (text "生成 nonce 时 RAND_bytes 调用失败") w.rands w

unfoldable pub make_payment_session_id : World → Result Text × World
make_payment_session_id = do
  now ← read (λ w. w.clock)
  r ← random_hex
  pure (text "PS" ++ (to_string now ++ r))

unfoldable pub make_request_id : World → Result Text × World
make_request_id = do
  now ← read (λ w. w.clock)
  r ← random_hex
  pure (text "REQ" ++ (to_string now ++ r))

unfoldable pub make_login_session_id : World → Result Text × World
make_login_session_id = do r ← random_hex; pure (text "SID" ++ r)

-- submit() of the worker pool, with the notification of the gateway.
unfoldable pub submit_notification : Text → Text → World → Result (Unit {0}) × World
submit_notification session_id order_sn w =
    (ok tt, record w { notified = (session_id, order_sn) ∷ w.notified })
