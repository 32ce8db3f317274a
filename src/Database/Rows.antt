-- ===== src/Database/Rows.antt =====
-- backend/common/mysql_pool.hpp: the status enumerations, the row structures and the inputs.
-- A status is the number that its column holds; DATETIME columns are seconds, by the server's clock.
use paid_server.Base.{ℕ, Text, Bool, List, ◌==◌, ◌&&◌, empty, not}

pub data UserStatus : Type 0 where
  normal frozen cancelled risk_limited : UserStatus

-- static_cast<int>
abbrev pub user_status : UserStatus → ℕ
user_status UserStatus.normal = 0
user_status UserStatus.frozen = 1
user_status UserStatus.cancelled = 2
user_status UserStatus.risk_limited = 3

pub data OrderStatus : Type 0 where
  pending_pay paid cancelled expired : OrderStatus

-- static_cast<int>
abbrev pub order_status : OrderStatus → ℕ
order_status OrderStatus.pending_pay = 0
order_status OrderStatus.paid = 1
order_status OrderStatus.cancelled = 2
order_status OrderStatus.expired = 3

pub data AccountStatus : Type 0 where
  on_sale trading sold removed : AccountStatus

-- static_cast<int>
abbrev pub account_status : AccountStatus → ℕ
account_status AccountStatus.on_sale = 0
account_status AccountStatus.trading = 1
account_status AccountStatus.sold = 2
account_status AccountStatus.removed = 3

pub data PaymentSessionStatus : Type 0 where
  waiting_pay paid invalid expired : PaymentSessionStatus

-- static_cast<int>
abbrev pub session_status : PaymentSessionStatus → ℕ
session_status PaymentSessionStatus.waiting_pay = 0
session_status PaymentSessionStatus.paid = 1
session_status PaymentSessionStatus.invalid = 2
session_status PaymentSessionStatus.expired = 3

pub data PaymentAttemptResult : Type 0 where
  processing success failed : PaymentAttemptResult

-- static_cast<int>
abbrev pub attempt_result : PaymentAttemptResult → ℕ
attempt_result PaymentAttemptResult.processing = 0
attempt_result PaymentAttemptResult.success = 1
attempt_result PaymentAttemptResult.failed = 2

pub record UserInfo : Type 0 where
  pub id : ℕ
  pub user_id : Text
  pub username : Text
  pub password_hash : Text
  pub email_hash : Text
  pub email_masked : Text
  pub id_card_hash : Text
  pub id_card_masked : Text
  pub real_auth_completed : ℕ
  pub user_type : ℕ
  pub status : ℕ
  pub last_login_at : ℕ
  pub created_at : ℕ

pub record OrderInfo : Type 0 where
  pub id : ℕ
  pub order_sn : Text
  pub account_id : Text
  pub buyer_id : Text
  pub price : ℕ
  pub buyer_email : Text
  pub buyer_id_card_hash : Text
  pub buyer_id_card_masked : Text
  pub status : ℕ
  pub create_time : ℕ
  pub paid_at : ℕ
  pub update_time : ℕ

pub record AccountInfo : Type 0 where
  pub id : ℕ
  pub account_id : Text
  pub seller_id : Text
  pub game_name : Text
  pub server_area : Text
  pub price : ℕ
  pub account_level : ℕ
  pub hero_count : ℕ
  pub skin_count : ℕ
  pub rare_items : Text
  pub status : ℕ
  pub version : ℕ
  pub created_at : ℕ
  pub updated_at : ℕ

pub record PaymentSessionInfo : Type 0 where
  pub id : ℕ
  pub payment_session_id : Text
  pub order_sn : Text
  pub account_id : Text
  pub buyer_id : Text
  pub buyer_email : Text
  pub status : ℕ
  pub expire_at : ℕ
  pub created_at : ℕ
  pub updated_at : ℕ

pub record PaymentAttemptInfo : Type 0 where
  pub id : ℕ
  pub request_id : Text
  pub payment_session_id : Text
  pub order_sn : Text
  pub account_id : Text
  pub buyer_id : Text
  pub result : ℕ
  pub fail_reason : Text
  pub client_ip : Text
  pub user_agent : Text
  pub created_at : ℕ
  pub updated_at : ℕ

pub record CreatePaymentSessionInput : Type 0 where
  pub payment_session_id : Text
  pub order_sn : Text
  pub account_id : Text
  pub buyer_id : Text
  pub buyer_contact_masked : Text
  pub ttl_seconds : ℕ

pub record UserRealAuthUpdate : Type 0 where
  pub user_id : Text
  pub email_hash : Text
  pub email_masked : Text
  pub id_card_hash : Text
  pub id_card_masked : Text

pub record CreatePaymentAttemptInput : Type 0 where
  pub request_id : Text
  pub payment_session_id : Text
  pub order_sn : Text
  pub account_id : Text
  pub buyer_id : Text
  pub client_ip : Text
  pub user_agent : Text

pub record PaymentFinalizeInput : Type 0 where
  pub payment_session_id : Text
  pub order_sn : Text
  pub account_id : Text
  pub buyer_id : Text
  pub price : ℕ
  pub request_id : Text

unfoldable pub is_normal : UserInfo → Bool
is_normal u = u.status == user_status UserStatus.normal

unfoldable pub is_real_auth_completed : UserInfo → Bool
is_real_auth_completed u =
    u.real_auth_completed == 1 && not (empty u.email_hash) && not (empty u.id_card_hash)

-- The five tables of the schema that the services use.
pub record Tables : Type 0 where
  pub users : List UserInfo
  pub orders : List OrderInfo
  pub accounts : List AccountInfo
  pub sessions : List PaymentSessionInfo
  pub attempts : List PaymentAttemptInfo
