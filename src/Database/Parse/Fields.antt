-- ===== src/Database/Parse/Fields.antt =====
-- backend/common/mysql_pool.hpp: the fields in which the server shows the rows of the tables, and the
-- structures that the parse functions are to make of them.
use paid_server.Base.{ℕ, ◌^◌, ◌<◌, Text, List, [], ◌∷◌, Option, some}
use paid_server.Interfaces.{pos}
use paid_server.Strings.{to_string}
use paid_server.Database.Rows
use paid_server.Database.Parse.{
  UserInfo, OrderInfo, AccountInfo, PaymentSessionInfo, PaymentAttemptInfo,
}

-- The bounds of the types of the columns.
pub record IsUser (r : Rows.UserInfo) : Type 0 where
  pub id : r.id < 2 ^ 63
  pub real_auth_completed : r.real_auth_completed < 2 ^ 31
  pub user_type : r.user_type < 2 ^ 31
  pub status : r.status < 2 ^ 31

pub record IsOrder (r : Rows.OrderInfo) : Type 0 where
  pub id : r.id < 2 ^ 63
  pub price : r.price < 2 ^ 63
  pub status : r.status < 2 ^ 31

pub record IsAccount (r : Rows.AccountInfo) : Type 0 where
  pub id : r.id < 2 ^ 63
  pub price : r.price < 2 ^ 63
  pub account_level : r.account_level < 2 ^ 31
  pub hero_count : r.hero_count < 2 ^ 31
  pub skin_count : r.skin_count < 2 ^ 31
  pub status : r.status < 2 ^ 31
  pub version : r.version < 2 ^ 31

pub record IsSession (r : Rows.PaymentSessionInfo) : Type 0 where
  pub id : r.id < 2 ^ 63
  pub status : r.status < 2 ^ 31

pub record IsAttempt (r : Rows.PaymentAttemptInfo) : Type 0 where
  pub id : r.id < 2 ^ 63
  pub result : r.result < 2 ^ 31

-- What the server shows of a row; date is DATE_FORMAT.
module _ (date : ℕ → Text) where
  unfoldable pub user_fields : Rows.UserInfo → List (Option Text)
  user_fields r =
      some (to_string r.id)
      ∷ some r.user_id
      ∷ some r.username
      ∷ some r.password_hash
      ∷ some r.email_hash
      ∷ some r.email_masked
      ∷ some r.id_card_hash
      ∷ some r.id_card_masked
      ∷ some (to_string r.real_auth_completed)
      ∷ some (to_string r.user_type)
      ∷ some (to_string r.status)
      ∷ some (date r.last_login_at)
      ∷ some (date r.created_at)
      ∷ []

  unfoldable pub shown_user : Rows.UserInfo → UserInfo
  shown_user r = record {
    id = pos r.id;
    user_id = r.user_id;
    username = r.username;
    password_hash = r.password_hash;
    email_hash = r.email_hash;
    email_masked = r.email_masked;
    id_card_hash = r.id_card_hash;
    id_card_masked = r.id_card_masked;
    real_auth_completed = pos r.real_auth_completed;
    user_type = pos r.user_type;
    status = pos r.status;
    last_login_at = date r.last_login_at;
    created_at = date r.created_at;
  }

  unfoldable pub order_fields : Rows.OrderInfo → List (Option Text)
  order_fields r =
      some (to_string r.id)
      ∷ some r.order_sn
      ∷ some r.account_id
      ∷ some r.buyer_id
      ∷ some (to_string r.price)
      ∷ some r.buyer_email
      ∷ some r.buyer_id_card_hash
      ∷ some r.buyer_id_card_masked
      ∷ some (to_string r.status)
      ∷ some (date r.create_time)
      ∷ some (date r.paid_at)
      ∷ some (date r.update_time)
      ∷ []

  unfoldable pub shown_order : Rows.OrderInfo → OrderInfo
  shown_order r = record {
    id = pos r.id;
    order_sn = r.order_sn;
    account_id = r.account_id;
    buyer_id = r.buyer_id;
    price = pos r.price;
    buyer_email = r.buyer_email;
    buyer_id_card_hash = r.buyer_id_card_hash;
    buyer_id_card_masked = r.buyer_id_card_masked;
    status = pos r.status;
    create_time = date r.create_time;
    paid_at = date r.paid_at;
    update_time = date r.update_time;
  }

  unfoldable pub account_fields : Rows.AccountInfo → List (Option Text)
  account_fields r =
      some (to_string r.id)
      ∷ some r.account_id
      ∷ some r.seller_id
      ∷ some r.game_name
      ∷ some r.server_area
      ∷ some (to_string r.price)
      ∷ some (to_string r.account_level)
      ∷ some (to_string r.hero_count)
      ∷ some (to_string r.skin_count)
      ∷ some r.rare_items
      ∷ some (to_string r.status)
      ∷ some (to_string r.version)
      ∷ some (date r.created_at)
      ∷ some (date r.updated_at)
      ∷ []

  unfoldable pub shown_account : Rows.AccountInfo → AccountInfo
  shown_account r = record {
    id = pos r.id;
    account_id = r.account_id;
    seller_id = r.seller_id;
    game_name = r.game_name;
    server_area = r.server_area;
    price = pos r.price;
    account_level = pos r.account_level;
    hero_count = pos r.hero_count;
    skin_count = pos r.skin_count;
    rare_items = r.rare_items;
    status = pos r.status;
    version = pos r.version;
    created_at = date r.created_at;
    updated_at = date r.updated_at;
  }

  unfoldable pub payment_session_fields : Rows.PaymentSessionInfo → List (Option Text)
  payment_session_fields r =
      some (to_string r.id)
      ∷ some r.payment_session_id
      ∷ some r.order_sn
      ∷ some r.account_id
      ∷ some r.buyer_id
      ∷ some r.buyer_email
      ∷ some (to_string r.status)
      ∷ some (date r.expire_at)
      ∷ some (date r.created_at)
      ∷ some (date r.updated_at)
      ∷ []

  unfoldable pub shown_payment_session : Rows.PaymentSessionInfo → PaymentSessionInfo
  shown_payment_session r = record {
    id = pos r.id;
    payment_session_id = r.payment_session_id;
    order_sn = r.order_sn;
    account_id = r.account_id;
    buyer_id = r.buyer_id;
    buyer_email = r.buyer_email;
    status = pos r.status;
    expire_at = date r.expire_at;
    created_at = date r.created_at;
    updated_at = date r.updated_at;
  }

  unfoldable pub payment_attempt_fields : Rows.PaymentAttemptInfo → List (Option Text)
  payment_attempt_fields r =
      some (to_string r.id)
      ∷ some r.request_id
      ∷ some r.payment_session_id
      ∷ some r.order_sn
      ∷ some r.account_id
      ∷ some r.buyer_id
      ∷ some (to_string r.result)
      ∷ some r.fail_reason
      ∷ some r.client_ip
      ∷ some r.user_agent
      ∷ some (date r.created_at)
      ∷ some (date r.updated_at)
      ∷ []

  unfoldable pub shown_payment_attempt : Rows.PaymentAttemptInfo → PaymentAttemptInfo
  shown_payment_attempt r = record {
    id = pos r.id;
    request_id = r.request_id;
    payment_session_id = r.payment_session_id;
    order_sn = r.order_sn;
    account_id = r.account_id;
    buyer_id = r.buyer_id;
    result = pos r.result;
    fail_reason = r.fail_reason;
    client_ip = r.client_ip;
    user_agent = r.user_agent;
    created_at = date r.created_at;
    updated_at = date r.updated_at;
  }
