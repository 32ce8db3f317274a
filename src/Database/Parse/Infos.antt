-- ===== src/Database/Parse/Infos.antt =====
-- backend/common/mysql_pool.hpp: the structures, as they are made of a row. A time is the text that
-- DATE_FORMAT gives.
use paid_server.Base.{Text}
use paid_server.Interfaces.{ℤ}

pub record UserInfo : Type 0 where
  pub id : ℤ
  pub user_id : Text
  pub username : Text
  pub password_hash : Text
  pub email_hash : Text
  pub email_masked : Text
  pub id_card_hash : Text
  pub id_card_masked : Text
  pub real_auth_completed : ℤ
  pub user_type : ℤ
  pub status : ℤ
  pub last_login_at : Text
  pub created_at : Text

pub record OrderInfo : Type 0 where
  pub id : ℤ
  pub order_sn : Text
  pub account_id : Text
  pub buyer_id : Text
  pub price : ℤ
  pub buyer_email : Text
  pub buyer_id_card_hash : Text
  pub buyer_id_card_masked : Text
  pub status : ℤ
  pub create_time : Text
  pub paid_at : Text
  pub update_time : Text

pub record AccountInfo : Type 0 where
  pub id : ℤ
  pub account_id : Text
  pub seller_id : Text
  pub game_name : Text
  pub server_area : Text
  pub price : ℤ
  pub account_level : ℤ
  pub hero_count : ℤ
  pub skin_count : ℤ
  pub rare_items : Text
  pub status : ℤ
  pub version : ℤ
  pub created_at : Text
  pub updated_at : Text

pub record PaymentSessionInfo : Type 0 where
  pub id : ℤ
  pub payment_session_id : Text
  pub order_sn : Text
  pub account_id : Text
  pub buyer_id : Text
  pub buyer_email : Text
  pub status : ℤ
  pub expire_at : Text
  pub created_at : Text
  pub updated_at : Text

pub record PaymentAttemptInfo : Type 0 where
  pub id : ℤ
  pub request_id : Text
  pub payment_session_id : Text
  pub order_sn : Text
  pub account_id : Text
  pub buyer_id : Text
  pub result : ℤ
  pub fail_reason : Text
  pub client_ip : Text
  pub user_agent : Text
  pub created_at : Text
  pub updated_at : Text
