-- ===== src/Database/Statements.antt =====
-- backend/common/mysql_pool.hpp: the texts of the statements that MySqlPool sends, escape and
-- nullableString. A statement is the list of the parts that the source joins by +.
pub mod Updates
pub mod Locks
pub mod Tokens
pub mod Reading
pub mod Safety
pub mod Tests
use paid_server.Base.{ℕ, Text, text, empty, List, [], ◌∷◌, ◌++◌, if◌then◌else◌}
use paid_server.Strings.{to_string}
use paid_server.Database.Rows.{PaymentSessionStatus, session_status}

-- Text of the source, the escape() of a value, or the std::to_string of a number.
pub data Part : Type 0 where
  raw escaped : Text → Part
  number : ℕ → Part

abbrev pub Statement : Type 0
Statement = List Part

-- The text of the statement; escape is mysql_real_escape_string.
unfoldable pub render : (Text → Text) → Statement → Text
render escape [] = []
render escape (raw t ∷ parts) = t ++ render escape parts
render escape (escaped v ∷ parts) = escape v ++ render escape parts
render escape (number n ∷ parts) = to_string n ++ render escape parts

-- "'" + escape(…) + "'"
abbrev pub quoted : Text → Statement → Statement
quoted value parts = raw (text "'") ∷ escaped value ∷ raw (text "'") ∷ parts

-- nullableString, in front of other parts.
unfoldable pub nullable_string : Text → Statement → Statement
nullable_string value parts = if empty value then raw (text "NULL") ∷ parts else quoted value parts

unfoldable pub user_select_columns : Text
user_select_columns =
    text
      "SELECT id, user_id, username, password_hash, IFNULL(email_hash, ''), IFNULL(email_masked, ''), "
    ++ text
        "IFNULL(id_card_hash,''), IFNULL(id_card_masked,''), real_auth_completed, user_type, status, "
    ++ text "DATE_FORMAT(last_login_at, '%Y-%m-%d %H:%i:%s'), "
    ++ text "DATE_FORMAT(created_at, '%Y-%m-%d %H:%i:%s')"

unfoldable pub order_select_columns : Text
order_select_columns =
    text "SELECT id, order_sn, account_id, buyer_id, price, buyer_email, buyer_id_card_hash, "
    ++ text "buyer_id_card_masked, status, "
    ++ text "DATE_FORMAT(create_time, '%Y-%m-%d %H:%i:%s'), "
    ++ text "IFNULL(DATE_FORMAT(paid_at, '%Y-%m-%d %H:%i:%s'), ''), "
    ++ text "DATE_FORMAT(update_time, '%Y-%m-%d %H:%i:%s')"

unfoldable pub account_select_columns : Text
account_select_columns =
    text
      "SELECT id, account_id, seller_id, game_name, server_area, price, account_level, hero_count, "
    ++ text "skin_count, "
    ++ text "CAST(rare_items AS CHAR), status, version, "
    ++ text "DATE_FORMAT(created_at, '%Y-%m-%d %H:%i:%s'), "
    ++ text "DATE_FORMAT(updated_at, '%Y-%m-%d %H:%i:%s')"

unfoldable pub payment_session_select_columns : Text
payment_session_select_columns =
    text "SELECT id, payment_session_id, order_sn, account_id, buyer_id, buyer_email, "
    ++ text "status, DATE_FORMAT(expire_at, '%Y-%m-%d %H:%i:%s'), "
    ++ text "DATE_FORMAT(created_at, '%Y-%m-%d %H:%i:%s'), "
    ++ text "DATE_FORMAT(updated_at, '%Y-%m-%d %H:%i:%s')"

unfoldable pub payment_attempt_select_columns : Text
payment_attempt_select_columns =
    text "SELECT id, request_id, payment_session_id, order_sn, account_id, buyer_id, result, "
    ++ text "IFNULL(fail_reason,''), IFNULL(client_ip,''), IFNULL(user_agent,''), "
    ++ text "DATE_FORMAT(created_at, '%Y-%m-%d %H:%i:%s'), "
    ++ text "DATE_FORMAT(updated_at, '%Y-%m-%d %H:%i:%s')"

-- The statements of the queries.
unfoldable pub user_by_user_id : Text → Statement
unfolding user_select_columns
user_by_user_id user_id =
    raw user_select_columns
    ∷ raw (text " FROM users WHERE user_id='")
    ∷ escaped user_id
    ∷ raw (text "' LIMIT 1")
    ∷ []

unfoldable pub user_by_username : Text → Statement
unfolding user_select_columns
user_by_username username =
    raw user_select_columns
    ∷ raw (text " FROM users WHERE username='")
    ∷ escaped username
    ∷ raw (text "' LIMIT 1")
    ∷ []

unfoldable pub order_by_sn : Text → Statement
unfolding order_select_columns
order_by_sn order_sn =
    raw order_select_columns
    ∷ raw (text " FROM orders WHERE order_sn='")
    ∷ escaped order_sn
    ∷ raw (text "' LIMIT 1")
    ∷ []

unfoldable pub account_by_id : Text → Statement
unfolding account_select_columns
account_by_id account_id =
    raw account_select_columns
    ∷ raw (text " FROM accounts WHERE account_id='")
    ∷ escaped account_id
    ∷ raw (text "' LIMIT 1")
    ∷ []

unfoldable pub active_session_by_order_sn : Text → Statement
unfolding payment_session_select_columns
active_session_by_order_sn order_sn =
    raw payment_session_select_columns
    ∷ raw (text " FROM payment_sessions WHERE order_sn='")
    ∷ escaped order_sn
    ∷ raw (text "' AND status=")
    ∷ number (session_status PaymentSessionStatus.waiting_pay)
    ∷ raw (text " AND expire_at > NOW() LIMIT 1")
    ∷ []

unfoldable pub session_by_id : Text → Statement
unfolding payment_session_select_columns
session_by_id payment_session_id =
    raw payment_session_select_columns
    ∷ raw (text " FROM payment_sessions WHERE payment_session_id='")
    ∷ escaped payment_session_id
    ∷ raw (text "' LIMIT 1")
    ∷ []

unfoldable pub attempt_by_request_id : Text → Statement
unfolding payment_attempt_select_columns
attempt_by_request_id request_id =
    raw payment_attempt_select_columns
    ∷ raw (text " FROM payment_attempts WHERE request_id='")
    ∷ escaped request_id
    ∷ raw (text "' LIMIT 1")
    ∷ []
