-- ===== src/Database/Parse/Columns.antt =====
-- The columns of the tables: the expression that names one in a SELECT, and what the server shows of
-- it; and the SELECT statements over them, as MySQL reads them.
use paid_server.Base.{ℕ, ◌≡◌, refl, Text, text, List, [], ◌∷◌, ◌++◌, Option, some}
use paid_server.Strings.{to_string}
use paid_server.Database.Rows
use paid_server.Database.Statements.{
  render, user_by_user_id, user_by_username, order_by_sn, account_by_id, active_session_by_order_sn,
  session_by_id, attempt_by_request_id, user_select_columns, order_select_columns,
  account_select_columns, payment_session_select_columns, payment_attempt_select_columns,
}
use paid_server.Database.Parse.Fields.{
  user_fields, order_fields, account_fields, payment_session_fields, payment_attempt_fields,
}

abbrev pub Column : Type 0 → Type 0
Column A = Text × (A → Option Text)

-- What the server shows of a row, column by column.
abbrev pub shown_by : {A : Type 0} → List (Column A) → A → List (Option Text)
shown_by [] r = []
shown_by ((name, value) ∷ cs) r = value r ∷ shown_by cs r

abbrev pub names_of : {A : Type 0} → List (Column A) → Text
names_of [] = []
names_of ((name, value) ∷ []) = name
names_of ((name, value) ∷ c ∷ cs) = name ++ (text ", " ++ names_of (c ∷ cs))

-- SELECT columns FROM table WHERE key='value' more LIMIT 1
abbrev pub select_text : {A : Type 0} → List (Column A) → Text → Text → Text → Text → Text
select_text cs table key value more =
    text "SELECT "
    ++ (names_of cs
        ++ (text " FROM "
            ++ (table
                ++ (text " WHERE "
                    ++ (key
                        ++ (text "='" ++ (value ++ (text "'" ++ (more ++ text " LIMIT 1")))))))))

-- The rows of a session that waits, status=0, and has not expired.
abbrev pub waiting_only : Text
waiting_only = text " AND status=0 AND expire_at > NOW()"

-- date is DATE_FORMAT.
module _ (date : ℕ → Text) where
  abbrev pub user_columns : List (Column Rows.UserInfo)
  user_columns =
      (text "id", λ r. some (to_string r.id))
      ∷ (text "user_id", λ r. some r.user_id)
      ∷ (text "username", λ r. some r.username)
      ∷ (text "password_hash", λ r. some r.password_hash)
      ∷ (text "IFNULL(email_hash, '')", λ r. some r.email_hash)
      ∷ (text "IFNULL(email_masked, '')", λ r. some r.email_masked)
      ∷ (text "IFNULL(id_card_hash,'')", λ r. some r.id_card_hash)
      ∷ (text "IFNULL(id_card_masked,'')", λ r. some r.id_card_masked)
      ∷ (text "real_auth_completed", λ r. some (to_string r.real_auth_completed))
      ∷ (text "user_type", λ r. some (to_string r.user_type))
      ∷ (text "status", λ r. some (to_string r.status))
      ∷ (text "DATE_FORMAT(last_login_at, '%Y-%m-%d %H:%i:%s')", λ r. some (date r.last_login_at))
      ∷ (text "DATE_FORMAT(created_at, '%Y-%m-%d %H:%i:%s')", λ r. some (date r.created_at))
      ∷ []

  abbrev pub order_columns : List (Column Rows.OrderInfo)
  order_columns =
      (text "id", λ r. some (to_string r.id))
      ∷ (text "order_sn", λ r. some r.order_sn)
      ∷ (text "account_id", λ r. some r.account_id)
      ∷ (text "buyer_id", λ r. some r.buyer_id)
      ∷ (text "price", λ r. some (to_string r.price))
      ∷ (text "buyer_email", λ r. some r.buyer_email)
      ∷ (text "buyer_id_card_hash", λ r. some r.buyer_id_card_hash)
      ∷ (text "buyer_id_card_masked", λ r. some r.buyer_id_card_masked)
      ∷ (text "status", λ r. some (to_string r.status))
      ∷ (text "DATE_FORMAT(create_time, '%Y-%m-%d %H:%i:%s')", λ r. some (date r.create_time))
      ∷ (text "IFNULL(DATE_FORMAT(paid_at, '%Y-%m-%d %H:%i:%s'), '')", λ r. some (date r.paid_at))
      ∷ (text "DATE_FORMAT(update_time, '%Y-%m-%d %H:%i:%s')", λ r. some (date r.update_time))
      ∷ []

  abbrev pub account_columns : List (Column Rows.AccountInfo)
  account_columns =
      (text "id", λ r. some (to_string r.id))
      ∷ (text "account_id", λ r. some r.account_id)
      ∷ (text "seller_id", λ r. some r.seller_id)
      ∷ (text "game_name", λ r. some r.game_name)
      ∷ (text "server_area", λ r. some r.server_area)
      ∷ (text "price", λ r. some (to_string r.price))
      ∷ (text "account_level", λ r. some (to_string r.account_level))
      ∷ (text "hero_count", λ r. some (to_string r.hero_count))
      ∷ (text "skin_count", λ r. some (to_string r.skin_count))
      ∷ (text "CAST(rare_items AS CHAR)", λ r. some r.rare_items)
      ∷ (text "status", λ r. some (to_string r.status))
      ∷ (text "version", λ r. some (to_string r.version))
      ∷ (text "DATE_FORMAT(created_at, '%Y-%m-%d %H:%i:%s')", λ r. some (date r.created_at))
      ∷ (text "DATE_FORMAT(updated_at, '%Y-%m-%d %H:%i:%s')", λ r. some (date r.updated_at))
      ∷ []

  abbrev pub payment_session_columns : List (Column Rows.PaymentSessionInfo)
  payment_session_columns =
      (text "id", λ r. some (to_string r.id))
      ∷ (text "payment_session_id", λ r. some r.payment_session_id)
      ∷ (text "order_sn", λ r. some r.order_sn)
      ∷ (text "account_id", λ r. some r.account_id)
      ∷ (text "buyer_id", λ r. some r.buyer_id)
      ∷ (text "buyer_email", λ r. some r.buyer_email)
      ∷ (text "status", λ r. some (to_string r.status))
      ∷ (text "DATE_FORMAT(expire_at, '%Y-%m-%d %H:%i:%s')", λ r. some (date r.expire_at))
      ∷ (text "DATE_FORMAT(created_at, '%Y-%m-%d %H:%i:%s')", λ r. some (date r.created_at))
      ∷ (text "DATE_FORMAT(updated_at, '%Y-%m-%d %H:%i:%s')", λ r. some (date r.updated_at))
      ∷ []

  abbrev pub payment_attempt_columns : List (Column Rows.PaymentAttemptInfo)
  payment_attempt_columns =
      (text "id", λ r. some (to_string r.id))
      ∷ (text "request_id", λ r. some r.request_id)
      ∷ (text "payment_session_id", λ r. some r.payment_session_id)
      ∷ (text "order_sn", λ r. some r.order_sn)
      ∷ (text "account_id", λ r. some r.account_id)
      ∷ (text "buyer_id", λ r. some r.buyer_id)
      ∷ (text "result", λ r. some (to_string r.result))
      ∷ (text "IFNULL(fail_reason,'')", λ r. some r.fail_reason)
      ∷ (text "IFNULL(client_ip,'')", λ r. some r.client_ip)
      ∷ (text "IFNULL(user_agent,'')", λ r. some r.user_agent)
      ∷ (text "DATE_FORMAT(created_at, '%Y-%m-%d %H:%i:%s')", λ r. some (date r.created_at))
      ∷ (text "DATE_FORMAT(updated_at, '%Y-%m-%d %H:%i:%s')", λ r. some (date r.updated_at))
      ∷ []

  pub shown_by-user_columns : (r : Rows.UserInfo) → shown_by user_columns r ≡ user_fields date r
  unfolding user_fields
  shown_by-user_columns r = refl

  pub shown_by-order_columns : (r : Rows.OrderInfo) → shown_by order_columns r ≡ order_fields date r
  unfolding order_fields
  shown_by-order_columns r = refl

  pub shown_by-account_columns :
      (r : Rows.AccountInfo) → shown_by account_columns r ≡ account_fields date r
  unfolding account_fields
  shown_by-account_columns r = refl

  pub shown_by-payment_session_columns :
      (r : Rows.PaymentSessionInfo)
      → shown_by payment_session_columns r ≡ payment_session_fields date r
  unfolding payment_session_fields
  shown_by-payment_session_columns r = refl

  pub shown_by-payment_attempt_columns :
      (r : Rows.PaymentAttemptInfo)
      → shown_by payment_attempt_columns r ≡ payment_attempt_fields date r
  unfolding payment_attempt_fields
  shown_by-payment_attempt_columns r = refl

  module _ (escape : Text → Text) (k : Text) where
    pub render-user_by_user_id :
        render escape (user_by_user_id k)
        ≡ select_text user_columns (text "users") (text "user_id") (escape k) []
    unfolding render user_by_user_id user_select_columns text to_string
    render-user_by_user_id = refl

    pub render-user_by_username :
        render escape (user_by_username k)
        ≡ select_text user_columns (text "users") (text "username") (escape k) []
    unfolding render user_by_username user_select_columns text to_string
    render-user_by_username = refl

    pub render-order_by_sn :
        render escape (order_by_sn k)
        ≡ select_text order_columns (text "orders") (text "order_sn") (escape k) []
    unfolding render order_by_sn order_select_columns text to_string
    render-order_by_sn = refl

    pub render-account_by_id :
        render escape (account_by_id k)
        ≡ select_text account_columns (text "accounts") (text "account_id") (escape k) []
    unfolding render account_by_id account_select_columns text to_string
    render-account_by_id = refl

    pub render-active_session_by_order_sn :
        render escape (active_session_by_order_sn k)
        ≡ select_text payment_session_columns
            (text "payment_sessions")
            (text "order_sn")
            (escape k)
            waiting_only
    unfolding render active_session_by_order_sn payment_session_select_columns text to_string
    render-active_session_by_order_sn = refl

    pub render-session_by_id :
        render escape (session_by_id k)
        ≡ select_text payment_session_columns
            (text "payment_sessions")
            (text "payment_session_id")
            (escape k)
            []
    unfolding render session_by_id payment_session_select_columns text to_string
    render-session_by_id = refl

    pub render-attempt_by_request_id :
        render escape (attempt_by_request_id k)
        ≡ select_text payment_attempt_columns
            (text "payment_attempts")
            (text "request_id")
            (escape k)
            []
    unfolding render attempt_by_request_id payment_attempt_select_columns text to_string
    render-attempt_by_request_id = refl
