-- ===== src/Database/Parse/Server.antt =====
-- backend/common/mysql_pool.hpp: what a server is to answer to the statements of the queries.
use mathlib.Core.Option
use paid_server.Base.{ℕ, ◌≡◌, Text, text, List, [], ◌∷◌, Option, none, some, All}
use paid_server.Database.Monad.{Result, ok, State}
use paid_server.Results.{◌>>=◌}
use paid_server.Database.Rows.{Tables}
use paid_server.Database.Tables.{first}
use paid_server.Database.Queries.{
  has_user_id, has_username, has_order_sn, has_account_id, has_session_id, has_request_id,
  is_active,
}
use paid_server.Database.Parse.{Answer, rows}
use paid_server.Database.Parse.Fields.{IsUser, IsOrder, IsAccount, IsSession, IsAttempt}
use paid_server.Database.Parse.Columns.{
  select_text, shown_by, waiting_only, user_columns, order_columns, account_columns,
  payment_session_columns, payment_attempt_columns,
}

-- The answer of a SELECT … LIMIT 1.
abbrev pub reply : {A : Type 0} → (A → List (Option Text)) → Option A → Answer
reply fields none = rows []
reply fields (some a) = rows (fields a ∷ [])

-- The server answers a SELECT over the columns of a table, for the row with a key, with what it shows of
-- that row in these columns, in their order.
pub record IsServer (escape : Text → Text) (date : ℕ → Text) (server : Text → Answer) (s : State)
    : Type 0 where
  pub by_user_id :
      (k : Text)
      → server (select_text (user_columns date) (text "users") (text "user_id") (escape k) [])
        ≡ reply (shown_by (user_columns date)) (first (has_user_id k) s.tables.users)
  pub by_username :
      (k : Text)
      → server (select_text (user_columns date) (text "users") (text "username") (escape k) [])
        ≡ reply (shown_by (user_columns date)) (first (has_username k) s.tables.users)
  pub by_order_sn :
      (k : Text)
      → server (select_text (order_columns date) (text "orders") (text "order_sn") (escape k) [])
        ≡ reply (shown_by (order_columns date)) (first (has_order_sn k) s.tables.orders)
  pub by_account_id :
      (k : Text)
      → server
          (select_text (account_columns date) (text "accounts") (text "account_id") (escape k) [])
        ≡ reply (shown_by (account_columns date)) (first (has_account_id k) s.tables.accounts)
  pub by_active_order :
      (k : Text)
      → server (
          select_text
            (payment_session_columns date)
            (text "payment_sessions")
            (text "order_sn")
            (escape k)
            waiting_only)
        ≡ reply
            (shown_by (payment_session_columns date))
            (first (is_active k s.now) s.tables.sessions)
  pub by_session_id :
      (k : Text)
      → server (
          select_text
            (payment_session_columns date)
            (text "payment_sessions")
            (text "payment_session_id")
            (escape k)
            [])
        ≡ reply
            (shown_by (payment_session_columns date))
            (first (has_session_id k) s.tables.sessions)
  pub by_request_id :
      (k : Text)
      → server (
          select_text
            (payment_attempt_columns date)
            (text "payment_attempts")
            (text "request_id")
            (escape k)
            [])
        ≡ reply
            (shown_by (payment_attempt_columns date))
            (first (has_request_id k) s.tables.attempts)

-- The rows are within the bounds of the types of their columns.
pub record IsInBounds (t : Tables) : Type 0 where
  pub users : All IsUser t.users
  pub orders : All IsOrder t.orders
  pub accounts : All IsAccount t.accounts
  pub sessions : All IsSession t.sessions
  pub attempts : All IsAttempt t.attempts

-- The result of a query, as it is shown.
abbrev pub shown : {A B : Type 0} → (A → B) → Result (Option A) → Result (Option B)
shown f r = r >>= λ o. ok (Option.map f o)
