-- ===== src/Database/Statements/Locks.antt =====
-- backend/common/mysql_pool.hpp: the statements of finalizePaymentSuccess.
use paid_server.Base.{text, [], ◌∷◌, ◌++◌}
use paid_server.Database.Rows.{PaymentFinalizeInput}
use paid_server.Database.Statements.{Statement, raw, escaped}

unfoldable pub session_lock : PaymentFinalizeInput → Statement
session_lock input =
    raw (
      text "SELECT payment_session_id, order_sn, account_id, buyer_id, status, expire_at "
      ++ text "FROM payment_sessions WHERE payment_session_id='")
    ∷ escaped input.payment_session_id
    ∷ raw (text "' FOR UPDATE")
    ∷ []

unfoldable pub order_lock : PaymentFinalizeInput → Statement
order_lock input =
    raw (text "SELECT status, account_id, buyer_id, price FROM orders WHERE order_sn='")
    ∷ escaped input.order_sn
    ∷ raw (text "' FOR UPDATE")
    ∷ []

unfoldable pub account_lock : PaymentFinalizeInput → Statement
account_lock input =
    raw (text "SELECT status, version FROM accounts WHERE account_id='")
    ∷ escaped input.account_id
    ∷ raw (text "' FOR UPDATE")
    ∷ []

unfoldable pub attempt_lock : PaymentFinalizeInput → Statement
attempt_lock input =
    raw (
      text "SELECT result, payment_session_id, order_sn, account_id, buyer_id "
      ++ text "FROM payment_attempts WHERE request_id='")
    ∷ escaped input.request_id
    ∷ raw (text "' FOR UPDATE")
    ∷ []

unfoldable pub buyer_select : PaymentFinalizeInput → Statement
buyer_select input =
    raw (
      text
        "SELECT status, real_auth_completed, email_hash, IFNULL(id_card_hash,'') FROM users WHERE user_id='")
    ∷ escaped input.buyer_id
    ∷ raw (text "' LIMIT 1")
    ∷ []

unfoldable pub order_paid : PaymentFinalizeInput → Statement
order_paid input =
    raw (text "UPDATE orders SET status=1, paid_at=NOW(), update_time=NOW() WHERE order_sn='")
    ∷ escaped input.order_sn
    ∷ raw (text "' AND status=0")
    ∷ []

unfoldable pub account_sold : PaymentFinalizeInput → Statement
account_sold input =
    raw
      (text "UPDATE accounts SET status=2, version=version+1, updated_at=NOW() WHERE account_id='")
    ∷ escaped input.account_id
    ∷ raw (text "' AND status IN (0,1)")
    ∷ []

unfoldable pub session_paid : PaymentFinalizeInput → Statement
session_paid input =
    raw (text "UPDATE payment_sessions SET status=1, updated_at=NOW() WHERE payment_session_id='")
    ∷ escaped input.payment_session_id
    ∷ raw (text "' AND status=0")
    ∷ []

unfoldable pub attempt_success : PaymentFinalizeInput → Statement
attempt_success input =
    raw (
      text
        "UPDATE payment_attempts SET result=1, fail_reason=NULL, updated_at=NOW() WHERE request_id='")
    ∷ escaped input.request_id
    ∷ raw (text "' AND result=0")
    ∷ []
