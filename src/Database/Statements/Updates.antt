-- ===== src/Database/Statements/Updates.antt =====
-- backend/common/mysql_pool.hpp: the statements of the single updates of MySqlPool.
use paid_server.Base.{Text, text, [], ◌∷◌, ◌++◌}
use paid_server.Database.Rows.{
  UserRealAuthUpdate, CreatePaymentSessionInput, CreatePaymentAttemptInput, PaymentSessionStatus,
  PaymentAttemptResult, session_status, attempt_result,
}
use paid_server.Database.Statements.{Statement, raw, escaped, number, nullable_string}

unfoldable pub update_profile : UserRealAuthUpdate → Statement
update_profile input =
    raw (text "UPDATE users SET email_hash='")
    ∷ escaped input.email_hash
    ∷ raw (text "', email_masked='")
    ∷ escaped input.email_masked
    ∷ raw (text "', id_card_hash='")
    ∷ escaped input.id_card_hash
    ∷ raw (text "', id_card_masked='")
    ∷ escaped input.id_card_masked
    ∷ raw (text "', real_auth_completed=1 WHERE user_id='")
    ∷ escaped input.user_id
    ∷ raw (text "'")
    ∷ []

unfoldable pub insert_session : CreatePaymentSessionInput → Statement
insert_session input =
    raw (
      text "INSERT INTO payment_sessions "
      ++ text
          "(payment_session_id, order_sn, account_id, buyer_id, buyer_email, status, expire_at, "
      ++ text "created_at, updated_at) VALUES ('")
    ∷ escaped input.payment_session_id
    ∷ raw (text "','")
    ∷ escaped input.order_sn
    ∷ raw (text "','")
    ∷ escaped input.account_id
    ∷ raw (text "','")
    ∷ escaped input.buyer_id
    ∷ raw (text "','")
    ∷ escaped input.buyer_contact_masked
    ∷ raw (text "',")
    ∷ number (session_status PaymentSessionStatus.waiting_pay)
    ∷ raw (text ", DATE_ADD(NOW(), INTERVAL ")
    ∷ number input.ttl_seconds
    ∷ raw (text " SECOND), NOW(), NOW())")
    ∷ []

unfoldable pub insert_attempt : CreatePaymentAttemptInput → Statement
insert_attempt input =
    raw (
      text "INSERT INTO payment_attempts "
      ++ text
          "(request_id, payment_session_id, order_sn, account_id, buyer_id, result, fail_reason, client_ip, "
      ++ text "user_agent, created_at, updated_at) VALUES ('")
    ∷ escaped input.request_id
    ∷ raw (text "','")
    ∷ escaped input.payment_session_id
    ∷ raw (text "','")
    ∷ escaped input.order_sn
    ∷ raw (text "','")
    ∷ escaped input.account_id
    ∷ raw (text "','")
    ∷ escaped input.buyer_id
    ∷ raw (text "',")
    ∷ number (attempt_result PaymentAttemptResult.processing)
    ∷ raw (text ", NULL, '")
    ∷ escaped input.client_ip
    ∷ raw (text "','")
    ∷ escaped input.user_agent
    ∷ raw (text "', NOW(), NOW())")
    ∷ []

unfoldable pub update_result : Text → PaymentAttemptResult → Text → Statement
unfolding nullable_string
update_result request_id result fail_reason =
    raw (text "UPDATE payment_attempts SET result=")
    ∷ number (attempt_result result)
    ∷ raw (text ", fail_reason=")
    ∷ nullable_string fail_reason (
        raw (text ", updated_at=NOW() WHERE request_id='")
        ∷ escaped request_id
        ∷ raw (text "'")
        ∷ [])

unfoldable pub expire_sessions : Statement
expire_sessions =
    raw (text "UPDATE payment_sessions SET status=")
    ∷ number (session_status PaymentSessionStatus.expired)
    ∷ raw (text ", updated_at=NOW() WHERE status=")
    ∷ number (session_status PaymentSessionStatus.waiting_pay)
    ∷ raw (text " AND expire_at <= NOW()")
    ∷ []
