-- ===== src/Payment/Pay.antt =====
-- backend/payment_impl.hpp: handlePay.
pub mod Authorized
pub mod Announced
pub mod Guarded
use paid_server.Base.{
  Option, ℕ, Text, text, empty, same, Bool, true, false, not, [], ◌∷◌, ◌==◌, ◌||◌, if◌then◌else◌,
}
use paid_server.Database.Rows.{
  OrderInfo, AccountInfo, PaymentSessionInfo, PaymentAttemptInfo, PaymentFinalizeInput,
  PaymentAttemptResult, attempt_result, is_normal,
}
use paid_server.Database.Monad.{Result, ◌>>=◌, ◌>>◌}
use paid_server.Database.Queries.{
  get_user_by_user_id, get_order_by_sn, get_account_by_id, get_payment_session_by_id,
  get_payment_attempt_by_request_id, update_payment_attempt_result,
}
use paid_server.Database.Finalize.{finalize_payment_success}
use paid_server.Interfaces.{JsonLib, Crypto}
use paid_server.Jwt.{PaymentQrVerifyResult}
use paid_server.Identity.{verify_login_password_with_hash}
use paid_server.Payment.World.{World, HttpRequest, HttpResponse, Config, on_db, submit_notification}
use paid_server.Payment.Replies.{
  found, present, parsed, verified, account_payable, order_payable, session_payable, deny, grant,
  parse_json_body, body_text, verify_token_now,
}

-- What the body of a payment request holds.
pub record PayRequest : Type 0 where
  pub request_id : Text
  pub qr_token : Text
  pub login_password : Text

-- The result of the update is ignored; its exception is not.
abbrev pub set_attempt : Text → PaymentAttemptResult → Text → World → Result Bool × World
set_attempt request_id result reason =
    on_db (update_payment_attempt_result request_id result reason)

abbrev pub finalize_input :
    PaymentSessionInfo → OrderInfo → AccountInfo → Text → PaymentFinalizeInput
finalize_input session order account request_id = record {
  payment_session_id = session.payment_session_id;
  order_sn = order.order_sn;
  account_id = account.account_id;
  buyer_id = session.buyer_id;
  price = order.price;
  request_id = request_id;
}

module _ (c : Crypto) (j : JsonLib) (cfg : Config) where
  -- Marks the attempt as failed, and answers so.
  abbrev pub fail : Text → Text → ℕ → ℕ → Text → World → Result (HttpResponse j.Json) × World
  fail request_id reason http_status code message = do
    _ ← set_attempt request_id PaymentAttemptResult.failed reason
    deny j http_status code message

  abbrev pub paid_answer : Text → World → Result (HttpResponse j.Json) × World
  paid_answer request_id = grant j (
      (text "payment_status", j.string (text "PAID"))
      ∷ (text "request_id", j.string request_id)
      ∷ [])

  -- What follows a finalizePaymentSuccess that returned.
  unfoldable pub announce :
      PaymentFinalizeInput → Bool → World → Result (HttpResponse j.Json) × World
  announce i false = fail i.request_id (text "FINALIZE_TXN_FAILED") 409 40904 (text "支付事务失败")
  announce i true = do
    _ ← set_attempt i.request_id PaymentAttemptResult.success []
    submit_notification i.payment_session_id i.order_sn
    paid_answer i.request_id

  unfoldable pub pay_user :
      PayRequest
      → PaymentSessionInfo
      → OrderInfo
      → AccountInfo
      → World
      → Result (HttpResponse j.Json) × World
  pay_user r session order account = do
    user ← on_db (get_user_by_user_id session.buyer_id)
    found user is_normal (fail r.request_id (text "USER_INVALID") 403 40301 (text "用户状态异常")) λ u.
        if not
          (verify_login_password_with_hash c r.login_password u.password_hash cfg.password_secret)
        then fail r.request_id (text "PASSWORD_INVALID") 401 40104 (text "支付密码错误")
        else do
          finalized ←
              on_db (finalize_payment_success (finalize_input session order account r.request_id))
          announce (finalize_input session order account r.request_id) finalized

  unfoldable pub pay_session :
      PayRequest → PaymentSessionInfo → World → Result (HttpResponse j.Json) × World
  unfolding pay_user
  pay_session r session = do
    order ← on_db (get_order_by_sn session.order_sn)
    found order order_payable
        (fail r.request_id (text "ORDER_NOT_PAYABLE") 409 40901 (text "订单不可支付"))
        λ o. do
          account ← on_db (get_account_by_id session.account_id)
          found account account_payable
              (fail r.request_id (text "ACCOUNT_NOT_PAYABLE") 409 40903 (text "账号不可交易"))
              λ a. pay_user r session o a

  -- The checks of the session that the token names.
  unfoldable pub check_session :
      PayRequest
      → PaymentAttemptInfo
      → PaymentQrVerifyResult
      → World
      → Result (HttpResponse j.Json) × World
  unfolding pay_session
  check_session r attempt result =
      verified result (λ e. fail r.request_id (text "INVALID_QR_TOKEN") 401 40102 e)
        λ payload. do
          session ← on_db (get_payment_session_by_id payload.payment_session_id)
          found session session_payable
              (fail r.request_id (text "SESSION_INVALID") 409 40905 (text "支付会话无效"))
              λ p.
                if not (same attempt.payment_session_id p.payment_session_id)
                then fail r.request_id (text "SESSION_MISMATCH") 409 40905 (text "支付会话不匹配")
                else pay_session r p

  -- The checks of the token, for an attempt that is still processing.
  unfoldable pub pay_attempt :
      PayRequest → PaymentAttemptInfo → World → Result (HttpResponse j.Json) × World
  unfolding check_session
  pay_attempt r attempt = do
    result ← verify_token_now j c cfg r.qr_token
    check_session r attempt result

  -- What follows the look-up of the attempt.
  unfoldable pub pay_found :
      PayRequest → Option PaymentAttemptInfo → World → Result (HttpResponse j.Json) × World
  unfolding pay_attempt
  pay_found r attempt = present attempt (deny j 404 40404 (text "支付尝试不存在")) λ a.
      if a.result == attempt_result PaymentAttemptResult.success
      then paid_answer r.request_id
      else if a.result == attempt_result PaymentAttemptResult.failed
      then deny j 409 40904 (if empty a.fail_reason then text "支付已失败" else a.fail_reason)
      else pay_attempt r a

  unfoldable pub pay : PayRequest → World → Result (HttpResponse j.Json) × World
  unfolding pay_found
  pay r = do attempt ← on_db (get_payment_attempt_by_request_id r.request_id); pay_found r attempt

  unfoldable pub handle_pay : HttpRequest → World → Result (HttpResponse j.Json) × World
  unfolding pay
  handle_pay req = parsed (parse_json_body j req) (deny j 400 40001 (text "请求体 JSON 非法")) λ body. do
    request_id ← body_text j body (text "request_id")
    qr_token ← body_text j body (text "qr_token")
    login_password ← body_text j body (text "login_password")
    if empty request_id || empty qr_token || empty login_password
        then deny j 400 40001 (text "参数不完整")
        else pay (record {
          request_id = request_id;
          qr_token = qr_token;
          login_password = login_password;
        })
