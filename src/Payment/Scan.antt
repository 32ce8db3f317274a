-- ===== src/Payment/Scan.antt =====
-- backend/payment_impl.hpp: handlePaymentPage and handleAttemptInit, which the scanned page calls.
use paid_server.Base.{text, empty, [], ◌∷◌, if◌then◌else◌}
use paid_server.Database.Rows.{PaymentSessionInfo}
use paid_server.Database.Monad.{Result, ◌>>=◌}
use paid_server.Database.Queries.{
  get_order_by_sn, get_account_by_id, get_payment_session_by_id, create_payment_attempt_processing,
}
use paid_server.Strings.{header_value, query_param}
use paid_server.Interfaces.{JsonLib, Crypto}
use paid_server.Payment.World.{World, HttpRequest, HttpResponse, Config, on_db, make_request_id}
use paid_server.Payment.Replies.{
  found, parsed, verified, account_payable, order_payable, session_payable, deny, grant,
  parse_json_body, body_text, verify_token_now,
}

module _ (c : Crypto) (j : JsonLib) (cfg : Config) where
  show_page : PaymentSessionInfo → World → Result (HttpResponse j.Json) × World
  show_page session = do
    order ← on_db (get_order_by_sn session.order_sn)
    found order order_payable (deny j 409 40901 (text "订单不可支付")) λ o. do
      account ← on_db (get_account_by_id session.account_id)
      found account account_payable (deny j 409 40902 (text "账号不可交易")) λ a. grant j (
          (text "payment_session_id", j.string session.payment_session_id)
          ∷ (text "order_sn", j.string o.order_sn)
          ∷ (text "price", j.number o.price)
          ∷ (text "game_name", j.string a.game_name)
          ∷ (text "status", j.string (text "WAITING_PAY"))
          ∷ [])

  unfoldable pub handle_payment_page : HttpRequest → World → Result (HttpResponse j.Json) × World
  unfolding show_page
  handle_payment_page req =
      let token = query_param req.query (text "token") in
      if empty token then deny j 400 40001 (text "缺少 token") else do
        result ← verify_token_now j c cfg token
        verified result (λ e. deny j 401 40101 e)
            λ payload. do
              session ← on_db (get_payment_session_by_id payload.payment_session_id)
              found session session_payable (deny j 409 40903 (text "支付会话无效")) λ p. show_page p

  -- The new attempt of a session, for the request it came with.
  unfoldable pub open_attempt :
      HttpRequest → PaymentSessionInfo → World → Result (HttpResponse j.Json) × World
  open_attempt req session = do
    request_id ← make_request_id
    _ ← on_db (
        create_payment_attempt_processing (record {
          request_id = request_id;
          payment_session_id = session.payment_session_id;
          order_sn = session.order_sn;
          account_id = session.account_id;
          buyer_id = session.buyer_id;
          client_ip = header_value req.headers (text "X-Forwarded-For");
          user_agent = header_value req.headers (text "User-Agent");
        }))
    grant j ((text "request_id", j.string request_id) ∷ [])

  unfoldable pub init_attempt :
      HttpRequest → PaymentSessionInfo → World → Result (HttpResponse j.Json) × World
  unfolding open_attempt
  init_attempt req session = do
    order ← on_db (get_order_by_sn session.order_sn)
    found order order_payable (deny j 409 40901 (text "订单不可支付")) λ _. do
      account ← on_db (get_account_by_id session.account_id)
      found account account_payable (deny j 409 40903 (text "账号不可交易")) λ _. open_attempt req session

  unfoldable pub handle_attempt_init : HttpRequest → World → Result (HttpResponse j.Json) × World
  unfolding init_attempt
  handle_attempt_init req =
      parsed (parse_json_body j req) (deny j 400 40001 (text "请求体 JSON 非法")) λ body. do
        qr_token ← body_text j body (text "qr_token")
        if empty qr_token then deny j 400 40001 (text "缺少 qr_token") else do
          result ← verify_token_now j c cfg qr_token
          verified result (λ e. deny j 401 40102 e)
              λ payload. do
                session ← on_db (get_payment_session_by_id payload.payment_session_id)
                found session session_payable (deny j 409 40911 (text "支付会话无效"))
                    λ p. init_attempt req p
