-- ===== src/Payment/Orders.antt =====
-- backend/payment_impl.hpp: handleGetOrder and handleConfirm.
use paid_server.Base.{
  Text, text, empty, same, false, not, List, [], ◌∷◌, ◌++◌, Option, none, some, ◌||◌, if◌then◌else◌,
  drop, length,
}
use paid_server.Database.Rows.{
  UserInfo, OrderInfo, AccountInfo, PaymentSessionInfo, is_normal, is_real_auth_completed,
}
use paid_server.Database.Monad.{Result, pure, ◌>>=◌}
use paid_server.Database.Queries.{
  get_user_by_user_id, get_order_by_sn, get_account_by_id, get_active_payment_session_by_order_sn,
  create_payment_session,
}
use paid_server.Strings.{header_value, to_string}
use paid_server.Interfaces.{JsonLib, Crypto}
use paid_server.Payment.World.{
  World, HttpRequest, HttpResponse, Config, lift, on_db, make_payment_session_id,
}
use paid_server.Payment.Replies.{
  found, present, parsed, account_payable, order_payable, service_from_config, deny, grant,
  parse_json_body, body_text, issue_token_now,
}

module _ (c : Crypto) (j : JsonLib) (cfg : Config) where
  unfoldable pub extract_order_sn : Text → Text
  extract_order_sn path = drop (length (text "/api/payment/orders/")) path

  order_fields : OrderInfo → AccountInfo → List (Text × j.Json)
  order_fields order account =
      (text "order_sn", j.string order.order_sn)
      ∷ (text "price", j.number order.price)
      ∷ (text "status", j.number order.status)
      ∷ (text "account_id", j.string order.account_id)
      ∷ (
        text "account",
        j.object (
            (text "account_id", j.string account.account_id)
            ∷ (text "game_name", j.string account.game_name)
            ∷ (text "server_area", j.string account.server_area)
            ∷ (text "price", j.number account.price)
            ∷ (text "account_level", j.number account.account_level)
            ∷ (text "status", j.number account.status)
            ∷ []),
      )
      ∷ []

  show_order : OrderInfo → World → Result (HttpResponse j.Json) × World
  unfolding order_fields
  show_order order = do
    account ← on_db (get_account_by_id order.account_id)
    present account (deny j 404 40402 (text "账号不存在")) λ a. grant j (order_fields order a)

  unfoldable pub handle_get_order : HttpRequest → World → Result (HttpResponse j.Json) × World
  unfolding show_order extract_order_sn
  handle_get_order req =
      let user_id = header_value req.headers (text "X-User-Id") in
      if empty user_id then deny j 400 40001 (text "缺少 X-User-Id") else do
        order ← on_db (get_order_by_sn (extract_order_sn req.path))
        present order (deny j 404 40401 (text "订单不存在")) λ o.
            if not (same o.buyer_id user_id) then deny j 404 40401 (text "订单不存在") else show_order o

  -- The session to pay in: the active one of the order, or a new one.
  session_id_for :
      UserInfo → OrderInfo → Text → Text → Option PaymentSessionInfo → World → Result Text × World
  session_id_for user order order_sn user_id (some session) = pure session.payment_session_id
  session_id_for user order order_sn user_id none = do
    payment_session_id ← make_payment_session_id
    _ ← on_db (
        create_payment_session (record {
          payment_session_id = payment_session_id;
          order_sn = order_sn;
          account_id = order.account_id;
          buyer_id = user_id;
          buyer_contact_masked = user.email_masked;
          ttl_seconds = cfg.payment_session_ttl_seconds;
        }))
    pure payment_session_id

  host_and_port : Text
  host_and_port = cfg.nginx_host ++ text ":" ++ to_string cfg.nginx_port

  confirm_fields : Text → Text → List (Text × j.Json)
  unfolding host_and_port
  confirm_fields payment_session_id qr_token =
      (text "payment_session_id", j.string payment_session_id)
      ∷ (
        text "qr_payload",
        j.string
            (text "http://" ++ host_and_port ++ cfg.scan_page_path ++ text "?token=" ++ qr_token),
      )
      ∷ (
        text "websocket_url",
        j.string (
            text "ws://"
            ++ host_and_port
            ++ text "/ws/payment?payment_session_id="
            ++ payment_session_id),
      )
      ∷ []

  -- The part of handleConfirm behind its checks.
  open_payment : UserInfo → OrderInfo → Text → Text → World → Result (HttpResponse j.Json) × World
  unfolding session_id_for confirm_fields
  open_payment user order order_sn user_id = do
    service ← service_from_config cfg
    session ← on_db (get_active_payment_session_by_order_sn order_sn)
    payment_session_id ← session_id_for user order order_sn user_id session
    qr_token ← issue_token_now j c service payment_session_id
    grant j (confirm_fields payment_session_id qr_token)

  -- The checks of the order and its account.
  confirm_order : UserInfo → Text → Text → World → Result (HttpResponse j.Json) × World
  unfolding open_payment
  confirm_order user order_sn user_id = do
    order ← on_db (get_order_by_sn order_sn)
    found order (λ o. same o.buyer_id user_id) (deny j 404 40401 (text "订单不存在或归属不匹配"))
        λ o. if not (order_payable o) then deny j 409 40901 (text "订单不可支付") else do
          account ← on_db (get_account_by_id o.account_id)
          found account account_payable (deny j 409 40903 (text "账号不可交易"))
              λ _. open_payment user o order_sn user_id

  confirm : Text → Text → World → Result (HttpResponse j.Json) × World
  unfolding confirm_order
  confirm order_sn user_id = do
    user ← on_db (get_user_by_user_id user_id)
    found user is_normal (deny j 403 40301 (text "用户状态异常")) λ u.
        if not (is_real_auth_completed u)
        then deny j 409 40910 (text "用户未补全邮箱号或身份证号")
        else confirm_order u order_sn user_id

  unfoldable pub handle_confirm : HttpRequest → World → Result (HttpResponse j.Json) × World
  unfolding confirm
  handle_confirm req =
      let user_id = header_value req.headers (text "X-User-Id") in
      if empty user_id
      then deny j 400 40001 (text "缺少 X-User-Id")
      else parsed (parse_json_body j req) (deny j 400 40001 (text "请求体 JSON 非法")) λ body. do
        order_sn ← body_text j body (text "order_sn")
        agreement_checked ← lift (j.value_bool body (text "agreement_checked") false)
        if empty order_sn || not agreement_checked
            then deny j 400 40001 (text "参数不完整或未勾选协议")
            else confirm order_sn user_id
