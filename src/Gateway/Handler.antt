-- ===== src/Gateway/Handler.antt =====
-- gateway/gateway_impl.hpp: which requests the gateway answers, and which it forwards as whom.
use paid_server.Base.{
  ℕ, Text, text, empty, same, Bool, not, List, [], ◌∷◌, Option, none, some, ◌&&◌, ◌||◌,
  if◌then◌else◌,
}
use paid_server.Base.Map.{put, text_eq}
use paid_server.Database.Monad.{Result, ok, throws, pure, ◌>>=◌, try_catch}
use paid_server.Strings.{Headers, header_value, cookie_value, starts_with}
use paid_server.Interfaces.{JsonLib}
use paid_server.Gateway.Forwarder.{ForwardRequest}

pub record HttpRequest : Type 0 where
  pub method : Text
  pub path : Text
  pub query : Text
  pub headers : Headers
  pub body : Text
  pub client_ip : Text

pub record HttpResponse : Type 0 where
  pub http_status : ℕ
  pub body : Text
  pub extra_headers : List (Text × Text)

-- paymentBackend().ip and paymentNginx().ip.
pub record Sources : Type 0 where
  pub backend_ip : Text
  pub nginx_ip : Text

unfoldable pub requires_auth : Text → Text → Bool
requires_auth method path =
    same method (text "GET") && starts_with (text "/api/payment/orders/") path
    || same method (text "POST") && same path (text "/api/payment/confirm")
    || same method (text "POST") && same path (text "/api/users/real-auth/complete")

unfoldable pub is_forward_api : Text → Bool
is_forward_api path =
    starts_with (text "/api/payment/") path
    || starts_with (text "/api/auth/") path
    || same path (text "/api/users/real-auth/complete")

-- if (!value.empty()) headers[key] = value;
abbrev set_header : Text → Text → Headers → Headers
set_header key value headers = if empty value then headers else put key value headers

unfoldable pub client_address : Headers → Text
client_address headers =
    let forwarded = header_value headers (text "X-Forwarded-For") in
    if empty forwarded then header_value headers (text "X-Real-IP") else forwarded

unfoldable pub to_forward_request : HttpRequest → ForwardRequest
unfolding client_address
to_forward_request request = record {
  method = request.method;
  path = request.path;
  query = request.query;
  body = request.body;
  headers = set_header (text "User-Agent") (header_value request.headers (text "User-Agent")) (
      set_header (text "X-Forwarded-For") (client_address request.headers) (
        set_header (text "Cookie") (header_value request.headers (text "Cookie")) (
          set_header (text "Content-Type") (header_value request.headers (text "Content-Type"))
            [])));
}

unfoldable pub session_of : HttpRequest → Text
session_of request = cookie_value (header_value request.headers (text "Cookie")) (text "session_id")

unfoldable pub is_trusted : Sources → HttpRequest → Bool
is_trusted sources request =
    same request.client_ip sources.backend_ip || same request.client_ip sources.nginx_ip

unfoldable pub is_result : HttpRequest → Bool
is_result request =
    same request.method (text "POST") && same request.path (text "/internal/payment/result")

-- What the gateway calls: SessionStore::userIdOf, forwardToBackend and WsRegistry::push.
pub record Services (W : Type 0) : Type 0 where
  pub user_id_of : Text → W → Result (Option Text) × W
  pub forward_to_backend : ForwardRequest → Text → W → Result HttpResponse × W
  pub push : Text → Text → W → Result Bool × W

module _ (j : JsonLib) where
  envelope : ℕ → Text → j.Json
  envelope code message = j.object (
      (text "code", j.number code)
      ∷ (text "message", j.string message)
      ∷ (text "data", j.object [])
      ∷ [])

  -- respondJson(http_status, makeErr(code, message)), which is makeOk() for code 0 and no message.
  unfoldable pub reply : {W : Type 0} → ℕ → ℕ → Text → W → Result HttpResponse × W
  unfolding envelope
  reply http_status code message = pure (record {
    http_status = http_status;
    body = j.dump (envelope code message);
    extra_headers = [];
  })

  abbrev field : {W : Type 0} → j.Json → Text → W → Result Text × W
  field body key w = (j.value_text body key [], w)

  result_message : Text → Text → Text → Text → Text
  result_message session_id order_sn status message = j.dump (
      j.object (
        (text "type", j.string (text "PAYMENT_RESULT"))
        ∷ (text "payment_session_id", j.string session_id)
        ∷ (text "order_sn", j.string order_sn)
        ∷ (text "payment_status", j.string status)
        ∷ (text "message", j.string message)
        ∷ []))

  module _ {W : Type 0} (services : Services W) (sources : Sources) where
    push_result : Result j.Json → W → Result HttpResponse × W
    unfolding reply result_message
    push_result (throws e) = reply 400 40000 (text "请求体不是合法 JSON")
    push_result (ok body) = do
      session_id ← field body (text "payment_session_id")
      order_sn ← field body (text "order_sn")
      if empty session_id then reply 400 40000 (text "payment_session_id 不能为空") else do
        status ← field body (text "payment_status")
        message ← field body (text "message")
        pushed ← services.push session_id (result_message session_id order_sn status message)
        if not pushed then reply 500 50003 (text "WebSocket 推送失败") else reply 200 0 []

    unfoldable pub handle_payment_result : HttpRequest → W → Result HttpResponse × W
    unfolding push_result reply
    handle_payment_result request =
        if not (same request.client_ip sources.backend_ip)
        then reply 403 40302 (text "仅允许后端调用")
        else push_result (j.parse request.body)

    unfoldable pub forward_request : HttpRequest → Text → W → Result HttpResponse × W
    forward_request request user_id =
        services.forward_to_backend (to_forward_request request) user_id

    -- What follows the look-up of the login session.
    unfoldable pub as_user : HttpRequest → Option Text → W → Result HttpResponse × W
    unfolding reply forward_request
    as_user request none = reply 401 40101 (text "登录态无效")
    as_user request (some user_id) = forward_request request user_id

    unfoldable pub authenticated : HttpRequest → W → Result HttpResponse × W
    unfolding session_of as_user reply
    authenticated request =
        if empty (session_of request)
        then reply 401 40101 (text "登录态无效")
        else try_catch (do user ← services.user_id_of (session_of request); as_user request user)
            (λ _. reply 503 50002 (text "登录态服务暂不可用"))

    unfoldable pub handle_request : HttpRequest → W → Result HttpResponse × W
    unfolding is_trusted is_result handle_payment_result reply authenticated forward_request
    handle_request request =
        if not (is_trusted sources request)
        then reply 403 40302 (text "调用来源非法")
        else if is_result request
        then handle_payment_result request
        else if not (is_forward_api request.path)
        then reply 404 40400 (text "接口不存在")
        else if requires_auth request.method request.path
        then authenticated request
        else forward_request request []
