-- ===== src/Payment/Replies.antt =====
-- backend/payment_impl.hpp: the answers, and the checks that several handlers begin with.
use paid_server.Base.{ℕ, Text, empty, Bool, List, [], Option, none, some, ◌==◌, ◌||◌, if◌then◌else◌}
use paid_server.Database.Rows.{
  OrderInfo, AccountInfo, PaymentSessionInfo, AccountStatus, OrderStatus, PaymentSessionStatus,
  account_status, order_status, session_status,
}
use paid_server.Database.Monad.{Result, ok, throws, pure, ◌>>=◌}
use paid_server.Interfaces.{JsonLib, Crypto}
use paid_server.Jwt.{
  JwtService, PaymentQrPayload, PaymentQrVerifyResult, valid, invalid, make_service,
  verify_payment_qr_token, issue_payment_qr_token,
}
use paid_server.Payment.World.{
  World, HttpRequest, HttpResponse, Envelope, Config, lift, read, secure_nonce_hex,
}

-- if (!x.has_value() || !test(*x)) { return early; }
abbrev pub found : {A B : Type 0} → Option A → (A → Bool) → B → (A → B) → B
found none test early go = early
found (some a) test early go = if test a then go a else early

-- if (!x.has_value()) { return early; }
abbrev pub present : {A B : Type 0} → Option A → B → (A → B) → B
present none early go = early
present (some a) early go = go a

-- if (!parseJsonBody(req, body, error)) { return early; }
abbrev pub parsed : {A B : Type 0} → Result A → B → (A → B) → B
parsed (throws e) early go = early
parsed (ok body) early go = go body

-- if (!verified.valid) { return early; }
abbrev pub verified : {B : Type 0} → PaymentQrVerifyResult → (Text → B) → (PaymentQrPayload → B) → B
verified (invalid e) early go = early e
verified (valid payload) early go = go payload

unfoldable pub account_payable : AccountInfo → Bool
account_payable a =
    a.status == account_status AccountStatus.on_sale
    || a.status == account_status AccountStatus.trading

unfoldable pub order_payable : OrderInfo → Bool
order_payable o = o.status == order_status OrderStatus.pending_pay

unfoldable pub session_payable : PaymentSessionInfo → Bool
session_payable p = p.status == session_status PaymentSessionStatus.waiting_pay

-- JwtService::fromConfig.
unfoldable pub service_from_config : Config → World → Result JwtService × World
service_from_config cfg =
    lift (
      make_service cfg.jwt_algorithm cfg.jwt_secret cfg.qr_token_ttl_seconds cfg.clock_skew_seconds)

module _ (j : JsonLib) where
  abbrev pub make_ok : j.Json → Envelope j.Json
  make_ok content = record { code = 0; message = []; content = content }

  abbrev pub make_err : ℕ → Text → Envelope j.Json
  make_err code message = record { code = code; message = message; content = j.object [] }

  abbrev pub respond : ℕ → Envelope j.Json → HttpResponse j.Json
  respond http_status envelope = record {
    http_status = http_status;
    envelope = envelope;
    extra_headers = [];
  }

  -- respond(status, makeErr(code, message))
  abbrev pub deny : ℕ → ℕ → Text → World → Result (HttpResponse j.Json) × World
  deny http_status code message = pure (respond http_status (make_err code message))

  -- respond(200, makeOk(content))
  abbrev pub grant : List (Text × j.Json) → World → Result (HttpResponse j.Json) × World
  grant fields = pure (respond 200 (make_ok (j.object fields)))

  unfoldable pub parse_json_body : HttpRequest → Result j.Json
  parse_json_body req = if empty req.body then ok (j.object []) else j.parse req.body

  -- body.value(key, "")
  abbrev pub body_text : j.Json → Text → World → Result Text × World
  body_text body key = lift (j.value_text body key [])

  module _ (c : Crypto) where
    -- verifyPaymentQrToken of the service of the configuration, by the clock.
    unfoldable pub verify_token_now : Config → Text → World → Result PaymentQrVerifyResult × World
    unfolding service_from_config
    verify_token_now cfg token = do
      service ← service_from_config cfg
      read (λ w. verify_payment_qr_token c j service token w.clock)

    -- issuePaymentQrToken, by the clock and with a fresh nonce.
    unfoldable pub issue_token_now : JwtService → Text → World → Result Text × World
    issue_token_now service session_id = do
      now ← read (λ w. w.clock)
      nonce ← secure_nonce_hex
      lift (issue_payment_qr_token c j service session_id now nonce)
