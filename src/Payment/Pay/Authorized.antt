-- ===== src/Payment/Pay/Authorized.antt =====
-- What handlePay may do, and for whom: a payment, or a notification, only for a request whose token,
-- attempt, session and password belong together.
use paid_server.Base.{ℕ, ◌≡◌, ◌⊎◌, inl, Text, true, false, List, ◌∷◌, some, ◌==◌}
use paid_server.Database.Rows.{
  UserInfo, OrderInfo, AccountInfo, PaymentSessionInfo, PaymentAttemptInfo, PaymentFinalizeInput,
  Tables, is_normal,
}
use paid_server.Database.Monad.{ok}
use paid_server.Database.Tables.{first}
use paid_server.Database.Queries.{
  has_user_id, has_order_sn, has_account_id, has_session_id, has_request_id,
}
use paid_server.Database.Finalize.{proceed}
use paid_server.Database.Finalize.Checks.{decide}
use paid_server.Database.Finalize.Outcome.{paid_tables}
use paid_server.Interfaces.{Crypto, JsonLib}
use paid_server.Jwt.{JwtService, PaymentQrPayload, valid, make_service, verify_payment_qr_token}
use paid_server.Identity.{verify_login_password_with_hash}
use paid_server.Payment.World.{World, Config}
use paid_server.Payment.Steps.{Idle, Untouched, Untouched-refl, Kept}
use paid_server.Payment.Pay.{PayRequest, finalize_input}

module _ (c : Crypto) (j : JsonLib) (cfg : Config) (r : PayRequest) where
  -- At the time `clock`, the token is valid for the session.
  pub record IsPresented (clock : ℕ) (session_id : Text) : Type 0 where
    pub service : JwtService
    pub configured :
        make_service cfg.jwt_algorithm cfg.jwt_secret cfg.qr_token_ttl_seconds
          cfg.clock_skew_seconds
        ≡ ok service
    pub payload : PaymentQrPayload
    pub token : verify_payment_qr_token c j service r.qr_token clock ≡ valid payload
    pub named : payload.payment_session_id ≡ session_id

  -- The attempt is processing, and made in the session.
  pub record IsOpen (t : Tables) (session : PaymentSessionInfo) : Type 0 where
    pub attempt : PaymentAttemptInfo
    pub stored : first (has_request_id r.request_id) t.attempts ≡ some attempt
    pub not_paid : attempt.result == 1 ≡ false
    pub not_failed : attempt.result == 2 ≡ false
    pub bound : attempt.payment_session_id ≡ session.payment_session_id

  -- The password is the buyer's.
  pub record IsBuyer (t : Tables) (buyer_id : Text) : Type 0 where
    pub user : UserInfo
    pub stored : first (has_user_id buyer_id) t.users ≡ some user
    pub normal : is_normal user ≡ true
    pub password :
        verify_login_password_with_hash c r.login_password user.password_hash cfg.password_secret
        ≡ true

  -- What is paid is the session that the token names, in the attempt that the request names, by the
  -- user who made it.
  pub record IsAuthorized (t : Tables) (clock : ℕ) (i : PaymentFinalizeInput) : Type 0 where
    pub session : PaymentSessionInfo
    pub session_id : Text
    pub stored : first (has_session_id session_id) t.sessions ≡ some session
    pub presented : IsPresented clock session_id
    pub open_attempt : IsOpen t session
    pub buyer : IsBuyer t session.buyer_id
    pub order : OrderInfo
    pub account : AccountInfo
    pub input : i ≡ finalize_input session order account r.request_id
    pub ordered : first (has_order_sn session.order_sn) t.orders ≡ some order
    pub on_offer : first (has_account_id session.account_id) t.accounts ≡ some account

  module _ (t : Tables) (n clock : ℕ) (log : List (Text × Text)) where
    -- The tables are those of a payment, but for the attempts, and at most this is announced.
    pub record Paid (w : World) : Type 0 where
      pub input : PaymentFinalizeInput
      pub authorized : IsAuthorized t clock input
      pub checks : decide input t ≡ proceed
      pub rows : Untouched (paid_tables input n t) w.db.tables
      pub announced :
          (w.notified ≡ log) ⊎ (w.notified ≡ (input.payment_session_id, input.order_sn) ∷ log)

    abbrev pub Outcome : World → Type 0
    Outcome w = Kept t log w ⊎ Paid w

    pub Idle-Outcome : (w : World) → Idle t n clock log w → Outcome w
    Idle-Outcome w h =
        inl (record { rows = rw h.db.tables (Untouched-refl t); log_kept = h.log_kept })
