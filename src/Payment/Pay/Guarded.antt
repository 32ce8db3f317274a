-- ===== src/Payment/Pay/Guarded.antt =====
-- The calls of handlePay, one after another, up to the theorem on the whole.
use paid_server.Base.{
  ℕ, ◌≡◌, refl, ap, ◌∙◌, sym, ◌⊎◌, Text, same, same_iff, false, not, List, Option, none, some, ◌==◌,
  arith,
}
use paid_server.Database.Rows.{
  OrderInfo, AccountInfo, PaymentSessionInfo, PaymentAttemptInfo, Tables, is_normal,
}
use paid_server.Database.Monad.{Result, ok, throws, continue}
use paid_server.Database.Tables.{first}
use paid_server.Database.Queries.{has_order_sn, has_account_id, has_session_id, has_request_id}
use paid_server.Database.Ends.{Ends, continue-Ends, ended, either_way}
use paid_server.Database.Finalize.{finalize_payment_success}
use paid_server.Database.Finalize.Outcome.{finalize_payment_success-Ends}
use paid_server.Interfaces.{Crypto, JsonLib}
use paid_server.Jwt.{
  JwtService, PaymentQrVerifyResult, valid, invalid, make_service, verify_payment_qr_token,
}
use paid_server.Identity.{verify_login_password_with_hash}
use paid_server.Payment.World.{World, Config, read}
use paid_server.Payment.Replies.{
  verify_token_now, service_from_config, session_payable, order_payable, account_payable,
}
use paid_server.Payment.Steps.{
  Idle, Kept, on_db-Ends, on_db-Reads, if-Ends, found-Ends, get_user_by_user_id-Reads,
  get_order_by_sn-Reads, get_account_by_id-Reads, get_payment_session_by_id-Reads,
  get_payment_attempt_by_request_id-Reads,
}
use paid_server.Payment.Pay.{
  PayRequest, finalize_input, pay_user, pay_session, check_session, pay_attempt, pay_found, pay,
}
use paid_server.Payment.Pay.Authorized.{IsPresented, IsOpen, Paid}
use paid_server.Payment.Pay.Announced.{Allowed, Idle-Allowed, refuse, announce-Ends}

module _ (c : Crypto) (j : JsonLib) (cfg : Config) (r : PayRequest) where
  module _ (t : Tables) (n clock : ℕ) (log : List (Text × Text)) where
    pay_user-Ends :
        (session : PaymentSessionInfo) (session_id : Text) (order : OrderInfo)
        (account : AccountInfo) (w : World)
        → first (has_session_id session_id) t.sessions ≡ some session
        → IsPresented c j cfg r clock session_id
        → IsOpen c j cfg r t session
        → first (has_order_sn session.order_sn) t.orders ≡ some order
        → first (has_account_id session.account_id) t.accounts ≡ some account
        → Idle t n clock log w
        → Ends
            (λ _. Allowed c j cfg r t n clock log)
            (Allowed c j cfg r t n clock log)
            (pay_user c j cfg r session order account w)
    unfolding pay_user
    pay_user-Ends session session_id order account w e pr op eo ea h =
        continue-Ends _ _ _ _ _ _
          (on_db-Reads t n clock log _ _ w (get_user_by_user_id-Reads session.buyer_id) h)
          (λ user w' (q, h').
            found-Ends (Allowed c j cfg r t n clock log) user is_normal _ _ w'
              (refuse c j cfg r t n clock log _ _ _ _ w' h')
              λ u eu normal.
                if-Ends (Allowed c j cfg r t n clock log)
                  (not (
                    verify_login_password_with_hash c r.login_password u.password_hash
                      cfg.password_secret))
                  _ _ w' (λ _. refuse c j cfg r t n clock log _ _ _ _ w' h')
                  λ right.
                    continue-Ends _ _ _ _ _ _
                      (on_db-Ends t n clock log _ _
                        (finalize_payment_success
                          (finalize_input session order account r.request_id))
                        w' h'
                        (finalize_payment_success-Ends
                          (finalize_input session order account r.request_id) t n w'.db h'.db))
                      (λ b w₂ ((o, effect), (k, l)).
                        announce-Ends c j cfg r t n clock log
                          (finalize_input session order account r.request_id) b w₂ refl
                          (record {
                            session = session;
                            session_id = session_id;
                            stored = e;
                            presented = pr;
                            open_attempt = op;
                            buyer = record {
                              user = u;
                              stored = sym q ∙ eu;
                              normal = normal;
                              password = ground arith;
                            };
                            order = order;
                            account = account;
                            input = refl;
                            ordered = eo;
                            on_offer = ea;
                          })
                          o effect l)
                      (λ w₂ (o, (k, l)).
                        Idle-Allowed c j cfg r t n clock log w₂
                          (record { db = o; clock_kept = k; log_kept = l })))
          (Idle-Allowed c j cfg r t n clock log)

    pay_session-Ends :
        (session : PaymentSessionInfo) (session_id : Text) (w : World)
        → first (has_session_id session_id) t.sessions ≡ some session
        → IsPresented c j cfg r clock session_id
        → IsOpen c j cfg r t session
        → Idle t n clock log w
        → Ends
            (λ _. Allowed c j cfg r t n clock log)
            (Allowed c j cfg r t n clock log)
            (pay_session c j cfg r session w)
    unfolding pay_session
    pay_session-Ends session session_id w e pr op h =
        continue-Ends _ _ _ _ _ _
          (on_db-Reads t n clock log _ _ w (get_order_by_sn-Reads session.order_sn) h)
          (λ order w₁ (q, h₁).
            found-Ends (Allowed c j cfg r t n clock log) order order_payable _ _ w₁
              (refuse c j cfg r t n clock log _ _ _ _ w₁ h₁)
              λ o eo _.
                continue-Ends _ _ _ _ _ _
                  (on_db-Reads t n clock log _ _ w₁ (get_account_by_id-Reads session.account_id) h₁)
                  (λ account w₂ (q', h₂).
                    found-Ends (Allowed c j cfg r t n clock log) account account_payable _ _ w₂
                      (refuse c j cfg r t n clock log _ _ _ _ w₂ h₂)
                      λ a ea _.
                        pay_user-Ends session session_id o a w₂ e pr op (sym q ∙ eo) (sym q' ∙ ea)
                          h₂)
                  (Idle-Allowed c j cfg r t n clock log))
          (Idle-Allowed c j cfg r t n clock log)

    verified-Ends :
        (attempt : PaymentAttemptInfo) (service : JwtService) (w : World)
        → first (has_request_id r.request_id) t.attempts ≡ some attempt
        → attempt.result == 1 ≡ false
        → attempt.result == 2 ≡ false
        → make_service cfg.jwt_algorithm cfg.jwt_secret cfg.qr_token_ttl_seconds
            cfg.clock_skew_seconds
          ≡ ok service
        → Idle t n clock log w
        → (result : PaymentQrVerifyResult)
        → verify_payment_qr_token c j service r.qr_token clock ≡ result
        → Ends
            (λ _. Allowed c j cfg r t n clock log)
            (Allowed c j cfg r t n clock log)
            (check_session c j cfg r attempt result w)
    unfolding check_session
    verified-Ends attempt service w e p f es h (invalid x) v =
        refuse c j cfg r t n clock log _ _ _ _ w h
    verified-Ends attempt service w e p f es h (valid payload) v =
        continue-Ends _ _ _ _ _ _
          (on_db-Reads t n clock log _ _ w
            (get_payment_session_by_id-Reads payload.payment_session_id) h)
          (λ session w₁ (q, h₁).
            found-Ends (Allowed c j cfg r t n clock log) session session_payable _ _ w₁
              (refuse c j cfg r t n clock log _ _ _ _ w₁ h₁)
              λ s eq _.
                if-Ends (Allowed c j cfg r t n clock log)
                  (not (same attempt.payment_session_id s.payment_session_id)) _ _ w₁
                  (λ _. refuse c j cfg r t n clock log _ _ _ _ w₁ h₁)
                  λ bound.
                    pay_session-Ends s payload.payment_session_id w₁ (sym q ∙ eq)
                      (record {
                        service = service;
                        configured = es;
                        payload = payload;
                        token = v;
                        named = refl;
                      })
                      (record {
                        attempt = attempt;
                        stored = e;
                        not_paid = p;
                        not_failed = f;
                        bound =
                            ground
                              (arith, same_iff attempt.payment_session_id s.payment_session_id);
                      })
                      h₁)
          (Idle-Allowed c j cfg r t n clock log)

    configured-Ends :
        (attempt : PaymentAttemptInfo) (w : World)
        → first (has_request_id r.request_id) t.attempts ≡ some attempt
        → attempt.result == 1 ≡ false
        → attempt.result == 2 ≡ false
        → Idle t n clock log w
        → (m : Result JwtService)
        → make_service cfg.jwt_algorithm cfg.jwt_secret cfg.qr_token_ttl_seconds
            cfg.clock_skew_seconds
          ≡ m
        → Ends
            (λ _. Allowed c j cfg r t n clock log)
            (Allowed c j cfg r t n clock log)
            (continue
              (continue
                (m, w)
                (λ service. read (λ w'. verify_payment_qr_token c j service r.qr_token w'.clock)))
              (λ result. check_session c j cfg r attempt result))
    unfolding Ends
    configured-Ends attempt w e p f h (throws x) q = Idle-Allowed c j cfg r t n clock log w h
    configured-Ends attempt w e p f h (ok service) q =
        verified-Ends attempt service w e p f q h
          (verify_payment_qr_token c j service r.qr_token w.clock)
          (ap (verify_payment_qr_token c j service r.qr_token) (sym h.clock_kept))

    attempt-Ends :
        (w : World) (attempt : Option PaymentAttemptInfo)
        → attempt ≡ first (has_request_id r.request_id) t.attempts
        → Idle t n clock log w
        → Ends
            (λ _. Allowed c j cfg r t n clock log)
            (Allowed c j cfg r t n clock log)
            (pay_found c j cfg r attempt w)
    unfolding pay_found pay_attempt verify_token_now service_from_config
    attempt-Ends w none q h = ended _ _ (Idle-Allowed c j cfg r t n clock log w h)
    attempt-Ends w (some a) q h =
        if-Ends (Allowed c j cfg r t n clock log) (a.result == 1) _ _ w
          (λ _. ended _ _ (Idle-Allowed c j cfg r t n clock log w h))
          λ p.
            if-Ends (Allowed c j cfg r t n clock log) (a.result == 2) _ _ w
              (λ _. ended _ _ (Idle-Allowed c j cfg r t n clock log w h))
              λ f. configured-Ends a w (sym q) p f h _ refl

    pay-Ends :
        (w : World)
        → Idle t n clock log w
        → Ends
            (λ _. Allowed c j cfg r t n clock log)
            (Allowed c j cfg r t n clock log)
            (pay c j cfg r w)
    unfolding pay
    pay-Ends w h =
        continue-Ends _ _ _ _ _ _
          (on_db-Reads t n clock log _ _ w (get_payment_attempt_by_request_id-Reads r.request_id) h)
          (λ attempt w' (q, h'). attempt-Ends w' attempt q h')
          (Idle-Allowed c j cfg r t n clock log)

-- Where no reply of the database is lost, and whatever else fails, a payment request either leaves
-- the users, orders, accounts and sessions as they were and announces nothing, or is authorised:
-- it carries a token that is valid by the clock for a session, an attempt at that session that is
-- neither paid nor failed, and the password of the session's buyer, a normal user. Then the tables
-- are those of the payment of that session, but for the attempts, all the checks of
-- finalizePaymentSuccess hold, and what is announced, if anything, is that payment.
pub pay-Paid :
    (c : Crypto) (j : JsonLib) (cfg : Config) (r : PayRequest) (t : Tables) (n clock : ℕ)
    (log : List (Text × Text)) (w : World)
    → Idle t n clock log w
    → Kept t log (pay c j cfg r w).1 ⊎ Paid c j cfg r t n clock log (pay c j cfg r w).1
pay-Paid c j cfg r t n clock log w h = either_way _ _ (pay-Ends c j cfg r t n clock log w h)
