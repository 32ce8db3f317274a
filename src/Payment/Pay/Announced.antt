-- ===== src/Payment/Pay/Announced.antt =====
-- handlePay's failures, and what follows a finalizePaymentSuccess that returned.
use paid_server.Base.{ℕ, ◌≡◌, ap, ◌∙◌, inl, inr, Text, Bool, true, false, List, [], ◌∷◌, arith}
use paid_server.Database.Rows.{
  PaymentSessionInfo, PaymentFinalizeInput, PaymentAttemptResult, Tables,
}
use paid_server.Database.Ends.{Ends, Outside, continue-Ends, ended}
use paid_server.Database.Finalize.{
  proceed, duplicate, session_verdict, order_verdict, account_verdict, attempt_verdict,
  user_verdict,
}
use paid_server.Database.Finalize.Checks.{decide}
use paid_server.Database.Finalize.Outcome.{paid_tables, Effect}
use paid_server.Interfaces.{Crypto, JsonLib}
use paid_server.Payment.World.{World, Config, submit_notification}
use paid_server.Payment.Steps.{Idle, Kept, update-Kept}
use paid_server.Payment.Pay.{PayRequest, fail, announce}
use paid_server.Payment.Pay.Authorized.{IsOpen, IsAuthorized, Outcome, Idle-Outcome}

module _ (c : Crypto) (j : JsonLib) (cfg : Config) (r : PayRequest) where
  module _ (t : Tables) (n clock : ℕ) (log : List (Text × Text)) where
    abbrev pub Allowed : World → Type 0
    Allowed = Outcome c j cfg r t n clock log

    pub Idle-Allowed : (w : World) → Idle t n clock log w → Allowed w
    Idle-Allowed = Idle-Outcome c j cfg r t n clock log

    fail-Ends :
        (P : World → Type 0) (reason message : Text) (http_status code : ℕ) (w : World)
        → Outside w.db.tables n w.db
        → ((w' : World) → Kept w.db.tables w.notified w' → P w')
        → Ends (λ _. P) P (fail c j cfg r.request_id reason http_status code message w)
    fail-Ends P reason message http_status code w h k =
        continue-Ends _ _ _ _ _ _
          (update-Kept r.request_id PaymentAttemptResult.failed reason n w h)
          (λ _ w' e. ended _ _ (k w' e)) k

    Kept-Allowed :
        (w w' : World) → Idle t n clock log w → Kept w.db.tables w.notified w' → Allowed w'
    Kept-Allowed w w' h k = inl (ground arith)

    Idle-Outside : (w : World) → Idle t n clock log w → Outside w.db.tables n w.db
    Idle-Outside w h = ground arith

    pub refuse :
        (reason message : Text) (http_status code : ℕ) (w : World)
        → Idle t n clock log w
        → Ends (λ _. Allowed) Allowed (fail c j cfg r.request_id reason http_status code message w)
    refuse reason message http_status code w h =
        fail-Ends Allowed reason message http_status code w (Idle-Outside w h)
          (λ w' k. Kept-Allowed w w' h k)

    not_duplicate :
        (i : PaymentFinalizeInput) (p : PaymentSessionInfo)
        → i.request_id ≡ r.request_id
        → IsOpen c j cfg r t p
        → ¬ (decide i t ≡ duplicate)
    unfolding session_verdict order_verdict account_verdict attempt_verdict user_verdict
    not_duplicate i p e o d = ground arith

    announced :
        (i : PaymentFinalizeInput) (w w' : World)
        → IsAuthorized c j cfg r t clock i
        → decide i t ≡ proceed
        → w.db.tables ≡ paid_tables i n t
        → Kept w.db.tables w.notified w'
        → w.notified ≡ log
        → Allowed (submit_notification i.payment_session_id i.order_sn w').1
    unfolding submit_notification
    announced i w w' a d e k l = inr (record {
      input = i;
      authorized = a;
      checks = d;
      rows = rw (← e) k.rows;
      announced = inr (ap (λ x. (i.payment_session_id, i.order_sn) ∷ x) (k.log_kept ∙ l));
    })

    pub announce-Ends :
        (i : PaymentFinalizeInput) (b : Bool) (w : World)
        → i.request_id ≡ r.request_id
        → IsAuthorized c j cfg r t clock i
        → Outside w.db.tables n w.db
        → Effect i t n b w.db.tables
        → w.notified ≡ log
        → Ends (λ _. Allowed) Allowed (announce c j cfg i b w)
    unfolding announce submit_notification
    announce-Ends i false w id a h e l =
        rw id (fail-Ends Allowed _ _ _ _ w h (λ w' k. inl (rejected w' e k)))
      where
        rejected :
            (w' : World)
            → Effect i t n false w.db.tables
            → Kept w.db.tables w.notified w'
            → Kept t log w'
        rejected w' (inl e) k = ground arith
        rejected w' (inr (_, e)) k = ground arith
    announce-Ends i true w id a h (inl (d, _)) l =
        elim (not_duplicate i a.session id a.open_attempt d) [ ]
    announce-Ends i true w id a h (inr (d, _, e)) l =
        continue-Ends _ _ _ _ _ _ (update-Kept i.request_id PaymentAttemptResult.success [] n w h)
          (λ _ w' k. ended _ _ (announced i w w' a d e k l))
          (λ w' k. inr (record {
            input = i;
            authorized = a;
            checks = d;
            rows = rw (← e) k.rows;
            announced = inl (k.log_kept ∙ l);
          }))
