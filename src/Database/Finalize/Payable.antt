-- ===== src/Database/Finalize/Payable.antt =====
-- When the checks of finalizePaymentSuccess pass, stated on the rows.
use paid_server.Base.{◌≡◌, refl, ◌≢◌, ◌↔◌, ◌⊎◌, Text, [], Option, none, some, arith, same_iff}
use paid_server.Database.Rows.{
  PaymentFinalizeInput, Tables, UserInfo, OrderInfo, AccountInfo, PaymentSessionInfo,
  PaymentAttemptInfo,
}
use paid_server.Database.Tables.{first, AtMostOne, first-holds, count_one}
use paid_server.Database.Queries.{
  has_user_id, has_order_sn, has_account_id, has_session_id, has_request_id,
}
use paid_server.Database.Finalize.{
  proceed, session_verdict, order_verdict, account_verdict, attempt_verdict, user_verdict,
}
use paid_server.Database.Finalize.Checks.{decide}
use paid_server.Database.Finalize.Outcome.{OneEach}

-- The UNIQUE keys of the schema.
pub record IsKeyed (t : Tables) : Type 0 where
  pub user : (k : Text) → AtMostOne (has_user_id k) t.users
  pub order : (k : Text) → AtMostOne (has_order_sn k) t.orders
  pub account : (k : Text) → AtMostOne (has_account_id k) t.accounts
  pub session : (k : Text) → AtMostOne (has_session_id k) t.sessions
  pub attempt : (k : Text) → AtMostOne (has_request_id k) t.attempts

module _ (i : PaymentFinalizeInput) where
  -- A waiting session that is bound to the order, the account and the buyer.
  pub record SessionOk (p : PaymentSessionInfo) : Type 0 where
    pub order : p.order_sn ≡ i.order_sn
    pub account : p.account_id ≡ i.account_id
    pub buyer : p.buyer_id ≡ i.buyer_id
    pub waiting : p.status ≡ 0

  -- A pending order with the account, the buyer and the price that the caller saw.
  pub record OrderOk (o : OrderInfo) : Type 0 where
    pub pending : o.status ≡ 0
    pub account : o.account_id ≡ i.account_id
    pub buyer : o.buyer_id ≡ i.buyer_id
    pub price : o.price ≡ i.price

  -- On sale, or held by a trade.
  abbrev pub AccountOk : AccountInfo → Type 0
  AccountOk a = (a.status ≡ 0) ⊎ (a.status ≡ 1)

  -- Neither successful nor failed, and bound to the same payment.
  pub record AttemptOk (a : PaymentAttemptInfo) : Type 0 where
    pub unsettled : (a.result ≢ 1) × (a.result ≢ 2)
    pub session : a.payment_session_id ≡ i.payment_session_id
    pub order : a.order_sn ≡ i.order_sn
    pub account : a.account_id ≡ i.account_id
    pub buyer : a.buyer_id ≡ i.buyer_id

  -- A normal user with a completed real-name authentication.
  pub record UserOk (u : UserInfo) : Type 0 where
    pub normal : u.status ≡ 0
    pub completed : u.real_auth_completed ≡ 1
    pub email : u.email_hash ≢ []
    pub id_card : u.id_card_hash ≢ []

  pub record IsPayable (t : Tables) : Type 0 where
    pub session :
        (p : PaymentSessionInfo) × (first (has_session_id i.payment_session_id) t.sessions ≡ some p)
        × SessionOk p
    pub order : (o : OrderInfo) × (first (has_order_sn i.order_sn) t.orders ≡ some o) × OrderOk o
    pub account :
        (a : AccountInfo) × (first (has_account_id i.account_id) t.accounts ≡ some a) × AccountOk a
    pub attempt :
        (a : PaymentAttemptInfo) × (first (has_request_id i.request_id) t.attempts ≡ some a)
        × AttemptOk a
    pub user : (u : UserInfo) × (first (has_user_id i.buyer_id) t.users ≡ some u) × UserOk u

  pub session_verdict_iff :
      (o : Option PaymentSessionInfo)
      → (session_verdict i o ≡ proceed) ↔ ((p : PaymentSessionInfo) × (o ≡ some p) × SessionOk p)
  unfolding session_verdict
  session_verdict_iff none = (λ e. cc, λ (p, e, _). cc)
  session_verdict_iff (some p) = (
    λ e. (
      p,
      refl,
      ground (
        arith,
        same_iff p.order_sn i.order_sn,
        same_iff p.account_id i.account_id,
        same_iff p.buyer_id i.buyer_id,
      ),
    ),
    λ (q, e, k). ground (
      arith,
      same_iff p.order_sn i.order_sn,
      same_iff p.account_id i.account_id,
      same_iff p.buyer_id i.buyer_id,
    ),
  )

  pub order_verdict_iff :
      (o : Option OrderInfo)
      → (order_verdict i o ≡ proceed) ↔ ((p : OrderInfo) × (o ≡ some p) × OrderOk p)
  unfolding order_verdict
  order_verdict_iff none = (λ e. cc, λ (p, e, _). cc)
  order_verdict_iff (some p) = (
    λ e. (
      p,
      refl,
      ground (arith, same_iff p.account_id i.account_id, same_iff p.buyer_id i.buyer_id),
    ),
    λ (q, e, k). ground (arith, same_iff p.account_id i.account_id, same_iff p.buyer_id i.buyer_id),
  )

  pub account_verdict_iff :
      (o : Option AccountInfo)
      → (account_verdict o ≡ proceed) ↔ ((p : AccountInfo) × (o ≡ some p) × AccountOk p)
  unfolding account_verdict
  account_verdict_iff none = (λ e. cc, λ (p, e, _). cc)
  account_verdict_iff (some p) = (λ e. (p, refl, ground arith), λ (q, e, k). ground arith)

  pub attempt_verdict_iff :
      (o : Option PaymentAttemptInfo)
      → (attempt_verdict i o ≡ proceed) ↔ ((p : PaymentAttemptInfo) × (o ≡ some p) × AttemptOk p)
  unfolding attempt_verdict
  attempt_verdict_iff none = (λ e. cc, λ (p, e, _). cc)
  attempt_verdict_iff (some p) = (
    λ e. (
      p,
      refl,
      ground (
        arith,
        same_iff p.payment_session_id i.payment_session_id,
        same_iff p.order_sn i.order_sn,
        same_iff p.account_id i.account_id,
        same_iff p.buyer_id i.buyer_id,
      ),
    ),
    λ (q, e, k). ground (
      arith,
      same_iff p.payment_session_id i.payment_session_id,
      same_iff p.order_sn i.order_sn,
      same_iff p.account_id i.account_id,
      same_iff p.buyer_id i.buyer_id,
    ),
  )

  pub user_verdict_iff :
      (o : Option UserInfo)
      → (user_verdict o ≡ proceed) ↔ ((p : UserInfo) × (o ≡ some p) × UserOk p)
  unfolding user_verdict
  user_verdict_iff none = (λ e. cc, λ (p, e, _). cc)
  user_verdict_iff (some p) = (λ e. (p, refl, ground arith), λ (q, e, k). ground arith)

  abbrev Found : {A : Type 0} → Option A → (A → Type 0) → Type 0
  Found {A} o P = (a : A) × (o ≡ some a) × P a

  decide_parts :
      (t : Tables)
      → (decide i t ≡ proceed) ↔ (
          (session_verdict i (first (has_session_id i.payment_session_id) t.sessions) ≡ proceed)
          × (order_verdict i (first (has_order_sn i.order_sn) t.orders) ≡ proceed)
          × (account_verdict (first (has_account_id i.account_id) t.accounts) ≡ proceed)
          × (attempt_verdict i (first (has_request_id i.request_id) t.attempts) ≡ proceed)
          × (user_verdict (first (has_user_id i.buyer_id) t.users) ≡ proceed))
  decide_parts t = ground arith

  -- The five checks let a payment proceed exactly when the session is waiting and bound to the order,
  -- the account and the buyer, the order is pending at the same price, account and buyer, the
  -- account is on sale or trading, the attempt is unsettled and bound to the same payment, and the
  -- buyer is a normal user with a completed identity.
  pub decide-eq-proceed_iff : (t : Tables) → (decide i t ≡ proceed) ↔ IsPayable t
  decide-eq-proceed_iff t = (
    λ e.
        let (a, b, c, d, u) = (decide_parts t).0 e in
        record {
          session = (session_verdict_iff _).0 a;
          order = (order_verdict_iff _).0 b;
          account = (account_verdict_iff _).0 c;
          attempt = (attempt_verdict_iff _).0 d;
          user = (user_verdict_iff _).0 u;
        },
    λ p. (decide_parts t).1 (
      (session_verdict_iff _).1 p.session,
      (order_verdict_iff _).1 p.order,
      (account_verdict_iff _).1 p.account,
      (attempt_verdict_iff _).1 p.attempt,
      (user_verdict_iff _).1 p.user,
    ),
  )

  -- With unique keys, each update of payable tables hits exactly one row.
  pub IsPayable-OneEach :
      (t : Tables) → IsKeyed t → (p : IsPayable t) → (p.attempt.0).result ≡ 0 → OneEach i t
  IsPayable-OneEach t k p e = record {
    order =
        count_one (has_order_sn i.order_sn) _ t.orders (λ y h. ground arith) (k.order _) p.order.1
          (ground (arith, first-holds (has_order_sn i.order_sn) t.orders p.order.1));
    account =
        count_one (has_account_id i.account_id) _ t.accounts (λ y h. ground arith) (k.account _)
          p.account.1
          (ground (arith, first-holds (has_account_id i.account_id) t.accounts p.account.1));
    session =
        count_one (has_session_id i.payment_session_id) _ t.sessions (λ y h. ground arith)
          (k.session _) p.session.1
          (ground
            (arith, first-holds (has_session_id i.payment_session_id) t.sessions p.session.1));
    attempt =
        count_one (has_request_id i.request_id) _ t.attempts (λ y h. ground arith) (k.attempt _)
          p.attempt.1
          (ground (arith, first-holds (has_request_id i.request_id) t.attempts p.attempt.1));
  }
