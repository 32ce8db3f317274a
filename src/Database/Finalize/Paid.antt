-- ===== src/Database/Finalize/Paid.antt =====
-- The rows after a payment, seen through lookups, and that they stay.
use paid_server.Base.{ℕ, suc, ◌≡◌, refl, ◌≢◌, Text, true, false, [], some, arith, same, same_iff}
use paid_server.Database.Rows.{PaymentFinalizeInput, Tables}
use paid_server.Database.Tables.{first, first-holds, first-update_hit, first-update_miss}
use paid_server.Database.Queries.{has_order_sn, has_account_id, has_session_id, has_request_id}
use paid_server.Database.Finalize.Outcome.{paid_tables}
use paid_server.Database.Finalize.Payable.{IsPayable}

module _ (i : PaymentFinalizeInput) (n : ℕ) (t t' : Tables) where
  -- The four rows are paid, sold, paid and successful; every other row is as it was.
  pub record IsPaid (p : IsPayable i t) : Type 0 where
    pub users : t'.users ≡ t.users
    pub order :
        first (has_order_sn i.order_sn) t'.orders
        ≡ some (record (p.order.0) { status = 1; paid_at = n; update_time = n })
    pub account :
        first (has_account_id i.account_id) t'.accounts
        ≡ some (record (p.account.0) {
          status = 2;
          version = suc (p.account.0).version;
          updated_at = n;
        })
    pub session :
        first (has_session_id i.payment_session_id) t'.sessions
        ≡ some (record (p.session.0) { status = 1; updated_at = n })
    pub attempt :
        first (has_request_id i.request_id) t'.attempts
        ≡ some (record (p.attempt.0) { result = 1; fail_reason = []; updated_at = n })
    pub other_orders :
        (k : Text)
        → k ≢ i.order_sn
        → first (has_order_sn k) t'.orders ≡ first (has_order_sn k) t.orders
    pub other_accounts :
        (k : Text)
        → k ≢ i.account_id
        → first (has_account_id k) t'.accounts ≡ first (has_account_id k) t.accounts
    pub other_sessions :
        (k : Text)
        → k ≢ i.payment_session_id
        → first (has_session_id k) t'.sessions ≡ first (has_session_id k) t.sessions
    pub other_attempts :
        (k : Text)
        → k ≢ i.request_id
        → first (has_request_id k) t'.attempts ≡ first (has_request_id k) t.attempts

abbrev Different : Text → Text → Text → Type 0
Different a k j = (k ≢ j) → same a k ≡ true → same a j ≡ false

Different_lem : (a k j : Text) → Different a k j
Different_lem a k j = ground (arith, same_iff a k, same_iff a j)

-- The four updates, on payable tables whose attempt is processing: the order is paid, the account
-- sold with its version raised, the session paid, the attempt successful; users and all other rows
-- are as before.
pub paid_tables-IsPaid :
    (i : PaymentFinalizeInput) (n : ℕ) (t : Tables) (p : IsPayable i t)
    → (p.attempt.0).result ≡ 0
    → IsPaid i n t (paid_tables i n t) p
paid_tables-IsPaid i n t p e = record {
  users = refl;
  order =
      first-update_hit (has_order_sn i.order_sn) _ _ t.orders (λ _. refl) p.order.1
        (ground (arith, first-holds (has_order_sn i.order_sn) t.orders p.order.1));
  account =
      first-update_hit (has_account_id i.account_id) _ _ t.accounts (λ _. refl) p.account.1
        (ground (arith, first-holds (has_account_id i.account_id) t.accounts p.account.1));
  session =
      first-update_hit (has_session_id i.payment_session_id) _ _ t.sessions (λ _. refl) p.session.1
        (ground (arith, first-holds (has_session_id i.payment_session_id) t.sessions p.session.1));
  attempt =
      first-update_hit (has_request_id i.request_id) _ _ t.attempts (λ _. refl) p.attempt.1
        (ground (arith, first-holds (has_request_id i.request_id) t.attempts p.attempt.1));
  other_orders = λ k d.
      first-update_miss (has_order_sn k) _ _ t.orders (λ _. refl)
        (λ y h. ground (arith, Different_lem y.order_sn k i.order_sn));
  other_accounts = λ k d.
      first-update_miss (has_account_id k) _ _ t.accounts (λ _. refl)
        (λ y h. ground (arith, Different_lem y.account_id k i.account_id));
  other_sessions = λ k d.
      first-update_miss (has_session_id k) _ _ t.sessions (λ _. refl)
        (λ y h. ground (arith, Different_lem y.payment_session_id k i.payment_session_id));
  other_attempts = λ k d.
      first-update_miss (has_request_id k) _ _ t.attempts (λ _. refl)
        (λ y h. ground (arith, Different_lem y.request_id k i.request_id));
}
