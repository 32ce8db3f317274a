-- ===== src/Database/Finalize.antt =====
-- backend/common/mysql_pool.hpp: finalizePaymentSuccess and markAttemptFailedNoThrow. The checks
-- on the locked rows give a verdict, in the order of the source; `settle` acts on it.
pub mod Checks
pub mod Once
pub mod Outcome
pub mod Paid
pub mod Payable
pub mod Progress
use paid_server.Base.{
  ℕ, suc, Text, text, empty, same, Bool, true, false, not, [], Option, none, some, ◌==◌, ◌&&◌, ◌||◌,
  if◌then◌else◌,
}
use paid_server.Database.Rows.{
  UserInfo, OrderInfo, AccountInfo, PaymentSessionInfo, PaymentAttemptInfo, PaymentFinalizeInput,
  Tables, UserStatus, OrderStatus, AccountStatus, PaymentSessionStatus, PaymentAttemptResult,
  user_status, order_status, account_status, session_status, attempt_result,
}
use paid_server.Database.Monad.{
  Result, ok, State, pure, ◌>>=◌, ◌>>◌, try_catch, acquire, select, execute_affected, begin, commit,
  rollback,
}
use paid_server.Database.Tables.{first, update, count}
use paid_server.Database.Queries.{
  has_user_id, has_order_sn, has_account_id, has_session_id, has_request_id,
  update_payment_attempt_result,
}

-- reject r: rolled back and marked with r. reject_quietly: rolled back. duplicate: committed at
-- once and answered with true.
pub data Verdict : Type 0 where
  reject : Text → Verdict
  reject_quietly duplicate proceed : Verdict

unfoldable pub session_verdict : PaymentFinalizeInput → Option PaymentSessionInfo → Verdict
session_verdict i none = reject (text "SESSION_NOT_FOUND")
session_verdict i (some p) =
    if not (same p.order_sn i.order_sn)
      || not (same p.account_id i.account_id)
      || not (same p.buyer_id i.buyer_id)
    then reject (text "SESSION_BINDING_MISMATCH")
    else if not (p.status == session_status PaymentSessionStatus.waiting_pay)
    then reject (text "SESSION_NOT_PAYABLE")
    else proceed

unfoldable pub order_verdict : PaymentFinalizeInput → Option OrderInfo → Verdict
order_verdict i none = reject (text "ORDER_NOT_FOUND")
order_verdict i (some o) =
    if not (o.status == order_status OrderStatus.pending_pay)
    then reject (
        if o.status == order_status OrderStatus.paid
        then text "ORDER_ALREADY_PAID"
        else text "ORDER_NOT_PAYABLE")
    else if not (same o.account_id i.account_id)
        || not (same o.buyer_id i.buyer_id)
        || not (o.price == i.price)
    then reject (text "ORDER_SNAPSHOT_MISMATCH")
    else proceed

unfoldable pub account_verdict : Option AccountInfo → Verdict
account_verdict none = reject (text "ACCOUNT_NOT_FOUND")
account_verdict (some a) =
    if not (a.status == account_status AccountStatus.on_sale)
      && not (a.status == account_status AccountStatus.trading)
    then reject (text "ACCOUNT_NOT_TRADABLE")
    else proceed

unfoldable pub attempt_verdict : PaymentFinalizeInput → Option PaymentAttemptInfo → Verdict
attempt_verdict i none = reject_quietly
attempt_verdict i (some a) =
    if a.result == attempt_result PaymentAttemptResult.success
    then duplicate
    else if a.result == attempt_result PaymentAttemptResult.failed
    then reject_quietly
    else if not (same a.payment_session_id i.payment_session_id)
        || not (same a.order_sn i.order_sn)
        || not (same a.account_id i.account_id)
        || not (same a.buyer_id i.buyer_id)
    then reject (text "REQUEST_BINDING_MISMATCH")
    else proceed

unfoldable pub user_verdict : Option UserInfo → Verdict
user_verdict none = reject (text "USER_NOT_FOUND")
user_verdict (some u) =
    if not (u.status == user_status UserStatus.normal)
      || not (u.real_auth_completed == 1)
      || empty u.email_hash
      || empty u.id_card_hash
    then reject (text "USER_REAL_AUTH_INVALID")
    else proceed

-- One locked SELECT and what the code makes of its row; the later checks run only if it passes.
abbrev pub on_proceed : (State → Result Verdict × State) → Verdict → State → Result Verdict × State
on_proceed next proceed = next
on_proceed next (reject r) = pure (reject r)
on_proceed next reject_quietly = pure reject_quietly
on_proceed next duplicate = pure duplicate

abbrev pub check :
    (Tables → Verdict) → (State → Result Verdict × State) → State → Result Verdict × State
check v next = do verdict ← select (λ s. v s.tables); on_proceed next verdict

abbrev pub check_session : PaymentFinalizeInput → Tables → Verdict
check_session i t = session_verdict i (first (has_session_id i.payment_session_id) t.sessions)

abbrev pub check_order : PaymentFinalizeInput → Tables → Verdict
check_order i t = order_verdict i (first (has_order_sn i.order_sn) t.orders)

abbrev pub check_account : PaymentFinalizeInput → Tables → Verdict
check_account i t = account_verdict (first (has_account_id i.account_id) t.accounts)

abbrev pub check_attempt : PaymentFinalizeInput → Tables → Verdict
check_attempt i t = attempt_verdict i (first (has_request_id i.request_id) t.attempts)

abbrev pub check_user : PaymentFinalizeInput → Tables → Verdict
check_user i t = user_verdict (first (has_user_id i.buyer_id) t.users)

unfoldable pub locked_checks : PaymentFinalizeInput → State → Result Verdict × State
locked_checks i = check (check_session i) (
    check (check_order i)
      (check (check_account i) (check (check_attempt i) (check (check_user i) (pure proceed)))))

-- The four UPDATE statements: which rows, and what they become.
abbrev pub payable_order : Text → OrderInfo → Bool
payable_order k o = same o.order_sn k && o.status == 0

abbrev pub paid_order : ℕ → OrderInfo → OrderInfo
paid_order now o = record o { status = 1; paid_at = now; update_time = now }

abbrev pub payable_account : Text → AccountInfo → Bool
payable_account k a = same a.account_id k && (a.status == 0 || a.status == 1)

abbrev pub sold_account : ℕ → AccountInfo → AccountInfo
sold_account now a = record a { status = 2; version = suc a.version; updated_at = now }

abbrev pub payable_session : Text → PaymentSessionInfo → Bool
payable_session k p = same p.payment_session_id k && p.status == 0

abbrev pub paid_session : ℕ → PaymentSessionInfo → PaymentSessionInfo
paid_session now p = record p { status = 1; updated_at = now }

abbrev pub open_attempt : Text → PaymentAttemptInfo → Bool
open_attempt k a = same a.request_id k && a.result == 0

abbrev pub succeeded_attempt : ℕ → PaymentAttemptInfo → PaymentAttemptInfo
succeeded_attempt now a = record a { result = 1; fail_reason = []; updated_at = now }

abbrev pub pay_order : Text → State → Tables × ℕ
pay_order k s = (
  record (s.tables) { orders = update (payable_order k) (paid_order s.now) s.tables.orders },
  count (payable_order k) s.tables.orders,
)

abbrev pub sell_account : Text → State → Tables × ℕ
sell_account k s = (
  record (s.tables) {
    accounts = update (payable_account k) (sold_account s.now) s.tables.accounts;
  },
  count (payable_account k) s.tables.accounts,
)

abbrev pub pay_session : Text → State → Tables × ℕ
pay_session k s = (
  record (s.tables) {
    sessions = update (payable_session k) (paid_session s.now) s.tables.sessions;
  },
  count (payable_session k) s.tables.sessions,
)

abbrev pub close_attempt : Text → State → Tables × ℕ
close_attempt k s = (
  record (s.tables) {
    attempts = update (open_attempt k) (succeeded_attempt s.now) s.tables.attempts;
  },
  count (open_attempt k) s.tables.attempts,
)

unfoldable pub apply_updates : PaymentFinalizeInput → State → Result Bool × State
apply_updates i = do
  order_affected ← execute_affected (pay_order i.order_sn)
  account_affected ← execute_affected (sell_account i.account_id)
  session_affected ← execute_affected (pay_session i.payment_session_id)
  attempt_affected ← execute_affected (close_attempt i.request_id)
  pure (
      order_affected == 1
      && account_affected == 1
      && session_affected == 1
      && attempt_affected == 1)

-- The result of the update is ignored, and so is an exception.
unfoldable pub mark_attempt_failed_no_throw : Text → Text → State → Result (Unit {0}) × State
mark_attempt_failed_no_throw k reason s =
    (ok tt, (update_payment_attempt_result k PaymentAttemptResult.failed reason s).1)

abbrev pub give_up : Text → Text → State → Result Bool × State
give_up k reason = do rollback; mark_attempt_failed_no_throw k reason; pure false

abbrev pub finish : PaymentFinalizeInput → Bool → State → Result Bool × State
finish i true = do commit; pure true
finish i false = give_up i.request_id (text "PAYMENT_STATE_UPDATE_FAILED")

abbrev pub settle : PaymentFinalizeInput → Verdict → State → Result Bool × State
settle i (reject reason) = give_up i.request_id reason
settle i reject_quietly = do rollback; pure false
settle i duplicate = do commit; pure true
settle i proceed = do all_changed ← apply_updates i; finish i all_changed

unfoldable pub transaction : PaymentFinalizeInput → State → Result Bool × State
transaction i = do begin; verdict ← locked_checks i; settle i verdict

unfoldable pub finalize_payment_success : PaymentFinalizeInput → State → Result Bool × State
finalize_payment_success i = do
  acquire
  try_catch (transaction i) (λ _. give_up i.request_id (text "PAYMENT_INTERNAL_ERROR"))
