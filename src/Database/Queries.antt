-- ===== src/Database/Queries.antt =====
-- backend/common/mysql_pool.hpp: the queries and the single updates of MySqlPool.
use paid_server.Base.{
  ℕ, ◌+◌, Text, text, empty, same, Bool, true, false, not, [], ◌∷◌, Option, none, some, ltb, leb,
  ◌==◌, ◌&&◌, ◌||◌, if◌then◌else◌, is_some,
}
use paid_server.Database.Rows.{
  UserInfo, OrderInfo, AccountInfo, PaymentSessionInfo, PaymentAttemptInfo, UserRealAuthUpdate,
  CreatePaymentSessionInput, CreatePaymentAttemptInput, Tables, PaymentSessionStatus,
  PaymentAttemptResult, session_status, attempt_result, is_real_auth_completed,
}
use paid_server.Database.Monad.{
  Result, throws, State, pure, ◌>>=◌, ◌>>◌, acquire, select, execute_affected, execute_insert,
  refuse,
}
use paid_server.Database.Tables.{first, update, count}

-- The keys of the tables: WHERE column='…'.
abbrev pub has_user_id : Text → UserInfo → Bool
has_user_id k u = same u.user_id k

abbrev pub has_username : Text → UserInfo → Bool
has_username k u = same u.username k

abbrev pub has_order_sn : Text → OrderInfo → Bool
has_order_sn k o = same o.order_sn k

abbrev pub has_account_id : Text → AccountInfo → Bool
has_account_id k a = same a.account_id k

abbrev pub has_session_id : Text → PaymentSessionInfo → Bool
has_session_id k p = same p.payment_session_id k

abbrev pub has_request_id : Text → PaymentAttemptInfo → Bool
has_request_id k a = same a.request_id k

unfoldable pub get_user_by_user_id : Text → State → Result (Option UserInfo) × State
get_user_by_user_id k = do acquire; select (λ s. first (has_user_id k) s.tables.users)

unfoldable pub get_user_by_username : Text → State → Result (Option UserInfo) × State
get_user_by_username k = do acquire; select (λ s. first (has_username k) s.tables.users)

abbrev real_auth_of : Option UserInfo → Bool
real_auth_of none = false
real_auth_of (some u) = is_real_auth_completed u

unfoldable pub is_user_real_auth_completed : Text → State → Result Bool × State
unfolding get_user_by_user_id
is_user_real_auth_completed k = do user ← get_user_by_user_id k; pure (real_auth_of user)

-- Whether the row already holds what the UPDATE would write: MySQL does not count it as affected.
holds_profile : UserRealAuthUpdate → UserInfo → Bool
holds_profile input u =
    same u.email_hash input.email_hash
    && same u.email_masked input.email_masked
    && same u.id_card_hash input.id_card_hash
    && same u.id_card_masked input.id_card_masked
    && u.real_auth_completed == 1

abbrev with_profile : UserRealAuthUpdate → UserInfo → UserInfo
with_profile input u = record u {
  email_hash = input.email_hash;
  email_masked = input.email_masked;
  id_card_hash = input.id_card_hash;
  id_card_masked = input.id_card_masked;
  real_auth_completed = 1;
}

-- users has UNIQUE keys on email_hash and on id_card_hash.
abbrev profile_taken : UserRealAuthUpdate → UserInfo → Bool
profile_taken input u =
    not (has_user_id input.user_id u)
    && (same u.email_hash input.email_hash || same u.id_card_hash input.id_card_hash)

-- The UPDATE of the profile: refused where it would duplicate a key of another row.
write_profile : UserRealAuthUpdate → State → Result ℕ × State
unfolding holds_profile
write_profile input s =
    if is_some (first (has_user_id input.user_id) s.tables.users)
      && is_some (first (profile_taken input) s.tables.users)
    then refuse (text "Duplicate entry") s
    else execute_affected
        (λ r. (
          record (r.tables) {
            users = update (has_user_id input.user_id) (with_profile input) r.tables.users;
          },
          count (λ u. has_user_id input.user_id u && not (holds_profile input u)) r.tables.users,
        ))
        s

unfoldable pub update_user_real_auth_profile : UserRealAuthUpdate → State → Result Bool × State
unfolding write_profile
update_user_real_auth_profile input =
    if empty input.user_id
      || empty input.email_hash
      || empty input.email_masked
      || empty input.id_card_hash
      || empty input.id_card_masked
    then pure false
    else do acquire; n ← write_profile input; pure (n == 1)

unfoldable pub get_order_by_sn : Text → State → Result (Option OrderInfo) × State
get_order_by_sn k = do acquire; select (λ s. first (has_order_sn k) s.tables.orders)

unfoldable pub get_account_by_id : Text → State → Result (Option AccountInfo) × State
get_account_by_id k = do acquire; select (λ s. first (has_account_id k) s.tables.accounts)

-- A session of the order that is waiting and has not expired.
abbrev pub is_active : Text → ℕ → PaymentSessionInfo → Bool
is_active k now p =
    same p.order_sn k
    && p.status == session_status PaymentSessionStatus.waiting_pay
    && ltb now p.expire_at

unfoldable pub get_active_payment_session_by_order_sn :
    Text → State → Result (Option PaymentSessionInfo) × State
get_active_payment_session_by_order_sn k = do
  acquire
  select (λ s. first (is_active k s.now) s.tables.sessions)

unfoldable pub get_payment_session_by_id : Text → State → Result (Option PaymentSessionInfo) × State
get_payment_session_by_id k = do acquire; select (λ s. first (has_session_id k) s.tables.sessions)

abbrev new_session : CreatePaymentSessionInput → ℕ → ℕ → PaymentSessionInfo
new_session input next_id now = record {
  id = next_id;
  payment_session_id = input.payment_session_id;
  order_sn = input.order_sn;
  account_id = input.account_id;
  buyer_id = input.buyer_id;
  buyer_email = input.buyer_contact_masked;
  status = session_status PaymentSessionStatus.waiting_pay;
  expire_at = now + input.ttl_seconds;
  created_at = now;
  updated_at = now;
}

-- payment_sessions has UNIQUE keys on payment_session_id and on order_sn.
abbrev pub session_key_taken : CreatePaymentSessionInput → PaymentSessionInfo → Bool
session_key_taken input p =
    same p.payment_session_id input.payment_session_id || same p.order_sn input.order_sn

insert_session : CreatePaymentSessionInput → State → Result Bool × State
insert_session input = do
  acquire
  execute_insert (λ r.
      if is_some (first (session_key_taken input) r.tables.sessions)
      then none
      else some
          (record (r.tables) { sessions = new_session input r.next_id r.now ∷ r.tables.sessions }))
  pure true

unfoldable pub create_payment_session : CreatePaymentSessionInput → State → Result Bool × State
unfolding insert_session
create_payment_session input s =
    if input.ttl_seconds == 0 then (throws (text "支付会话 ttl 必须为正数"), s) else insert_session input s

unfoldable pub get_payment_attempt_by_request_id :
    Text → State → Result (Option PaymentAttemptInfo) × State
get_payment_attempt_by_request_id k = do
  acquire
  select (λ s. first (has_request_id k) s.tables.attempts)

abbrev new_attempt : CreatePaymentAttemptInput → ℕ → ℕ → PaymentAttemptInfo
new_attempt input next_id now = record {
  id = next_id;
  request_id = input.request_id;
  payment_session_id = input.payment_session_id;
  order_sn = input.order_sn;
  account_id = input.account_id;
  buyer_id = input.buyer_id;
  result = attempt_result PaymentAttemptResult.processing;
  fail_reason = [];
  client_ip = input.client_ip;
  user_agent = input.user_agent;
  created_at = now;
  updated_at = now;
}

-- payment_attempts has a UNIQUE key on request_id.
unfoldable pub create_payment_attempt_processing :
    CreatePaymentAttemptInput → State → Result Bool × State
create_payment_attempt_processing input = do
  acquire
  execute_insert (λ r.
      if is_some (first (has_request_id input.request_id) r.tables.attempts)
      then none
      else some
          (record (r.tables) { attempts = new_attempt input r.next_id r.now ∷ r.tables.attempts }))
  pure true

abbrev pub with_result : PaymentAttemptResult → Text → ℕ → PaymentAttemptInfo → PaymentAttemptInfo
with_result result reason now a = record a {
  result = attempt_result result;
  fail_reason = reason;
  updated_at = now;
}

abbrev pub set_result : Text → PaymentAttemptResult → Text → ℕ → Tables → Tables
set_result k result reason now t = record t {
  attempts = update (has_request_id k) (with_result result reason now) t.attempts;
}

holds_result : PaymentAttemptResult → Text → ℕ → PaymentAttemptInfo → Bool
holds_result result reason now a =
    a.result == attempt_result result && same a.fail_reason reason && a.updated_at == now

-- An empty reason is stored as NULL, which is read back as the empty text.
unfoldable pub update_payment_attempt_result :
    Text → PaymentAttemptResult → Text → State → Result Bool × State
unfolding holds_result
update_payment_attempt_result k result reason = do
  acquire
  n ← execute_affected (λ s. (
    set_result k result reason s.now s.tables,
    count (λ a. has_request_id k a && not (holds_result result reason s.now a)) s.tables.attempts,
  ))
  pure (n == 1)

abbrev pub is_overdue : ℕ → PaymentSessionInfo → Bool
is_overdue now p =
    p.status == session_status PaymentSessionStatus.waiting_pay && leb p.expire_at now

unfoldable pub expire_timeout_payment_sessions : State → Result ℕ × State
expire_timeout_payment_sessions = do
  acquire
  execute_affected (λ s. (
    record (s.tables) {
      sessions =
          update (is_overdue s.now)
            (λ p. record p {
              status = session_status PaymentSessionStatus.expired;
              updated_at = s.now;
            })
            s.tables.sessions;
    },
    count (is_overdue s.now) s.tables.sessions,
  ))
