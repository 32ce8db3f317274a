-- ===== src/Database/Parse/Stored.antt =====
-- backend/common/mysql_pool.hpp: what the parse functions make of the fields in which the server
-- shows the rows of the tables.
use paid_server.Base.{ℕ, suc, ◌^◌, ◌<◌, ◌≡◌, refl, Text, empty, false, [], ◌∷◌, some, map, arith}
use paid_server.Database.Monad.{ok}
use paid_server.Interfaces.{pos}
use paid_server.Strings.{to_string}
use paid_server.Settings.Numbers.{digits, skip_spaces, more_digits, to_int, to_unsigned}
use paid_server.Settings.Bounds.{digits-digits_from}
use paid_server.Database.Rows
use paid_server.Database.Parse.{
  Row, field, get, stoll, signed, to_int64, int_at, parse_user, parse_order, parse_account,
  parse_payment_session, parse_payment_attempt,
}
use paid_server.Database.Parse.Fields.{
  IsUser, IsOrder, IsAccount, IsSession, IsAttempt, user_fields, shown_user, order_fields,
  shown_order, account_fields, shown_account, payment_session_fields, shown_payment_session,
  payment_attempt_fields, shown_payment_attempt,
}

digits-to_string : (n : ℕ) → digits (to_string n) ≡ some (n, [])
unfolding to_string more_digits
digits-to_string n = digits-digits_from (suc n) n [] (omega arith)

stoll-digits :
    (s : Text) {n : ℕ} {rest : Text} → digits s ≡ some (n, rest) → n < 2 ^ 63 → stoll s ≡ ok (pos n)
unfolding stoll digits skip_spaces signed
stoll-digits [] e h = cc
stoll-digits (c ∷ s) e h = ground arith

digits-full : (s : Text) {p : ℕ × Text} → digits s ≡ some p → empty s ≡ false
unfolding digits
digits-full [] e = cc
digits-full (c ∷ s) e = refl

to_int64-at :
    (row : Row) (idx : ℕ) (n : ℕ)
    → get row idx ≡ to_string n
    → n < 2 ^ 63
    → to_int64 row idx ≡ ok (pos n)
unfolding to_int64
to_int64-at row idx n e h =
    rw (e, digits-full (to_string n) (digits-to_string n))
      (stoll-digits (to_string n) (digits-to_string n) h)

int_at-at :
    (row : Row) (idx : ℕ) (n : ℕ)
    → get row idx ≡ to_string n
    → n < 2 ^ 31
    → int_at row idx ≡ ok (pos n)
unfolding int_at to_int to_unsigned
int_at-at row idx n e h = rw (to_int64-at row idx n e (omega arith)) (ground arith)

-- date is DATE_FORMAT.
module _ (date : ℕ → Text) where
  pub parse_user-fields :
      (r : Rows.UserInfo)
      → IsUser r
      → parse_user (map field (user_fields date r)) ≡ ok (shown_user date r)
  unfolding parse_user user_fields shown_user get
  parse_user-fields r h =
      let row = map field (user_fields date r) in
      rw
        (
          to_int64-at row 0 r.id refl h.id,
          int_at-at row 8 r.real_auth_completed refl h.real_auth_completed,
          int_at-at row 9 r.user_type refl h.user_type,
          int_at-at row 10 r.status refl h.status,
        )
        refl

  pub parse_order-fields :
      (r : Rows.OrderInfo)
      → IsOrder r
      → parse_order (map field (order_fields date r)) ≡ ok (shown_order date r)
  unfolding parse_order order_fields shown_order get
  parse_order-fields r h =
      let row = map field (order_fields date r) in
      rw
        (
          to_int64-at row 0 r.id refl h.id,
          to_int64-at row 4 r.price refl h.price,
          int_at-at row 8 r.status refl h.status,
        )
        refl

  pub parse_account-fields :
      (r : Rows.AccountInfo)
      → IsAccount r
      → parse_account (map field (account_fields date r)) ≡ ok (shown_account date r)
  unfolding parse_account account_fields shown_account get
  parse_account-fields r h =
      let row = map field (account_fields date r) in
      rw
        (
          to_int64-at row 0 r.id refl h.id,
          to_int64-at row 5 r.price refl h.price,
          int_at-at row 6 r.account_level refl h.account_level,
          int_at-at row 7 r.hero_count refl h.hero_count,
          int_at-at row 8 r.skin_count refl h.skin_count,
          int_at-at row 10 r.status refl h.status,
          int_at-at row 11 r.version refl h.version,
        )
        refl

  pub parse_payment_session-fields :
      (r : Rows.PaymentSessionInfo)
      → IsSession r
      → parse_payment_session (map field (payment_session_fields date r))
        ≡ ok (shown_payment_session date r)
  unfolding parse_payment_session payment_session_fields shown_payment_session get
  parse_payment_session-fields r h =
      let row = map field (payment_session_fields date r) in
      rw (to_int64-at row 0 r.id refl h.id, int_at-at row 6 r.status refl h.status) refl

  pub parse_payment_attempt-fields :
      (r : Rows.PaymentAttemptInfo)
      → IsAttempt r
      → parse_payment_attempt (map field (payment_attempt_fields date r))
        ≡ ok (shown_payment_attempt date r)
  unfolding parse_payment_attempt payment_attempt_fields shown_payment_attempt get
  parse_payment_attempt-fields r h =
      let row = map field (payment_attempt_fields date r) in
      rw (to_int64-at row 0 r.id refl h.id, int_at-at row 6 r.result refl h.result) refl
