-- ===== src/Database/Parse/Answers.antt =====
-- backend/common/mysql_pool.hpp: the queries of MySqlPool, down to the text of the statement and the
-- fields of the answer, give the rows that the queries on the tables give.
use mathlib.Core.Option
use paid_server.Base.{
  ℕ, ◌≡◌, refl, ap, ◌∙◌, Text, Bool, List, [], ◌∷◌, Option, none, some, map, All, arith, Bool-cases,
  inl, inr,
}
use paid_server.Database.Monad.{Result, ok, State, ◌>>◌, acquire, select, statement}
use paid_server.Database.Tables.{first}
use paid_server.Database.Queries.{
  has_user_id, has_username, has_order_sn, has_account_id, has_session_id, has_request_id,
  is_active, get_user_by_user_id, get_user_by_username, get_order_by_sn, get_account_by_id,
  get_active_payment_session_by_order_sn, get_payment_session_by_id,
  get_payment_attempt_by_request_id,
}
use paid_server.Database.Statements.{
  Statement, render, user_by_user_id, user_by_username, order_by_sn, account_by_id,
  active_session_by_order_sn, session_by_id, attempt_by_request_id,
}
use paid_server.Database.Parse.{
  Row, Answer, rows, field, query_rows, fetch_rows, get_one, parse_user, parse_order, parse_account,
  parse_payment_session, parse_payment_attempt,
}
use paid_server.Database.Parse.Fields.{
  IsUser, IsOrder, IsAccount, IsSession, IsAttempt, user_fields, order_fields, account_fields,
  payment_session_fields, payment_attempt_fields, shown_user, shown_order, shown_account,
  shown_payment_session, shown_payment_attempt,
}
use paid_server.Database.Parse.Columns.{
  shown_by-user_columns, shown_by-order_columns, shown_by-account_columns,
  shown_by-payment_session_columns, shown_by-payment_attempt_columns, render-user_by_user_id,
  render-user_by_username, render-order_by_sn, render-account_by_id,
  render-active_session_by_order_sn, render-session_by_id, render-attempt_by_request_id,
}
use paid_server.Database.Parse.Stored.{
  parse_user-fields, parse_order-fields, parse_account-fields, parse_payment_session-fields,
  parse_payment_attempt-fields,
}
use paid_server.Database.Parse.Server.{reply, IsServer, IsInBounds, shown}

first-All :
    {A : Type 0} (P : A → Type 0) (p : A → Bool) (xs : List A) {a : A}
    → All P xs
    → first p xs ≡ some a
    → P a
unfolding first
first-All P p [] h e = cc
first-All P p (x ∷ xs) (k, h) e = elim (Bool-cases (p x)) [
  | inl q ↦ ground arith
  | inr q ↦ first-All P p xs h (ground arith)
]

reply_same :
    {A : Type 0} {f g : A → List (Option Text)} (o : Option A)
    → ((r : A) → f r ≡ g r)
    → reply f o ≡ reply g o
reply_same none h = refl
reply_same (some r) h = ap (λ fs. rows (fs ∷ [])) (h r)

-- The answer to a statement that has the text of a SELECT.
reads-reply :
    {A : Type 0} {f g : A → List (Option Text)} {sql sent : Text} (server : Text → Answer)
    (o : Option A)
    → ((r : A) → f r ≡ g r)
    → sent ≡ sql
    → server sql ≡ reply f o
    → server sent ≡ reply g o
reads-reply server o h e answered = ap server e ∙ answered ∙ reply_same o h

get_one-reply :
    {A B : Type 0} (escape : Text → Text) (server : Text → Answer) (parse : Row → Result B)
    (st : Statement) (fields : A → List (Option Text)) (show : A → B) (o : Option A)
    → server (render escape st) ≡ reply fields o
    → ((a : A) → o ≡ some a → parse (map field (fields a)) ≡ ok (show a))
    → get_one escape server parse st ≡ ok (Option.map show o)
unfolding get_one query_rows fetch_rows
get_one-reply escape server parse st fields show none e h = rw e refl
get_one-reply escape server parse st fields show (some a) e h = rw (e, h a refl) refl

-- A query of the tables, where no statement fails.
quiet_query :
    {A : Type 0} (f : State → A) (s : State)
    → s.faults ≡ []
    → ((acquire >> select f) s).0 ≡ ok (f s)
unfolding acquire select statement
quiet_query f s e = rw e refl

module _ {escape : Text → Text} {date : ℕ → Text} {server : Text → Answer} {s : State}
    (serves : IsServer escape date server s) (bounds : IsInBounds s.tables)
    (quiet : s.faults ≡ []) where
  user_by_user_id-read :
      (k : Text)
      → get_one escape server parse_user (user_by_user_id k)
        ≡ shown (shown_user date) (get_user_by_user_id k s).0
  unfolding get_user_by_user_id
  user_by_user_id-read k = rw (quiet_query (λ r. first (has_user_id k) r.tables.users) s quiet) (
      get_one-reply escape server parse_user (user_by_user_id k) (user_fields date)
        (shown_user date) (first (has_user_id k) s.tables.users)
        (reads-reply server _ (shown_by-user_columns date) (render-user_by_user_id date escape k)
          (serves.by_user_id k))
        (λ r e.
          parse_user-fields date r
            (first-All IsUser (has_user_id k) s.tables.users bounds.users e)))

  user_by_username-read :
      (k : Text)
      → get_one escape server parse_user (user_by_username k)
        ≡ shown (shown_user date) (get_user_by_username k s).0
  unfolding get_user_by_username
  user_by_username-read k = rw (quiet_query (λ r. first (has_username k) r.tables.users) s quiet) (
      get_one-reply escape server parse_user (user_by_username k) (user_fields date)
        (shown_user date) (first (has_username k) s.tables.users)
        (reads-reply server _ (shown_by-user_columns date) (render-user_by_username date escape k)
          (serves.by_username k))
        (λ r e.
          parse_user-fields date r
            (first-All IsUser (has_username k) s.tables.users bounds.users e)))

  order_by_sn-read :
      (k : Text)
      → get_one escape server parse_order (order_by_sn k)
        ≡ shown (shown_order date) (get_order_by_sn k s).0
  unfolding get_order_by_sn
  order_by_sn-read k = rw (quiet_query (λ r. first (has_order_sn k) r.tables.orders) s quiet) (
      get_one-reply escape server parse_order (order_by_sn k) (order_fields date) (shown_order date)
        (first (has_order_sn k) s.tables.orders)
        (reads-reply server _ (shown_by-order_columns date) (render-order_by_sn date escape k)
          (serves.by_order_sn k))
        (λ r e.
          parse_order-fields date r
            (first-All IsOrder (has_order_sn k) s.tables.orders bounds.orders e)))

  account_by_id-read :
      (k : Text)
      → get_one escape server parse_account (account_by_id k)
        ≡ shown (shown_account date) (get_account_by_id k s).0
  unfolding get_account_by_id
  account_by_id-read k =
      rw (quiet_query (λ r. first (has_account_id k) r.tables.accounts) s quiet) (
        get_one-reply escape server parse_account (account_by_id k) (account_fields date)
          (shown_account date) (first (has_account_id k) s.tables.accounts)
          (reads-reply server _ (shown_by-account_columns date) (render-account_by_id date escape k)
            (serves.by_account_id k))
          (λ r e.
            parse_account-fields date r
              (first-All IsAccount (has_account_id k) s.tables.accounts bounds.accounts e)))

  active_session_by_order_sn-read :
      (k : Text)
      → get_one escape server parse_payment_session (active_session_by_order_sn k)
        ≡ shown (shown_payment_session date) (get_active_payment_session_by_order_sn k s).0
  unfolding get_active_payment_session_by_order_sn
  active_session_by_order_sn-read k =
      rw (quiet_query (λ r. first (is_active k r.now) r.tables.sessions) s quiet) (
        get_one-reply escape server parse_payment_session (active_session_by_order_sn k)
          (payment_session_fields date) (shown_payment_session date)
          (first (is_active k s.now) s.tables.sessions)
          (reads-reply server _ (shown_by-payment_session_columns date)
            (render-active_session_by_order_sn date escape k) (serves.by_active_order k))
          (λ r e.
            parse_payment_session-fields date r
              (first-All IsSession (is_active k s.now) s.tables.sessions bounds.sessions e)))

  session_by_id-read :
      (k : Text)
      → get_one escape server parse_payment_session (session_by_id k)
        ≡ shown (shown_payment_session date) (get_payment_session_by_id k s).0
  unfolding get_payment_session_by_id
  session_by_id-read k =
      rw (quiet_query (λ r. first (has_session_id k) r.tables.sessions) s quiet) (
        get_one-reply escape server parse_payment_session (session_by_id k)
          (payment_session_fields date) (shown_payment_session date)
          (first (has_session_id k) s.tables.sessions)
          (reads-reply server _ (shown_by-payment_session_columns date)
            (render-session_by_id date escape k) (serves.by_session_id k))
          (λ r e.
            parse_payment_session-fields date r
              (first-All IsSession (has_session_id k) s.tables.sessions bounds.sessions e)))

  attempt_by_request_id-read :
      (k : Text)
      → get_one escape server parse_payment_attempt (attempt_by_request_id k)
        ≡ shown (shown_payment_attempt date) (get_payment_attempt_by_request_id k s).0
  unfolding get_payment_attempt_by_request_id
  attempt_by_request_id-read k =
      rw (quiet_query (λ r. first (has_request_id k) r.tables.attempts) s quiet) (
        get_one-reply escape server parse_payment_attempt (attempt_by_request_id k)
          (payment_attempt_fields date) (shown_payment_attempt date)
          (first (has_request_id k) s.tables.attempts)
          (reads-reply server _ (shown_by-payment_attempt_columns date)
            (render-attempt_by_request_id date escape k) (serves.by_request_id k))
          (λ r e.
            parse_payment_attempt-fields date r
              (first-All IsAttempt (has_request_id k) s.tables.attempts bounds.attempts e)))

  -- Where the server answers a SELECT over the columns of a table, for the row with a key, with these
  -- columns of that row, whose values are within the bounds of their types, and no statement fails:
  -- each of the seven queries, down to the columns and the condition in the text of its statement and
  -- the order of the fields in the answer, gives what the query on the tables gives.
  pub get_one-queries :
      (k : Text)
      → (get_one escape server parse_user (user_by_user_id k)
          ≡ shown (shown_user date) (get_user_by_user_id k s).0)
        × (get_one escape server parse_user (user_by_username k)
            ≡ shown (shown_user date) (get_user_by_username k s).0)
        × (get_one escape server parse_order (order_by_sn k)
            ≡ shown (shown_order date) (get_order_by_sn k s).0)
        × (get_one escape server parse_account (account_by_id k)
            ≡ shown (shown_account date) (get_account_by_id k s).0)
        × (get_one escape server parse_payment_session (active_session_by_order_sn k)
            ≡ shown (shown_payment_session date) (get_active_payment_session_by_order_sn k s).0)
        × (get_one escape server parse_payment_session (session_by_id k)
            ≡ shown (shown_payment_session date) (get_payment_session_by_id k s).0)
        × (get_one escape server parse_payment_attempt (attempt_by_request_id k)
            ≡ shown (shown_payment_attempt date) (get_payment_attempt_by_request_id k s).0)
  get_one-queries k = (
    user_by_user_id-read k,
    user_by_username-read k,
    order_by_sn-read k,
    account_by_id-read k,
    active_session_by_order_sn-read k,
    session_by_id-read k,
    attempt_by_request_id-read k,
  )
