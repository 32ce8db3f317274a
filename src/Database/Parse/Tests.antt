-- ===== src/Database/Parse/Tests.antt =====
-- A server that takes the statements of the queries apart and answers from the tables of a shop.
use paid_server.Base.{
  ◌≡◌, refl, sym, ap, ◌∙◌, Text, text, [], ◌∷◌, ◌++◌, List, Option, none, if◌then◌else◌, arith,
}
use paid_server.Strings.{starts_with, to_string}
use paid_server.Database.Monad.{Result, State}
use paid_server.Database.Tables.{first}
use paid_server.Database.Queries.{
  has_user_id, has_username, has_order_sn, has_account_id, has_session_id, has_request_id,
  is_active, get_user_by_user_id, get_user_by_username, get_order_by_sn, get_account_by_id,
  get_active_payment_session_by_order_sn, get_payment_session_by_id,
  get_payment_attempt_by_request_id,
}
use paid_server.Database.Statements.{
  Statement, render, user_by_user_id, user_by_username, order_by_sn, account_by_id,
  active_session_by_order_sn, session_by_id, attempt_by_request_id,
}
use paid_server.Database.Statements.Tokens.{emits, outside, tokens, values}
use paid_server.Database.Statements.Safety.{
  fixed, render-tokens, sends_user_by_user_id, sends_user_by_username, sends_order_by_sn,
  sends_account_by_id, sends_active_session_by_order_sn, sends_session_by_id,
  sends_attempt_by_request_id, IsSent, escapes,
}
use paid_server.Database.Statements.Tests.{with_backslash, with_backslash-IsEscape}
use paid_server.Database.Parse.{
  Row, Answer, rows, get_one, parse_user, parse_order, parse_account, parse_payment_session,
  parse_payment_attempt,
}
use paid_server.Database.Parse.Columns.{
  Column, select_text, names_of, shown_by, waiting_only, user_columns, order_columns,
  account_columns, payment_session_columns, payment_attempt_columns, render-user_by_user_id,
  render-user_by_username, render-order_by_sn, render-account_by_id,
  render-active_session_by_order_sn, render-session_by_id, render-attempt_by_request_id,
}
use paid_server.Database.Parse.Fields.{
  shown_user, shown_order, shown_account, shown_payment_session, shown_payment_attempt,
}
use paid_server.Database.Parse.Server.{reply, IsServer, IsInBounds, shown}
use paid_server.Database.Parse.Answers.{get_one-queries}
use paid_server.Database.Tests.{shop}

-- The text of a SELECT in front of the key.
abbrev select_head : {A : Type 0} → List (Column A) → Text → Text → Text
select_head cs table key =
    text "SELECT "
    ++ (names_of cs ++ (text " FROM " ++ (table ++ (text " WHERE " ++ (key ++ text "='")))))

abbrev last_value : List Text → Text
last_value [] = []
last_value (v ∷ []) = v
last_value (v ∷ w ∷ vs) = last_value (w ∷ vs)

-- The last literal of a statement.
abbrev key_of : Text → Text
key_of sql = last_value (values (tokens outside sql))

abbrev answers : State → Text → Text → Answer
answers s k sql =
    if starts_with (select_head (user_columns to_string) (text "users") (text "user_id")) sql
    then reply (shown_by (user_columns to_string)) (first (has_user_id k) s.tables.users)
    else if starts_with (select_head (user_columns to_string) (text "users") (text "username")) sql
    then reply (shown_by (user_columns to_string)) (first (has_username k) s.tables.users)
    else if starts_with (select_head (order_columns to_string) (text "orders") (text "order_sn"))
        sql
    then reply (shown_by (order_columns to_string)) (first (has_order_sn k) s.tables.orders)
    else if starts_with
        (select_head (account_columns to_string) (text "accounts") (text "account_id")) sql
    then reply (shown_by (account_columns to_string)) (first (has_account_id k) s.tables.accounts)
    else if starts_with
        (select_head (payment_session_columns to_string) (text "payment_sessions")
          (text "order_sn"))
        sql
    then reply (shown_by (payment_session_columns to_string))
        (first (is_active k s.now) s.tables.sessions)
    else if starts_with
        (select_head (payment_session_columns to_string) (text "payment_sessions")
          (text "payment_session_id"))
        sql
    then reply (shown_by (payment_session_columns to_string))
        (first (has_session_id k) s.tables.sessions)
    else if starts_with
        (select_head (payment_attempt_columns to_string) (text "payment_attempts")
          (text "request_id"))
        sql
    then reply (shown_by (payment_attempt_columns to_string))
        (first (has_request_id k) s.tables.attempts)
    else rows []

abbrev toy_server : State → Text → Answer
toy_server s sql = answers s (key_of sql) sql

-- The key of a sent statement whose fixed literals and values end in it.
key_of-sent :
    (st : Statement) (k : Text)
    → IsSent st
    → last_value (fixed st ++ escapes st) ≡ k
    → key_of (render with_backslash st) ≡ k
key_of-sent st k sent e =
    ap last_value (render-tokens with_backslash st with_backslash-IsEscape sent).0 ∙ e

toy_server-IsServer : (s : State) → IsServer with_backslash to_string (toy_server s) s
unfolding starts_with text emits user_by_user_id user_by_username order_by_sn account_by_id
    active_session_by_order_sn session_by_id attempt_by_request_id
toy_server-IsServer s = record {
  by_user_id = λ k.
      ap
        (λ q. answers s q (
          select_text (user_columns to_string) (text "users") (text "user_id") (with_backslash k)
            []))
        (ap key_of (sym (render-user_by_user_id to_string with_backslash k))
          ∙ key_of-sent (user_by_user_id k) k (sends_user_by_user_id k) refl);
  by_username = λ k.
      ap
        (λ q. answers s q (
          select_text (user_columns to_string) (text "users") (text "username") (with_backslash k)
            []))
        (ap key_of (sym (render-user_by_username to_string with_backslash k))
          ∙ key_of-sent (user_by_username k) k (sends_user_by_username k) refl);
  by_order_sn = λ k.
      ap
        (λ q. answers s q (
          select_text (order_columns to_string) (text "orders") (text "order_sn") (with_backslash k)
            []))
        (ap key_of (sym (render-order_by_sn to_string with_backslash k))
          ∙ key_of-sent (order_by_sn k) k (sends_order_by_sn k) refl);
  by_account_id = λ k.
      ap
        (λ q. answers s q (
          select_text (account_columns to_string) (text "accounts") (text "account_id")
            (with_backslash k) []))
        (ap key_of (sym (render-account_by_id to_string with_backslash k))
          ∙ key_of-sent (account_by_id k) k (sends_account_by_id k) refl);
  by_active_order = λ k.
      ap
        (λ q. answers s q (
          select_text (payment_session_columns to_string) (text "payment_sessions")
            (text "order_sn") (with_backslash k) waiting_only))
        (ap key_of (sym (render-active_session_by_order_sn to_string with_backslash k))
          ∙ key_of-sent (active_session_by_order_sn k) k (sends_active_session_by_order_sn k) refl);
  by_session_id = λ k.
      ap
        (λ q. answers s q (
          select_text (payment_session_columns to_string) (text "payment_sessions")
            (text "payment_session_id") (with_backslash k) []))
        (ap key_of (sym (render-session_by_id to_string with_backslash k))
          ∙ key_of-sent (session_by_id k) k (sends_session_by_id k) refl);
  by_request_id = λ k.
      ap
        (λ q. answers s q (
          select_text (payment_attempt_columns to_string) (text "payment_attempts")
            (text "request_id") (with_backslash k) []))
        (ap key_of (sym (render-attempt_by_request_id to_string with_backslash k))
          ∙ key_of-sent (attempt_by_request_id k) k (sends_attempt_by_request_id k) refl);
}

abbrev calm_shop : State
calm_shop = record { tables = shop; backup = none; now = 0; next_id = 2; faults = [] }

shop-IsInBounds : IsInBounds shop
shop-IsInBounds = record {
  users = ground arith;
  orders = ground arith;
  accounts = ground arith;
  sessions = ground arith;
  attempts = ground arith;
}

abbrev answer_to : {A : Type 0} → (Row → Result A) → Statement → Result (Option A)
answer_to parse st = get_one with_backslash (toy_server calm_shop) parse st

get_one-queries_example :
    (answer_to parse_user (user_by_user_id (b'u' ∷ []))
      ≡ shown (shown_user to_string) (get_user_by_user_id (b'u' ∷ []) calm_shop).0)
    × (answer_to parse_user (user_by_username (b'u' ∷ []))
        ≡ shown (shown_user to_string) (get_user_by_username (b'u' ∷ []) calm_shop).0)
    × (answer_to parse_order (order_by_sn (b'u' ∷ []))
        ≡ shown (shown_order to_string) (get_order_by_sn (b'u' ∷ []) calm_shop).0)
    × (answer_to parse_account (account_by_id (b'u' ∷ []))
        ≡ shown (shown_account to_string) (get_account_by_id (b'u' ∷ []) calm_shop).0)
    × (answer_to parse_payment_session (active_session_by_order_sn (b'u' ∷ []))
        ≡ shown
            (shown_payment_session to_string)
            (get_active_payment_session_by_order_sn (b'u' ∷ []) calm_shop).0)
    × (answer_to parse_payment_session (session_by_id (b'u' ∷ []))
        ≡ shown
            (shown_payment_session to_string)
            (get_payment_session_by_id (b'u' ∷ []) calm_shop).0)
    × (answer_to parse_payment_attempt (attempt_by_request_id (b'u' ∷ []))
        ≡ shown
            (shown_payment_attempt to_string)
            (get_payment_attempt_by_request_id (b'u' ∷ []) calm_shop).0)
get_one-queries_example =
    get_one-queries (toy_server-IsServer calm_shop) shop-IsInBounds refl (b'u' ∷ [])
