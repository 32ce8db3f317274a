-- ===== src/Database/Statements/Safety.antt =====
-- backend/common/mysql_pool.hpp: whatever the values are that MySqlPool puts into a statement, the
-- server reads the statement as it is written in the source, with these values in its literals.
use paid_server.Base.{◌≡◌, refl, sym, ap, ◌∙◌, Text, text, true, List, [], ◌∷◌, ◌++◌}
use paid_server.Database.Rows.{
  UserRealAuthUpdate, CreatePaymentSessionInput, CreatePaymentAttemptInput, PaymentFinalizeInput,
  PaymentAttemptResult,
}
use paid_server.Database.Statements.{
  raw, escaped, number, Statement, render, nullable_string, user_select_columns,
  order_select_columns, account_select_columns, payment_session_select_columns,
  payment_attempt_select_columns, user_by_user_id, user_by_username, order_by_sn, account_by_id,
  active_session_by_order_sn, session_by_id, attempt_by_request_id,
}
use paid_server.Database.Statements.Updates.{
  update_profile, insert_session, insert_attempt, update_result, expire_sessions,
}
use paid_server.Database.Statements.Locks.{
  session_lock, order_lock, account_lock, attempt_lock, buyer_select, order_paid, account_sold,
  session_paid, attempt_success,
}
use paid_server.Database.Statements.Tokens.{
  outside, emits, tokens, values, shape, IsEscape, is_placed, blanked, literals,
}
use paid_server.Database.Statements.Reading.{
  both_outside, is_placed-blanked, values-reading, shape-reading, tokens-render,
}

-- The statements that MySqlPool sends.
pub data IsSent : Statement → Type 0 where
  sends_user_by_user_id : (k : Text) → IsSent (user_by_user_id k)
  sends_user_by_username : (k : Text) → IsSent (user_by_username k)
  sends_order_by_sn : (k : Text) → IsSent (order_by_sn k)
  sends_account_by_id : (k : Text) → IsSent (account_by_id k)
  sends_active_session_by_order_sn : (k : Text) → IsSent (active_session_by_order_sn k)
  sends_session_by_id : (k : Text) → IsSent (session_by_id k)
  sends_attempt_by_request_id : (k : Text) → IsSent (attempt_by_request_id k)
  sends_update_profile : (input : UserRealAuthUpdate) → IsSent (update_profile input)
  sends_insert_session : (input : CreatePaymentSessionInput) → IsSent (insert_session input)
  sends_insert_attempt : (input : CreatePaymentAttemptInput) → IsSent (insert_attempt input)
  sends_update_result :
      (k : Text) (result : PaymentAttemptResult) (reason : Text)
      → IsSent (update_result k result reason)
  sends_expire_sessions : IsSent expire_sessions
  sends_session_lock : (input : PaymentFinalizeInput) → IsSent (session_lock input)
  sends_order_lock : (input : PaymentFinalizeInput) → IsSent (order_lock input)
  sends_account_lock : (input : PaymentFinalizeInput) → IsSent (account_lock input)
  sends_attempt_lock : (input : PaymentFinalizeInput) → IsSent (attempt_lock input)
  sends_buyer_select : (input : PaymentFinalizeInput) → IsSent (buyer_select input)
  sends_order_paid : (input : PaymentFinalizeInput) → IsSent (order_paid input)
  sends_account_sold : (input : PaymentFinalizeInput) → IsSent (account_sold input)
  sends_session_paid : (input : PaymentFinalizeInput) → IsSent (session_paid input)
  sends_attempt_success : (input : PaymentFinalizeInput) → IsSent (attempt_success input)

-- The values that a statement escapes, in their order.
abbrev pub escapes : Statement → List Text
escapes [] = []
escapes (raw t ∷ ps) = escapes ps
escapes (escaped v ∷ ps) = v ∷ escapes ps
escapes (number n ∷ ps) = escapes ps

-- The literals that the text in front of the first value has.
abbrev pub fixed : Statement → List Text
fixed (raw t ∷ ps) = values (emits outside t)
fixed ps = []

IsSent-placed : {st : Statement} → IsSent st → is_placed outside st ≡ true
unfolding text user_select_columns order_select_columns account_select_columns
    payment_session_select_columns payment_attempt_select_columns nullable_string user_by_user_id
    user_by_username order_by_sn account_by_id active_session_by_order_sn session_by_id
    attempt_by_request_id update_profile insert_session insert_attempt update_result expire_sessions
    session_lock order_lock account_lock attempt_lock buyer_select order_paid account_sold
    session_paid attempt_success is_placed
IsSent-placed (sends_user_by_user_id k) = refl
IsSent-placed (sends_user_by_username k) = refl
IsSent-placed (sends_order_by_sn k) = refl
IsSent-placed (sends_account_by_id k) = refl
IsSent-placed (sends_active_session_by_order_sn k) = refl
IsSent-placed (sends_session_by_id k) = refl
IsSent-placed (sends_attempt_by_request_id k) = refl
IsSent-placed (sends_update_profile input) = refl
IsSent-placed (sends_insert_session input) = refl
IsSent-placed (sends_insert_attempt input) = refl
IsSent-placed (sends_update_result k result []) = refl
IsSent-placed (sends_update_result k result (c ∷ reason)) = refl
IsSent-placed sends_expire_sessions = refl
IsSent-placed (sends_session_lock input) = refl
IsSent-placed (sends_order_lock input) = refl
IsSent-placed (sends_account_lock input) = refl
IsSent-placed (sends_attempt_lock input) = refl
IsSent-placed (sends_buyer_select input) = refl
IsSent-placed (sends_order_paid input) = refl
IsSent-placed (sends_account_sold input) = refl
IsSent-placed (sends_session_paid input) = refl
IsSent-placed (sends_attempt_success input) = refl

IsSent-literals : {st : Statement} → IsSent st → literals outside st ≡ fixed st ++ escapes st
unfolding text user_select_columns order_select_columns account_select_columns
    payment_session_select_columns payment_attempt_select_columns nullable_string user_by_user_id
    user_by_username order_by_sn account_by_id active_session_by_order_sn session_by_id
    attempt_by_request_id update_profile insert_session insert_attempt update_result expire_sessions
    session_lock order_lock account_lock attempt_lock buyer_select order_paid account_sold
    session_paid attempt_success literals emits
IsSent-literals (sends_user_by_user_id k) = refl
IsSent-literals (sends_user_by_username k) = refl
IsSent-literals (sends_order_by_sn k) = refl
IsSent-literals (sends_account_by_id k) = refl
IsSent-literals (sends_active_session_by_order_sn k) = refl
IsSent-literals (sends_session_by_id k) = refl
IsSent-literals (sends_attempt_by_request_id k) = refl
IsSent-literals (sends_update_profile input) = refl
IsSent-literals (sends_insert_session input) = refl
IsSent-literals (sends_insert_attempt input) = refl
IsSent-literals (sends_update_result k result []) = refl
IsSent-literals (sends_update_result k result (c ∷ reason)) = refl
IsSent-literals sends_expire_sessions = refl
IsSent-literals (sends_session_lock input) = refl
IsSent-literals (sends_order_lock input) = refl
IsSent-literals (sends_account_lock input) = refl
IsSent-literals (sends_attempt_lock input) = refl
IsSent-literals (sends_buyer_select input) = refl
IsSent-literals (sends_order_paid input) = refl
IsSent-literals (sends_account_sold input) = refl
IsSent-literals (sends_session_paid input) = refl
IsSent-literals (sends_attempt_success input) = refl

-- The server reads a statement that MySqlPool sends as it is written in the source, whatever the
-- values are that are escaped into it: its literals are those of the source and then these values, in
-- their order, and what stands outside of the literals is the same as with empty values. An escaped
-- value is taken to add itself to the literal that it stands in.
pub render-tokens :
    (escape : Text → Text) (st : Statement)
    → IsEscape escape
    → IsSent st
    → (values (tokens outside (render escape st)) ≡ fixed st ++ escapes st)
      × (shape (tokens outside (render escape st))
          ≡ shape (tokens outside (render escape (blanked st))))
render-tokens escape st safe sent =
    let placed = IsSent-placed sent in
    let e = tokens-render escape outside st safe placed in
    let f =
      tokens-render escape outside (blanked st) safe
        (sym (is_placed-blanked outside outside st both_outside) ∙ placed) in
    (
      ap values e ∙ values-reading outside st ∙ IsSent-literals sent,
      ap shape e ∙ shape-reading outside outside st both_outside ∙ ap shape (sym f),
    )
