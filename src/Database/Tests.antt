-- ===== src/Database/Tests.antt =====
-- A small shop for the tests: one user who buys one account in one session.
use paid_server.Base.{◌≡◌, ◌↔◌, refl, Text, text, true, false, [], ◌∷◌, none, inl, same, arith}
use paid_server.Database.Rows.{
  UserInfo, OrderInfo, AccountInfo, PaymentSessionInfo, PaymentAttemptInfo, PaymentFinalizeInput,
  PaymentAttemptResult, Tables,
}
use paid_server.Database.Monad.{State, ok, Fault, refused}
use paid_server.Database.Tables.{first, count}
use paid_server.Database.Queries.{set_result}
use paid_server.Database.Ends.{Ends, Outside}
use paid_server.Database.Finalize.{
  proceed, reject, finalize_payment_success, session_verdict, order_verdict, account_verdict,
  attempt_verdict, user_verdict,
}
use paid_server.Database.Finalize.Checks.{decide}
use paid_server.Database.Finalize.Outcome.{paid_tables}
use paid_server.Database.Finalize.Payable.{IsPayable, IsKeyed, decide-eq-proceed_iff}
use paid_server.Database.Finalize.Progress.{
  calm, finalize_payment_success-pays, finalize_payment_success-rejects,
}
use paid_server.Database.Finalize.Once.{
  Concluded, finalize_payment_success-Concluded, IsDone, finalize_each, finalize_each-IsDone,
  finalize_payment_success-again,
}

abbrev pub buyer : UserInfo
buyer = record {
  id = 1;
  user_id = b'u' ∷ [];
  username = b'n' ∷ [];
  password_hash = b'h' ∷ [];
  email_hash = b'e' ∷ [];
  email_masked = [];
  id_card_hash = b'c' ∷ [];
  id_card_masked = [];
  real_auth_completed = 1;
  user_type = 0;
  status = 0;
  last_login_at = 0;
  created_at = 0;
}

abbrev pub order : OrderInfo
order = record {
  id = 1;
  order_sn = b'o' ∷ [];
  account_id = b'a' ∷ [];
  buyer_id = b'u' ∷ [];
  price = 80;
  buyer_email = [];
  buyer_id_card_hash = [];
  buyer_id_card_masked = [];
  status = 0;
  create_time = 0;
  paid_at = 0;
  update_time = 0;
}

abbrev pub account : AccountInfo
account = record {
  id = 1;
  account_id = b'a' ∷ [];
  seller_id = b's' ∷ [];
  game_name = [];
  server_area = [];
  price = 80;
  account_level = 30;
  hero_count = 0;
  skin_count = 0;
  rare_items = [];
  status = 0;
  version = 0;
  created_at = 0;
  updated_at = 0;
}

-- The key is what the token of Jwt/Tests.antt names.
abbrev pub token_session : Text
token_session = b'B' ∷ b'B' ∷ b'B' ∷ b'B' ∷ []

abbrev pub session : PaymentSessionInfo
session = record {
  id = 1;
  payment_session_id = token_session;
  order_sn = b'o' ∷ [];
  account_id = b'a' ∷ [];
  buyer_id = b'u' ∷ [];
  buyer_email = [];
  status = 0;
  expire_at = 900;
  created_at = 0;
  updated_at = 0;
}

abbrev pub attempt : PaymentAttemptInfo
attempt = record {
  id = 1;
  request_id = b'r' ∷ [];
  payment_session_id = token_session;
  order_sn = b'o' ∷ [];
  account_id = b'a' ∷ [];
  buyer_id = b'u' ∷ [];
  result = 0;
  fail_reason = [];
  client_ip = [];
  user_agent = [];
  created_at = 0;
  updated_at = 0;
}

abbrev pub shop : Tables
shop = record {
  users = buyer ∷ [];
  orders = order ∷ [];
  accounts = account ∷ [];
  sessions = session ∷ [];
  attempts = attempt ∷ [];
}

abbrev pub payment : PaymentFinalizeInput
payment = record {
  payment_session_id = token_session;
  order_sn = b'o' ∷ [];
  account_id = b'a' ∷ [];
  buyer_id = b'u' ∷ [];
  price = 80;
  request_id = b'r' ∷ [];
}

-- The same payment at another price.
abbrev cheaper : PaymentFinalizeInput
cheaper = record payment { price = 1 }

-- The server, outside a transaction, where the second statement is refused.
abbrev server : State
server = record {
  tables = shop;
  backup = none;
  now = 5;
  next_id = 2;
  faults = Fault.fine ∷ refused [] ∷ [];
}

server-Outside : Outside shop 5 server
server-Outside = record { tables = refl; backup = refl; now = refl; heard = (tt, (tt, tt)) }

shop-IsKeyed : IsKeyed shop
unfolding count same
shop-IsKeyed = record {
  user = λ k. ground arith;
  order = λ k. ground arith;
  account = λ k. ground arith;
  session = λ k. ground arith;
  attempt = λ k. ground arith;
}

unfoldable shop-IsPayable : IsPayable payment shop
unfolding first same
shop-IsPayable = record {
  session = (session, refl, record { order = refl; account = refl; buyer = refl; waiting = refl });
  order = (order, refl, record { pending = refl; account = refl; buyer = refl; price = refl });
  account = (account, refl, inl refl);
  attempt = (
    attempt,
    refl,
    record {
      unsettled = (λ e. cc, λ e. cc);
      session = refl;
      order = refl;
      account = refl;
      buyer = refl;
    },
  );
  user =
      (buyer, refl, record { normal = refl; completed = refl; email = λ e. cc; id_card = λ e. cc });
}

shop-processing : (shop-IsPayable.attempt.0).result ≡ 0
unfolding shop-IsPayable
shop-processing = refl

finalize_payment_success-Concluded_example :
    Ends
      (λ b s'. Outside s'.tables 5 s' × Concluded payment shop 5 b s'.tables)
      (Outside shop 5)
      (finalize_payment_success payment server)
finalize_payment_success-Concluded_example =
    finalize_payment_success-Concluded payment shop 5 server server-Outside shop-IsKeyed

decide-eq-proceed_iff_example : (decide payment shop ≡ proceed) ↔ IsPayable payment shop
decide-eq-proceed_iff_example = decide-eq-proceed_iff payment shop

finalize_payment_success-pays_example :
    finalize_payment_success payment (calm shop 5 2)
    ≡ (ok true, calm (paid_tables payment 5 shop) 5 2)
finalize_payment_success-pays_example =
    finalize_payment_success-pays payment shop 5 2 shop-IsPayable shop-processing shop-IsKeyed

cheaper_rejected : decide cheaper shop ≡ reject (text "ORDER_SNAPSHOT_MISMATCH")
unfolding session_verdict order_verdict account_verdict attempt_verdict user_verdict first same
cheaper_rejected = refl

finalize_payment_success-rejects_example : finalize_payment_success cheaper (calm shop 5 2) ≡ (
  ok false,
  calm
      (set_result (b'r' ∷ []) PaymentAttemptResult.failed (text "ORDER_SNAPSHOT_MISMATCH") 5 shop)
      5
      2,
)
finalize_payment_success-rejects_example =
    finalize_payment_success-rejects cheaper shop 5 2 (text "ORDER_SNAPSHOT_MISMATCH")
      cheaper_rejected

finalize_payment_success-again_example :
    (finalize_payment_success payment (calm shop 5 2)
      ≡ (ok true, calm (paid_tables payment 5 shop) 5 2))
    × (finalize_payment_success payment (calm (paid_tables payment 5 shop) 6 2) ≡ (
      ok false,
      calm
          (set_result
            (b'r' ∷ [])
            PaymentAttemptResult.failed
            (text "SESSION_NOT_PAYABLE")
            6
            (paid_tables payment 5 shop))
          6
          2,
    ))
finalize_payment_success-again_example =
    finalize_payment_success-again payment shop 5 6 2 shop-IsPayable shop-processing shop-IsKeyed

abbrev order_paid : OrderInfo
order_paid = record order { status = 1 }

abbrev account_sold : AccountInfo
account_sold = record account { status = 2 }

-- The shop behind a payment, as another request finds it.
abbrev later_server : State
later_server = record server {
  tables = record shop { orders = order_paid ∷ []; accounts = account_sold ∷ [] };
}

later_server-IsDone : IsDone order_paid account_sold later_server.tables
unfolding first same
later_server-IsDone = record { order = refl; account = refl }

finalize_each-IsDone_example :
    IsDone order_paid account_sold
      (finalize_each order_paid account_sold refl refl
        ((6, payment) ∷ (7, cheaper) ∷ [])
        later_server).tables
finalize_each-IsDone_example =
    finalize_each-IsDone order_paid account_sold refl refl ((6, payment) ∷ (7, cheaper) ∷ [])
      later_server refl (tt, (tt, tt)) later_server-IsDone
