-- ===== src/Database/Parse.antt =====
-- backend/common/mysql_pool.hpp: queryRows, get, toInt64 and the parse functions, which make the
-- structures of the rows of an answer. Here the times are the texts that DATE_FORMAT gives.
mod Infos
pub mod Fields
pub mod Stored
pub mod Answers
pub mod Columns
pub mod Server
mod Tests
pub use Infos.*
use paid_server.Base.{
  ℕ, zero, suc, ◌-◌, ◌^◌, Text, text, empty, Bool, true, false, List, [], ◌∷◌, Option, none, some,
  map, ltb, leb, ◌==◌, ◌++◌, if◌then◌else◌,
}
use paid_server.Database.Monad.{Result, ok, throws}
use paid_server.Results.{◌>>=◌}
use paid_server.Interfaces.{ℤ, pos, negsuc}
use paid_server.Settings.Numbers.{digits, skip_spaces, to_int, to_unsigned}
use paid_server.Database.Statements.{Statement, render}

abbrev pub Row : Type 0
Row = List Text

-- What the server answers to a SELECT: an error of the statement or of its result, or the rows, in
-- which a field may be NULL.
pub data Answer : Type 0 where
  query_error store_error : Text → Answer
  rows : List (List (Option Text)) → Answer

abbrev pub field : Option Text → Text
field none = []
field (some v) = v

-- The loop that fetches the rows.
unfoldable pub fetch_rows : List (List (Option Text)) → List Row
fetch_rows [] = []
fetch_rows (r ∷ rs) = map field r ∷ fetch_rows rs

unfoldable pub query_rows : Answer → Result (List Row)
unfolding fetch_rows
query_rows (query_error e) = throws (text "mysql 查询失败: " ++ e)
query_rows (store_error e) = throws (text "mysql_store_result 执行失败: " ++ e)
query_rows (rows rs) = ok (fetch_rows rs)

unfoldable pub get : Row → ℕ → Text
get [] idx = []
get (v ∷ row) zero = v
get (v ∷ row) (suc idx) = get row idx

abbrev negated : ℕ → ℤ
negated zero = pos 0
negated (suc n) = negsuc n

-- The value within the bounds of a long long.
abbrev bounded : Bool → Option (ℕ × Text) → Result ℤ
bounded minus none = throws (text "stoll")
bounded true (some (n, rest)) = if leb n (2 ^ 63) then ok (negated n) else throws (text "stoll")
bounded false (some (n, rest)) = if ltb n (2 ^ 63) then ok (pos n) else throws (text "stoll")

unfoldable pub signed : Text → Result ℤ
signed [] = throws (text "stoll")
signed (c ∷ s) =
    if c == b'-'
    then bounded true (digits s)
    else if c == b'+'
    then bounded false (digits s)
    else bounded false (digits (c ∷ s))

-- std::stoll.
unfoldable pub stoll : Text → Result ℤ
unfolding signed
stoll s = signed (skip_spaces s)

unfoldable pub to_int64 : Row → ℕ → Result ℤ
unfolding stoll get
to_int64 row idx = if empty (get row idx) then ok (pos 0) else stoll (get row idx)

-- static_cast<int>(toInt64(row, idx))
unfoldable pub int_at : Row → ℕ → Result ℤ
unfolding to_int64
int_at row idx = to_int64 row idx >>= λ z. ok (to_int (to_unsigned 32 z))

unfoldable pub parse_user : Row → Result UserInfo
parse_user r = to_int64 r 0 >>= λ id. int_at r 8 >>= λ real_auth_completed.
    int_at r 9 >>= λ user_type. int_at r 10 >>= λ status. ok (record {
      id = id;
      user_id = get r 1;
      username = get r 2;
      password_hash = get r 3;
      email_hash = get r 4;
      email_masked = get r 5;
      id_card_hash = get r 6;
      id_card_masked = get r 7;
      real_auth_completed = real_auth_completed;
      user_type = user_type;
      status = status;
      last_login_at = get r 11;
      created_at = get r 12;
    })

unfoldable pub parse_order : Row → Result OrderInfo
parse_order r = to_int64 r 0 >>= λ id. to_int64 r 4 >>= λ price. int_at r 8 >>= λ status.
    ok (record {
      id = id;
      order_sn = get r 1;
      account_id = get r 2;
      buyer_id = get r 3;
      price = price;
      buyer_email = get r 5;
      buyer_id_card_hash = get r 6;
      buyer_id_card_masked = get r 7;
      status = status;
      create_time = get r 9;
      paid_at = get r 10;
      update_time = get r 11;
    })

unfoldable pub parse_account : Row → Result AccountInfo
parse_account r = to_int64 r 0 >>= λ id. to_int64 r 5 >>= λ price. int_at r 6 >>= λ account_level.
    int_at r 7 >>= λ hero_count. int_at r 8 >>= λ skin_count. int_at r 10 >>= λ status.
    int_at r 11 >>= λ version. ok (record {
      id = id;
      account_id = get r 1;
      seller_id = get r 2;
      game_name = get r 3;
      server_area = get r 4;
      price = price;
      account_level = account_level;
      hero_count = hero_count;
      skin_count = skin_count;
      rare_items = get r 9;
      status = status;
      version = version;
      created_at = get r 12;
      updated_at = get r 13;
    })

unfoldable pub parse_payment_session : Row → Result PaymentSessionInfo
parse_payment_session r = to_int64 r 0 >>= λ id. int_at r 6 >>= λ status. ok (record {
  id = id;
  payment_session_id = get r 1;
  order_sn = get r 2;
  account_id = get r 3;
  buyer_id = get r 4;
  buyer_email = get r 5;
  status = status;
  expire_at = get r 7;
  created_at = get r 8;
  updated_at = get r 9;
})

unfoldable pub parse_payment_attempt : Row → Result PaymentAttemptInfo
parse_payment_attempt r = to_int64 r 0 >>= λ id. int_at r 6 >>= λ result. ok (record {
  id = id;
  request_id = get r 1;
  payment_session_id = get r 2;
  order_sn = get r 3;
  account_id = get r 4;
  buyer_id = get r 5;
  result = result;
  fail_reason = get r 7;
  client_ip = get r 8;
  user_agent = get r 9;
  created_at = get r 10;
  updated_at = get r 11;
})

abbrev pub first_row : {A : Type 0} → (Row → Result A) → List Row → Result (Option A)
first_row parse [] = ok none
first_row parse (row ∷ rs) = parse row >>= λ a. ok (some a)

-- A query of one row, once it has its connection: the statement is sent, and the first row of the
-- answer is parsed, if there is one.
unfoldable pub get_one :
    {A : Type 0}
    → (Text → Text)
    → (Text → Answer)
    → (Row → Result A)
    → Statement
    → Result (Option A)
unfolding query_rows
get_one escape server parse st = query_rows (server (render escape st)) >>= λ rs. first_row parse rs
