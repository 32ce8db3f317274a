-- ===== src/Pool/Commands.antt =====
-- backend/common/redis_pool.hpp: the commands of RedisPool on a connection of the pool. What the
-- server replies to the words of a command is a parameter.
pub mod Replies
use paid_server.Base.{
  ℕ, ◌≡◌, refl, Text, text, Bool, true, false, not, List, [], ◌∷◌, ◌++◌, Option, none, some, leb,
  if◌then◌else◌, ◌⊎◌, inl, inr,
}
use paid_server.Database.Monad.{Result, ok, throws}
use paid_server.Strings.{to_string}
use paid_server.Interfaces.{ℤ, pos, negsuc}
use paid_server.Settings.Numbers.{is_positive}
use paid_server.Settings.Backend.{RedisConfig}
use paid_server.Pool.{ConnectionPool, release}
use paid_server.Pool.Redis.{
  Reply, no_reply, nil_reply, other_reply, status_reply, string_reply, integer_reply, Answers,
  acquire, connection_error, check_status_reply,
}

-- operator>= of a long long and a bound that is not negative.
abbrev at_least : ℤ → ℕ → Bool
at_least (pos n) min = leb min n
at_least (negsuc n) min = false

unfoldable pub check_integer_reply_at_least : Reply → Text → Text → ℕ → Result Bool
check_integer_reply_at_least no_reply errstr op min =
    throws (text "redis " ++ op ++ text " 执行失败: " ++ connection_error errstr)
check_integer_reply_at_least (integer_reply n) errstr op min = ok (at_least n min)
check_integer_reply_at_least reply errstr op min = throws (text "redis " ++ op ++ text " 返回类型异常")

-- std::string(reply->str, reply->len); hiredis gives a string reply its text.
abbrev text_of : Option Text → Text
text_of none = []
text_of (some str) = str

unfoldable pub value_of_reply : Reply → Text → Result (Option Text)
value_of_reply no_reply errstr = throws (text "redis GET 执行失败: " ++ connection_error errstr)
value_of_reply nil_reply errstr = ok none
value_of_reply (string_reply str) errstr = ok (some (text_of str))
value_of_reply reply errstr = throws (text "redis GET 返回类型异常")

-- The guard gives the connection back when the method ends, by a value or by an exception.
abbrev pub guarded : {A : Type 0} → Result A → Result ℕ × ConnectionPool → Result A × ConnectionPool
guarded result (throws e, p) = (throws e, p)
guarded result (ok conn, p) = (result, release conn p)

-- The words of the commands.
unfoldable pub set_words : Text → Text → ℤ → List Text
set_words key value (pos ttl) = text "SET" ∷ key ∷ value ∷ text "EX" ∷ to_string ttl ∷ []
set_words key value (negsuc n) = []

module _ (cfg : RedisConfig) (a : Answers) (redis : List Text → Reply) where
  unfoldable pub set_ex : Text → Text → ℤ → ConnectionPool → Result Bool × ConnectionPool
  set_ex key value ttl_seconds p =
      if not (is_positive ttl_seconds)
      then (throws (text "redis SET EX ttl 必须为正数"), p)
      else guarded
          (check_status_reply (redis (set_words key value ttl_seconds)) a.errstr (text "SET"))
          (acquire cfg a p)

  unfoldable pub get : Text → ConnectionPool → Result (Option Text) × ConnectionPool
  get key p = guarded (value_of_reply (redis (text "GET" ∷ key ∷ [])) a.errstr) (acquire cfg a p)

  unfoldable pub del : Text → ConnectionPool → Result Bool × ConnectionPool
  del key p =
      guarded (check_integer_reply_at_least (redis (text "DEL" ∷ key ∷ [])) a.errstr (text "DEL") 0)
        (acquire cfg a p)

  unfoldable pub exists : Text → ConnectionPool → Result Bool × ConnectionPool
  exists key p =
      guarded
        (check_integer_reply_at_least (redis (text "EXISTS" ∷ key ∷ [])) a.errstr (text "EXISTS") 1)
        (acquire cfg a p)
