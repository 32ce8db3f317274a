-- ===== src/Pool/Commands/Replies.antt =====
-- backend/common/redis_pool.hpp: the commands, as the login sessions use them, on a server that
-- replies from its entries.
use paid_server.Base.{
  ℕ, zero, suc, ◌≡◌, refl, Text, text, same, arith, List, [], ◌∷◌, Option, none, some,
}
use paid_server.Base.Map.{find, text_eq}
use paid_server.Database.Monad.{ok}
use paid_server.Strings.{to_string}
use paid_server.Interfaces.{pos}
use paid_server.Settings.Numbers.{is_positive}
use paid_server.Settings.Backend.{RedisConfig}
use paid_server.Payment.World.{World}
use paid_server.Payment.Sessions
use paid_server.Pool.{ConnectionPool, release}
use paid_server.Pool.Redis.{
  Reply, nil_reply, status_reply, string_reply, integer_reply, Answers, acquire, check_status_reply,
}
use paid_server.Pool.Commands.{
  value_of_reply, check_integer_reply_at_least, set_words, set_ex, get, del,
}

abbrev pub reply_of : Option Text → Reply
reply_of none = nil_reply
reply_of (some value) = string_reply (some value)

-- What the server replies: OK to a SET, the live value to a GET, how many keys it removed to a DEL.
pub record IsRedis (redis : List Text → Reply) (w : World) : Type 0 where
  pub sets :
      (key value : Text) (ttl : ℕ)
      → redis (text "SET" ∷ key ∷ value ∷ text "EX" ∷ to_string ttl ∷ [])
        ≡ status_reply (some (text "OK"))
  pub gets :
      (key : Text)
      → redis (text "GET" ∷ key ∷ [])
        ≡ reply_of (Sessions.live_value w.clock (find key w.redis.entries))
  pub removed : Text → ℕ
  pub dels : (key : Text) → redis (text "DEL" ∷ key ∷ []) ≡ integer_reply (pos (removed key))

value_of_reply-reply_of :
    (v : Option Text) (errstr : Text) → value_of_reply (reply_of v) errstr ≡ ok v
unfolding value_of_reply
value_of_reply-reply_of none errstr = refl
value_of_reply-reply_of (some v) errstr = refl

module _ (cfg : RedisConfig) (a : Answers) {redis : List Text → Reply} {w : World}
    (p : ConnectionPool) {q : ConnectionPool} {conn : ℕ} (serves : IsRedis redis w)
    (quiet : w.redis.faults ≡ []) (lent : acquire cfg a p ≡ (ok conn, q)) where
  get-stored : (key : Text) → get cfg a redis key p ≡ ((Sessions.get key w).0, release conn q)
  unfolding get Sessions.get
  get-stored key =
      rw
        (
          lent,
          serves.gets key,
          quiet,
          value_of_reply-reply_of (Sessions.live_value w.clock (find key w.redis.entries)) a.errstr,
        )
        refl

  del-stored : (key : Text) → del cfg a redis key p ≡ ((Sessions.del key w).0, release conn q)
  unfolding del Sessions.del check_integer_reply_at_least
  del-stored key = rw (lent, serves.dels key, quiet) (ground arith)

  set_ex-stored :
      (key value : Text) (ttl : ℕ)
      → (set_ex cfg a redis key value (pos ttl) p).0 ≡ (Sessions.set_ex key value ttl w).0
  unfolding set_ex Sessions.set_ex set_words check_status_reply is_positive text same
  set_ex-stored key value zero = refl
  set_ex-stored key value (suc ttl) =
      rw (lent, serves.sets key value (suc ttl), quiet) (ground arith)

  -- With a connection from the pool, and a server that replies from its entries, each command of a
  -- login session gives what the commands on the entries give, where none of these fails; GET and DEL
  -- give the connection back to the pool.
  pub commands-stored :
      (key value : Text) (ttl : ℕ)
      → (get cfg a redis key p ≡ ((Sessions.get key w).0, release conn q))
        × (del cfg a redis key p ≡ ((Sessions.del key w).0, release conn q))
        × ((set_ex cfg a redis key value (pos ttl) p).0 ≡ (Sessions.set_ex key value ttl w).0)
  commands-stored key value ttl = (get-stored key, del-stored key, set_ex-stored key value ttl)
