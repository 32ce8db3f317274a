-- ===== src/Payment/Sessions.antt =====
-- backend/common/redis_pool.hpp: the login sessions in Redis. One fault stands for what happens to
-- the connection and the command of a call.
use paid_server.Base.{
  ℕ, ◌+◌, Text, text, Bool, true, List, ◌++◌, Option, none, some, ltb, ◌==◌, if◌then◌else◌,
}
use paid_server.Base.Map.{find, put, erase, text_eq}
use paid_server.Database.Monad.{
  Result, ok, throws, Fault, fine, refused, lost, next_fault, later_faults,
}
use paid_server.Payment.World.{World}

unfoldable pub session_key : Text → Text
session_key session_id = text "payment:session:" ++ session_id

abbrev after_command : {A : Type 0} → Fault → A → World → World → Result A × World
after_command fine a done old = (ok a, done)
after_command (refused e) a done old = (throws e, old)
after_command (lost e) a done old = (throws e, done)

abbrev with_entries : World → List (Text × (Text × ℕ)) → World
with_entries w entries = record w {
  redis = record { entries = entries; faults = later_faults w.redis.faults };
}

command : {A : Type 0} → A → List (Text × (Text × ℕ)) → World → Result A × World
command a entries w =
    after_command (next_fault w.redis.faults) a (with_entries w entries)
      (with_entries w w.redis.entries)

-- SET key value EX ttl
unfoldable pub set_ex : Text → Text → ℕ → World → Result Bool × World
unfolding command
set_ex key value ttl_seconds w =
    if ttl_seconds == 0
    then (throws (text "redis SET EX ttl 必须为正数"), w)
    else command true (put key (value, w.clock + ttl_seconds) w.redis.entries) w

abbrev pub live_value : ℕ → Option (Text × ℕ) → Option Text
live_value now none = none
live_value now (some (value, expires)) = if ltb now expires then some value else none

-- GET key
unfoldable pub get : Text → World → Result (Option Text) × World
unfolding command
get key w = command (live_value w.clock (find key w.redis.entries)) w.redis.entries w

-- DEL key
unfoldable pub del : Text → World → Result Bool × World
unfolding command
del key w = command true (erase key w.redis.entries) w

unfoldable pub save_session : Text → Text → ℕ → World → Result Bool × World
save_session session_id user_id ttl_seconds = set_ex (session_key session_id) user_id ttl_seconds

unfoldable pub user_id_of_session : Text → World → Result (Option Text) × World
user_id_of_session session_id = get (session_key session_id)

unfoldable pub remove_session : Text → World → Result Bool × World
remove_session session_id = del (session_key session_id)
