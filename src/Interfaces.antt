-- ===== src/Interfaces.antt =====
-- What the services take from other libraries: nlohmann::json and OpenSSL.
use paid_server.Base.{ℕ, Text, Bool, List, Option}
use paid_server.Database.Monad.{Result}

-- An int64_t that a JSON document holds. `negsuc n` is -(n + 1).
pub data ℤ : Type 0 where
  pos : ℕ → ℤ
  negsuc : ℕ → ℤ

pub record JsonLib : Type 1 where
  pub Json : Type 0
  -- json::parse and dump.
  pub parse : Text → Result Json
  pub dump : Json → Text
  pub string : Text → Json
  pub number : ℕ → Json
  pub object : List (Text × Json) → Json
  pub is_object : Json → Bool
  -- value(key, default) and at(key).get<T>(), which throw on a value of another type.
  pub value_text : Json → Text → Text → Result Text
  pub value_bool : Json → Text → Bool → Result Bool
  pub at_text : Json → Text → Result Text
  pub at_integer : Json → Text → Result ℤ

pub record Crypto : Type 0 where
  -- HMAC with the digest of the named algorithm: name, key, data.
  pub hmac : Text → Text → Text → Text
  -- EVP_EncodeBlock, and EVP_DecodeBlock with none for a negative length.
  pub encode_block : Text → Text
  pub decode_block : Text → Option Text
