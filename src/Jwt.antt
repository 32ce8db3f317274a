-- ===== src/Jwt.antt =====
-- backend/common/jwt.hpp: class JwtService. The clock is an argument, in seconds.
pub mod Soundness
pub mod Tests
use paid_server.Base.{
  ℕ, zero, suc, ◌+◌, ◌-◌, ◌%◌, ◌<◌, Text, text, empty, same, Bool, true, false, not, List, [], ◌∷◌,
  ◌++◌, map, Option, none, some, ltb, leb, ◌==◌, ◌&&◌, ◌||◌, if◌then◌else◌, length, take, replicate,
}
use mathlib.Core.List.{reverse}
use paid_server.Database.Monad.{Result, ok, throws}
use paid_server.Results.{◌>>=◌, ◌>>◌, require}
use paid_server.Strings.{split}
use paid_server.Interfaces.{JsonLib, Crypto, ℤ, pos, negsuc}

pub record JwtService : Type 0 where
  pub algorithm : Text
  pub secret : Text
  pub qr_ttl_seconds : ℕ
  pub clock_skew_seconds : ℕ

pub record PaymentQrPayload : Type 0 where
  pub payment_session_id : Text
  pub iat : ℕ
  pub exp : ℕ
  pub nonce : Text

-- PaymentQrVerifyResult: the payload, or the error message.
pub data PaymentQrVerifyResult : Type 0 where
  valid : PaymentQrPayload → PaymentQrVerifyResult
  invalid : Text → PaymentQrVerifyResult

-- The message of an exception that parsePaymentQrPayloadJson catches.
abbrev caught {ℓ} : {A : Type ℓ} → Result A → Result A
caught (ok a) = ok a
caught (throws e) = throws (text "支付二维码 JWT Payload 解析失败: " ++ e)

-- An early return with an error, unless the text is the wanted one.
unfoldable pub expect : Text → Text → Result Text → Result (Unit {0})
expect wanted error (ok t) = require (same t wanted) error
expect wanted error (throws e) = throws e

unfoldable pub supported : Text → Bool
supported a = same a (text "HS256") || same a (text "HS384") || same a (text "HS512")

-- The constructor's checks.
unfoldable pub make_service : Text → Text → ℕ → ℕ → Result JwtService
make_service algorithm secret ttl skew =
    if empty secret
    then throws (text "JWT_SECRET 不能为空")
    else if not (supported algorithm)
    then throws (text "不支持的 JWT 算法: " ++ algorithm)
    else if ttl == 0
    then throws (text "JWT 二维码 Token 有效期必须为正数")
    else ok (record {
      algorithm = algorithm;
      secret = secret;
      qr_ttl_seconds = ttl;
      clock_skew_seconds = skew;
    })

-- CRYPTO_memcmp on texts of one size.
unfoldable pub constant_time_equal : Text → Text → Bool
constant_time_equal a b = if not (length a == length b) then false else same a b

to_url_char : ℕ → ℕ
to_url_char c = if c == b'+' then b'-' else if c == b'/' then b'_' else c

of_url_char : ℕ → ℕ
of_url_char c = if c == b'-' then b'+' else if c == b'_' then b'/' else c

drop_padding : Text → Text
drop_padding [] = []
drop_padding (c ∷ s) = if c == b'=' then drop_padding s else c ∷ s

-- The number of '=' that make the size a multiple of four.
missing : ℕ → ℕ
missing n = (4 - n % 4) % 4

-- '=' in the last two places.
padding_of : Text → ℕ
padding_of [] = 0
padding_of (x ∷ []) = if x == b'=' then 1 else 0
padding_of (x ∷ y ∷ s) = (if x == b'=' then 1 else 0) + (if y == b'=' then 1 else 0)

without_padding : ℕ → Option Text → Result Text
without_padding padding none = throws (text "base64url 解码失败")
without_padding padding (some out) =
    if ltb (length out) padding
    then throws (text "basic_string::resize")
    else ok (take (length out - padding) out)

-- Whether iat and exp are positive and in order; they as natural numbers.
unfoldable pub times : ℤ → ℤ → Option (ℕ × ℕ)
times (pos iat) (pos exp) = if leb iat 0 || leb exp 0 || leb exp iat then none else some (iat, exp)
times (negsuc iat) exp = none
times (pos iat) (negsuc exp) = none

module _ (c : Crypto) (j : JsonLib) where
  unfoldable pub base64_url_encode : Text → Text
  unfolding to_url_char drop_padding
  base64_url_encode [] = []
  base64_url_encode (x ∷ xs) =
      reverse (drop_padding (reverse (map to_url_char (c.encode_block (x ∷ xs)))))

  unfoldable pub base64_url_decode : Text → Result Text
  unfolding of_url_char missing padding_of without_padding
  base64_url_decode input =
      let padded = map of_url_char input ++ replicate (missing (length input)) b'=' in
      without_padding (padding_of (reverse padded)) (c.decode_block padded)

  module _ (service : JwtService) where
    unfoldable pub hmac_raw : Text → Text
    hmac_raw input = c.hmac service.algorithm service.secret input

    unfoldable pub issue_token : j.Json → Text
    unfolding hmac_raw
    issue_token payload_body =
        let header_body =
          j.object
            ((text "alg", j.string service.algorithm) ∷ (text "typ", j.string (text "JWT")) ∷ []) in
        let signing_input =
          base64_url_encode (j.dump header_body)
          ++ text "."
          ++ base64_url_encode (j.dump payload_body) in
        signing_input ++ text "." ++ base64_url_encode (hmac_raw signing_input)

    -- The nonce is the hexadecimal text that secureNonceHex(16) gives.
    unfoldable pub issue_payment_qr_token : Text → ℕ → Text → Result Text
    unfolding issue_token
    issue_payment_qr_token payment_session_id now nonce =
        if empty payment_session_id
        then throws (text "payment_session_id 不能为空")
        else ok (
            issue_token (
              j.object (
                (text "payment_session_id", j.string payment_session_id)
                ∷ (text "iat", j.number now)
                ∷ (text "exp", j.number (now + service.qr_ttl_seconds))
                ∷ (text "nonce", j.string nonce)
                ∷ [])))

    verify_signature : Text → Text → Text → Result Text
    unfolding hmac_raw constant_time_equal
    verify_signature header payload signature = do
      require
          (constant_time_equal (base64_url_encode (hmac_raw (header ++ text "." ++ payload)))
            signature)
          (text "JWT Token 签名非法")
      json_text ← base64_url_decode payload
      require (not (empty json_text)) (text "JWT Payload 为空")
      ok json_text

    verify_header : j.Json → Result (Unit {0})
    verify_header header_json = do
      require (j.is_object header_json) (text "JWT Header 不是 JSON 对象")
      expect (text "JWT") (text "JWT 类型不匹配") (j.at_text header_json (text "typ"))
      expect service.algorithm (text "JWT 算法不匹配") (j.at_text header_json (text "alg"))

    verify_parts : List Text → Result Text
    unfolding verify_header verify_signature
    verify_parts (header ∷ payload ∷ signature ∷ []) = do
      require (not (empty header || empty payload || empty signature)) (text "JWT Token 格式非法")
      header_text ← base64_url_decode header
      header_json ← j.parse header_text
      verify_header header_json
      verify_signature header payload signature
    verify_parts _ = throws (text "JWT Token 格式非法")

    -- The JSON text of the payload, or the error.
    unfoldable pub verify_token : Text → Result Text
    unfolding verify_parts
    verify_token token = verify_parts (split token b'.')

    checked_payload : Text → Text → Option (ℕ × ℕ) → Result PaymentQrPayload
    checked_payload id nonce none = do
      require (not (empty id)) (text "payment_session_id 不能为空")
      require (not (empty nonce)) (text "nonce 不能为空")
      throws (text "JWT Payload 时间字段非法")
    checked_payload id nonce (some (iat, exp)) = do
      require (not (empty id)) (text "payment_session_id 不能为空")
      require (not (empty nonce)) (text "nonce 不能为空")
      ok (record { payment_session_id = id; iat = iat; exp = exp; nonce = nonce })

    payload_of : j.Json → Result PaymentQrPayload
    unfolding checked_payload times
    payload_of json = do
      require (j.is_object json) (text "JWT Payload 不是 JSON 对象")
      id ← caught (j.at_text json (text "payment_session_id"))
      iat ← caught (j.at_integer json (text "iat"))
      exp ← caught (j.at_integer json (text "exp"))
      nonce ← caught (j.at_text json (text "nonce"))
      checked_payload id nonce (times iat exp)

    unfoldable pub parse_payment_qr_payload_json : Text → Result PaymentQrPayload
    unfolding payload_of
    parse_payment_qr_payload_json json_text = do json ← caught (j.parse json_text); payload_of json

    not_expired : ℕ → Result PaymentQrPayload → PaymentQrVerifyResult
    not_expired now (throws e) = invalid e
    not_expired now (ok payload) =
        if leb (payload.exp + service.clock_skew_seconds) now
        then invalid (text "支付二维码 Token 已过期")
        else valid payload

    unfoldable pub verify_payment_qr_token : Text → ℕ → PaymentQrVerifyResult
    unfolding not_expired
    verify_payment_qr_token token now =
        not_expired now (verify_token token >>= parse_payment_qr_payload_json)
