-- ===== src/Jwt/Tests.antt =====
-- A token service over a toy library, whose JSON documents are texts and whose MAC is the key.
use paid_server.Base.{◌≡◌, ◌<◌, ◌+◌, refl, Text, text, true, [], ◌∷◌, some, same, if◌then◌else◌}
use paid_server.Database.Monad.{ok}
use paid_server.Interfaces.{JsonLib, Crypto, pos}
use paid_server.Strings.{split}
use paid_server.Jwt.{
  JwtService, PaymentQrPayload, valid, verify_payment_qr_token, parse_payment_qr_payload_json,
  verify_token, base64_url_decode, base64_url_encode, expect,
}
use paid_server.Jwt.Soundness.{IsSigned, IsWellFormed, verify_payment_qr_token-valid}

-- Every document has the type and the algorithm of a header, and itself for an id and a nonce.
abbrev pub toy_text : Text → Text → Text
toy_text document key =
    if same key (text "typ")
    then text "JWT"
    else if same key (text "alg")
    then text "HS256"
    else document

abbrev pub toy_json : JsonLib
toy_json = record {
  Json = Text;
  parse = λ s. ok s;
  dump = λ s. s;
  string = λ s. s;
  number = λ n. n ∷ [];
  object = λ fields. [];
  is_object = λ document. true;
  value_text = λ document key default. ok document;
  value_bool = λ document key default. ok default;
  at_text = λ document key. ok (toy_text document key);
  at_integer = λ document key. ok (if same key (text "iat") then pos 1 else pos 1000);
}

abbrev pub toy_crypto : Crypto
toy_crypto = record {
  hmac = λ algorithm key input. key;
  encode_block = λ s. s;
  decode_block = λ s. some s;
}

abbrev toy_service : JwtService
toy_service = record {
  algorithm = text "HS256";
  secret = text "CCCC";
  qr_ttl_seconds = 900;
  clock_skew_seconds = 30;
}

abbrev toy_payload : PaymentQrPayload
toy_payload = record { payment_session_id = text "BBBB"; iat = 1; exp = 1000; nonce = text "BBBB" }

toy_valid :
    verify_payment_qr_token toy_crypto toy_json toy_service (text "AAAA.BBBB.CCCC") 500
    ≡ valid toy_payload
unfolding verify_payment_qr_token verify_token parse_payment_qr_payload_json text same split
    base64_url_decode expect base64_url_encode
toy_valid = refl

verify_payment_qr_token-valid_example :
    ((json_text : Text) × IsSigned toy_crypto toy_json toy_service (text "AAAA.BBBB.CCCC") json_text
      × (parse_payment_qr_payload_json toy_crypto toy_json toy_service json_text ≡ ok toy_payload))
    × IsWellFormed toy_crypto toy_json toy_service toy_payload
    × (500 < 1000 + 30)
verify_payment_qr_token-valid_example =
    verify_payment_qr_token-valid toy_crypto toy_json toy_service (text "AAAA.BBBB.CCCC") 500
      toy_valid
