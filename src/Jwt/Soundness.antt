-- ===== src/Jwt/Soundness.antt =====
-- What an accepted token has shown.
use paid_server.Base.{
  ℕ, ◌+◌, ◌<◌, ◌≡◌, ◌≢◌, refl, Text, text, empty, same_iff, true, not, ◌||◌, List, [], ◌∷◌, ◌++◌,
  Option, none, some, arith,
}
use paid_server.Database.Monad.{Result, ok, throws}
use paid_server.Results.{>>=-eq-ok, require}
use paid_server.Strings.{split}
use paid_server.Interfaces.{JsonLib, Crypto, ℤ, pos, negsuc}
use paid_server.Jwt.{
  JwtService, PaymentQrPayload, valid, base64_url_encode, base64_url_decode, hmac_raw, verify_token,
  verify_parts, verify_header, verify_signature, parse_payment_qr_payload_json, payload_of,
  verify_payment_qr_token, not_expired, constant_time_equal, expect, checked_payload, times, caught,
}

caught-eq-ok {ℓ} : {A : Type ℓ} (m : Result A) {a : A} → caught m ≡ ok a → m ≡ ok a
caught-eq-ok (ok a) h = h
caught-eq-ok (throws e) h = cc

constant_time_equal_iff : (a b : Text) → constant_time_equal a b ≡ true → a ≡ b
unfolding constant_time_equal
constant_time_equal_iff a b h = ground (arith, same_iff a b)

expect-ok :
    (wanted error : Text) (r : Result Text) {u : Unit {0}}
    → expect wanted error r ≡ ok u
    → r ≡ ok wanted
unfolding expect
expect-ok wanted error (ok t) h = ground (arith, same_iff t wanted)
expect-ok wanted error (throws e) h = cc

module _ (c : Crypto) (j : JsonLib) (service : JwtService) where
  -- A header that says JWT and names this service's algorithm.
  pub record IsHeader (header : Text) : Type 0 where
    pub header_text : Text
    pub decoded : base64_url_decode c j header ≡ ok header_text
    pub header_json : j.Json
    pub parsed : j.parse header_text ≡ ok header_json
    pub typ : j.at_text header_json (text "typ") ≡ ok (text "JWT")
    pub alg : j.at_text header_json (text "alg") ≡ ok service.algorithm

  -- A signature that is this service's HMAC of the first two parts.
  pub record IsBody (header payload signature json_text : Text) : Type 0 where
    pub signed :
        signature ≡ base64_url_encode c j (hmac_raw c j service (header ++ text "." ++ payload))
    pub decoded : base64_url_decode c j payload ≡ ok json_text

  verify_signature-ok :
      (header payload signature json_text : Text)
      → verify_signature c j service header payload signature ≡ ok json_text
      → IsBody header payload signature json_text
  unfolding verify_signature
  verify_signature-ok header payload signature json_text h = ground (
    arith,
    constant_time_equal_iff
        (base64_url_encode c j (hmac_raw c j service (header ++ text "." ++ payload))) signature,
  )

  verify_header-ok :
      (json : j.Json) {u : Unit {0}}
      → verify_header c j service json ≡ ok u
      → (j.at_text json (text "typ") ≡ ok (text "JWT"))
        × (j.at_text json (text "alg") ≡ ok service.algorithm)
  unfolding verify_header
  verify_header-ok json h = ground (
    arith,
    expect-ok (text "JWT") (text "JWT 类型不匹配") (j.at_text json (text "typ")),
    expect-ok service.algorithm (text "JWT 算法不匹配") (j.at_text json (text "alg")),
  )

  pub record IsSigned (token json_text : Text) : Type 0 where
    pub header : Text
    pub payload : Text
    pub signature : Text
    pub parts : split token b'.' ≡ header ∷ payload ∷ signature ∷ []
    pub is_header : IsHeader header
    pub is_body : IsBody header payload signature json_text

  verify_parts-ok :
      (token json_text : Text) (parts : List Text)
      → split token b'.' ≡ parts
      → verify_parts c j service parts ≡ ok json_text
      → IsSigned token json_text
  unfolding verify_parts
  verify_parts-ok token json_text (header ∷ payload ∷ signature ∷ []) e h =
      let (_, _, h₁) =
        >>=-eq-ok
          (require (not (empty header || empty payload || empty signature)) (text "JWT Token 格式非法"))
          _ h in
      let (header_text, d, h₂) = >>=-eq-ok (base64_url_decode c j header) _ h₁ in
      let (header_json, p, h₃) = >>=-eq-ok (j.parse header_text) _ h₂ in
      let (_, v, h₄) = >>=-eq-ok (verify_header c j service header_json) _ h₃ in
      let (typ, alg) = verify_header-ok header_json v in
      record {
        header = header;
        payload = payload;
        signature = signature;
        parts = e;
        is_header = record {
          header_text = header_text;
          decoded = d;
          header_json = header_json;
          parsed = p;
          typ = typ;
          alg = alg;
        };
        is_body = verify_signature-ok header payload signature json_text h₄;
      }
  verify_parts-ok token json_text _ e h = cc

  -- A payload with an id, a nonce, and times in order.
  pub record IsWellFormed (p : PaymentQrPayload) : Type 0 where
    pub id : p.payment_session_id ≢ []
    pub nonce : p.nonce ≢ []
    pub issued : 0 < p.iat
    pub ordered : p.iat < p.exp

  times-ordered : (iat exp : ℤ) {a b : ℕ} → times iat exp ≡ some (a, b) → (0 < a) × (a < b)
  unfolding times
  times-ordered (pos iat) (pos exp) h = ground arith
  times-ordered (pos iat) (negsuc exp) h = cc
  times-ordered (negsuc iat) exp h = cc

  checked_payload-ok :
      (id nonce : Text) (period : Option (ℕ × ℕ)) {p : PaymentQrPayload}
      → ((a b : ℕ) → period ≡ some (a, b) → (0 < a) × (a < b))
      → checked_payload c j service id nonce period ≡ ok p
      → IsWellFormed p
  unfolding checked_payload
  checked_payload-ok id nonce none k h = ground arith
  checked_payload-ok id nonce (some (a, b)) k h = ground (arith, k a b refl)

  payload_of-ok :
      (json : j.Json) {p : PaymentQrPayload} → payload_of c j service json ≡ ok p → IsWellFormed p
  unfolding payload_of
  payload_of-ok json h =
      let (_, _, h₁) = >>=-eq-ok (require (j.is_object json) _) _ h in
      let (id, _, h₂) = >>=-eq-ok (caught (j.at_text json (text "payment_session_id"))) _ h₁ in
      let (iat, _, h₃) = >>=-eq-ok (caught (j.at_integer json (text "iat"))) _ h₂ in
      let (exp, _, h₄) = >>=-eq-ok (caught (j.at_integer json (text "exp"))) _ h₃ in
      let (nonce, _, h₅) = >>=-eq-ok (caught (j.at_text json (text "nonce"))) _ h₄ in
      checked_payload-ok id nonce (times iat exp) (λ a b. times-ordered iat exp) h₅

  not_expired-valid :
      (now : ℕ) (r : Result PaymentQrPayload) {p : PaymentQrPayload}
      → not_expired c j service now r ≡ valid p
      → (r ≡ ok p) × (now < p.exp + service.clock_skew_seconds)
  unfolding not_expired
  not_expired-valid now (throws e) h = cc
  not_expired-valid now (ok q) h = ground arith

  -- An accepted token has three parts with a header for this service's algorithm and the service's
  -- signature over the first two; its payload parses, is complete, and has not expired, with the
  -- clock skew allowed for.
  pub verify_payment_qr_token-valid :
      (token : Text) (now : ℕ) {p : PaymentQrPayload}
      → verify_payment_qr_token c j service token now ≡ valid p
      → ((json_text : Text) × IsSigned token json_text
          × (parse_payment_qr_payload_json c j service json_text ≡ ok p))
        × IsWellFormed p
        × (now < p.exp + service.clock_skew_seconds)
  unfolding verify_payment_qr_token verify_token parse_payment_qr_payload_json
  verify_payment_qr_token-valid token now h =
      let (e, fresh) = not_expired-valid now _ h in
      let (json_text, v, k) = >>=-eq-ok (verify_parts c j service (split token b'.')) _ e in
      let (json, _, w) = >>=-eq-ok (caught (j.parse json_text)) _ k in
      ((json_text, verify_parts-ok token json_text _ refl v, k), payload_of-ok json w, fresh)
