-- ===== src/Http/Sent.antt =====
-- The headers of a request that the gateway sends (gateway/common/http_forwarder.hpp), as the backend
-- stores them (backend/main.cpp).
use paid_server.Base.{
  ◌^◌, ◌<◌, ◌≡◌, refl, ap, ◌∙◌, Text, text, same, empty, [], ◌∷◌, ◌++◌, if◌then◌else◌, All, length,
}
use mathlib.Core.List.{append_assoc}
use paid_server.Base.Map.{find, text_eq}
use paid_server.Database.Monad.{ok}
use paid_server.Strings.{Headers, header_value, to_lower, to_string}
use paid_server.Gateway.Forwarder.{
  ForwardRequest, BackendAddress, sent_headers, copied_headers, copied, unless_empty,
  content_type_header,
}
use paid_server.Gateway.Access.{Other}
use paid_server.Http.Stored.{stored, inserted, IsNoLength, stored-append}
use paid_server.Http.Target.{append-All}
use paid_server.Http.Identity.{
  unless_empty-All, copied-All, content_type_header-All, inserted-append, header_value-inserted,
  length_value, identity_value,
}

-- The headers that the parser stores.
module _ (backend : BackendAddress) (request : ForwardRequest) (user_id : Text) where
  abbrev pub content_type : Headers
  content_type = content_type_header request.body (find (text "Content-Type") request.headers)

  abbrev pub copy : Text → Headers
  copy key = copied key (find key request.headers)

  abbrev pub own : Headers
  own =
      (text "Host", backend.ip ++ text ":" ++ to_string backend.http_port)
      ∷ (text "Connection", text "close")
      ∷ unless_empty (text "X-User-Id") user_id

  abbrev pub body_length_header : Headers
  body_length_header =
      unless_empty (text "Content-Length")
        (if empty request.body then [] else to_string (length request.body))

  abbrev pub copies : Headers
  copies =
      content_type
      ++ (copy (text "Cookie") ++ (copy (text "X-Forwarded-For") ++ copy (text "User-Agent")))

  sent_headers-parts : sent_headers backend request user_id ≡ (own ++ copies) ++ body_length_header
  unfolding sent_headers copied_headers
  sent_headers-parts = simp append_assoc refl

  copies-All :
      (P : Text × Text → Type 0)
      → ((v : Text) → P (text "Content-Type", v))
      → ((v : Text) → P (text "Cookie", v))
      → ((v : Text) → P (text "X-Forwarded-For", v))
      → ((v : Text) → P (text "User-Agent", v))
      → All P copies
  copies-All P ct co xf ua =
      append-All P content_type _ (content_type_header-All P ct request.body _) (
        append-All P (copy (text "Cookie")) _ (copied-All P (text "Cookie") co _) (
          append-All P (copy (text "X-Forwarded-For")) _
            (copied-All P (text "X-Forwarded-For") xf _) (copied-All P (text "User-Agent") ua _)))

  copies-IsNoLength : All IsNoLength copies
  unfolding same text
  copies-IsNoLength = copies-All IsNoLength (λ v. refl) (λ v. refl) (λ v. refl) (λ v. refl)

  copies-Other : All Other copies
  unfolding same text to_lower
  copies-Other = copies-All Other (λ v. refl) (λ v. refl) (λ v. refl) (λ v. refl)

  own-IsNoLength : All IsNoLength own
  unfolding same text
  own-IsNoLength =
      (refl, (refl, unless_empty-All IsNoLength (text "X-User-Id") (λ v. refl) user_id))

  -- The body's length, stored last.
  length_stored :
      (m : Headers)
      → length request.body < 2 ^ 64
      → stored body_length_header (m, 0) ≡ ok (inserted body_length_header m, length request.body)
  length_stored m b = length_value request.body m b

  own_identity : header_value (inserted own []) (text "X-User-Id") ≡ user_id
  own_identity = identity_value _ user_id

  abbrev pub stored_headers : Headers
  stored_headers = inserted body_length_header (inserted (own ++ copies) [])

  pub stored-sent_headers :
      length request.body < 2 ^ 64
      → stored (sent_headers backend request user_id) ([], 0)
        ≡ ok (stored_headers, length request.body)
  stored-sent_headers b =
      ap (λ hs. stored hs ([], 0)) sent_headers-parts
      ∙ stored-append (own ++ copies) body_length_header [] 0
          (append-All IsNoLength own copies own-IsNoLength copies-IsNoLength)
      ∙ length_stored _ b

  pub stored_identity : header_value stored_headers (text "X-User-Id") ≡ user_id
  unfolding same text to_lower
  stored_identity =
      header_value-inserted body_length_header _
        (unless_empty-All Other (text "Content-Length") (λ v. refl) _)
      ∙ ap (λ m. header_value m (text "X-User-Id")) (inserted-append own copies [])
      ∙ header_value-inserted copies (inserted own []) copies-Other
      ∙ own_identity
