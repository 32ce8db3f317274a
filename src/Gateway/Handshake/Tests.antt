-- ===== src/Gateway/Handshake/Tests.antt =====
-- The handshake of a payment page, with a digest of one byte.
use paid_server.Base.{
  ◌≡◌, ◌%◌, refl, Text, text, true, [], ◌∷◌, ◌++◌, some, none, All, arith, same, empty, false,
  length, if◌then◌else◌,
}
use paid_server.Strings
use paid_server.Strings.{Headers, to_lower, starts_with, drop_blank}
use paid_server.Http.Stored.{IsHeader}
use paid_server.Http.Decide.{
  all_of, words_ok, others_ok, headers_ok, header_ok, trim_ok, line_byte, other_than,
}
use paid_server.Gateway.Handshake.{perform_handshake, make_accept_key}
use paid_server.Gateway.Handshake.Base64.{base64_decode}
use paid_server.Gateway.Handshake.Upgrade.{IsSession, upgrade_text, perform_handshake-upgrade}

abbrev toy_sha1 : Text → Text
toy_sha1 s = length s % 256 ∷ []

abbrev page_session : Text
page_session = text "PS1"

abbrev page_headers : Headers
page_headers =
    (text "Host", text "pay.example") ∷ (text "sec-websocket-key", text "dGhlIHNhbXBsZQ==") ∷ []

page_session-IsSession : IsSession page_session
unfolding text starts_with all_of other_than
page_session-IsSession = record {
  word = words_ok page_session refl;
  one_field = others_ok b'&' page_session refl;
  named = refl;
  long = omega arith;
}

page_headers-IsHeader : All IsHeader page_headers
unfolding text all_of header_ok trim_ok line_byte other_than same drop_blank
page_headers-IsHeader = headers_ok page_headers refl

page_key : Strings.header_value page_headers (text "Sec-WebSocket-Key") ≡ text "dGhlIHNhbXBsZQ=="
unfolding text Strings.header_value Strings.header_with to_lower same
page_key = refl

key_full : empty (text "dGhlIHNhbXBsZQ==") ≡ false
unfolding text
key_full = refl

perform_handshake-upgrade_example :
    (perform_handshake toy_sha1 (λ fd bytes. true) 5 (upgrade_text page_session page_headers)
      ≡ (if true then some page_session else none))
    × (base64_decode (make_accept_key toy_sha1 (text "dGhlIHNhbXBsZQ=="))
        ≡ some (toy_sha1 (text "dGhlIHNhbXBsZQ==" ++ text "258EAFA5-E914-47DA-95CA-C5AB0DC85B11")))
perform_handshake-upgrade_example =
    perform_handshake-upgrade toy_sha1 (λ fd bytes. true) 5 page_session (text "dGhlIHNhbXBsZQ==")
      page_headers page_session-IsSession page_headers-IsHeader page_key key_full (omega arith, tt)
