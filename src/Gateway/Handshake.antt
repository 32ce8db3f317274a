-- ===== src/Gateway/Handshake.antt =====
-- gateway/common/ws_registry.hpp: headerValue on the text of a header, makeAcceptKey and
-- performHandshake. trim, toLower and queryParam have the text of the services' own helpers.
pub mod Base64
pub mod Upgrade
mod Tests
use paid_server.Base.{
  ℕ, Text, text, same, empty, Bool, true, false, List, [], ◌∷◌, ◌++◌, Option, none, some, ltb, ◌==◌,
  ◌&&◌, ◌||◌, not, if◌then◌else◌, length,
}
use paid_server.Strings.{trim, to_lower, cut, starts_with, query_param}
use paid_server.Settings.Load.{lines}
use paid_server.Gateway.Forwarder.{crlf}
use paid_server.Http.{pop_cr, request_words, query_of}
use Base64.{base64_encode}

-- A line with a colon whose name is the key gives its value; any other line is passed over.
abbrev pub or_later : Text → Text × Option Text → Text → Text
or_later key (name, none) later = later
or_later key (name, some value) later =
    if same (to_lower (trim name)) key then trim value else later

unfoldable pub value_in : Text → List Text → Text
value_in key [] = []
value_in key (l ∷ ls) = let later = value_in key ls in or_later key (cut b':' (pop_cr l)) later

unfoldable pub header_value : Text → Text → Text
unfolding value_in
header_value raw_headers name = value_in (to_lower name) (lines raw_headers)

-- SHA1 of OpenSSL.
module _ (sha1 : Text → Text) where
  unfoldable pub make_accept_key : Text → Text
  make_accept_key client_key =
      base64_encode (sha1 (client_key ++ text "258EAFA5-E914-47DA-95CA-C5AB0DC85B11"))

  unfoldable pub handshake_response : Text → Text
  handshake_response ws_key =
      text "HTTP/1.1 101 Switching Protocols"
      ++ crlf
      ++ text "Upgrade: websocket"
      ++ crlf
      ++ text "Connection: Upgrade"
      ++ crlf
      ++ text "Sec-WebSocket-Accept: "
      ++ make_accept_key ws_key
      ++ crlf
      ++ crlf

-- The text before the first "\r\n", and the text behind it.
abbrev onto_line : ℕ → Option (Text × Text) → Option (Text × Text)
onto_line c none = none
onto_line c (some (line, rest)) = some (c ∷ line, rest)

unfoldable pub cut_line : Text → Option (Text × Text)
cut_line [] = none
cut_line (c ∷ []) = none
cut_line (c ∷ d ∷ s) =
    let rest = cut_line (d ∷ s) in if c == 13 && d == 10 then some ([], s) else onto_line c rest

abbrev pub with_key : Text → Text → Option (Text × Text)
with_key session ws_key = if empty ws_key then none else some (session, ws_key)

abbrev pub with_session : Text → Text → Option (Text × Text)
with_session session headers =
    if ltb (length session) 3 || not (starts_with (text "PS") session)
    then none
    else with_key session (header_value headers (text "Sec-WebSocket-Key"))

abbrev pub with_path : Text × Option Text → Text → Option (Text × Text)
with_path (path, query) headers =
    if same path (text "/ws/payment")
    then with_session (query_param (query_of query) (text "payment_session_id")) headers
    else none

abbrev pub with_words : Text × Text → Text → Option (Text × Text)
with_words (method, target) headers =
    if not (same method (text "GET")) || empty target
    then none
    else with_path (cut b'?' target) headers

abbrev pub with_line : Option (Text × Text) → Option (Text × Text)
with_line none = none
with_line (some (line, rest)) = with_words (request_words line) rest

-- performHandshake() up to its response: the payment session and the key of the client, or none
-- where it returns false.
unfoldable pub check_handshake : Text → Option (Text × Text)
unfolding header_value request_words
check_handshake raw_request = with_line (cut_line raw_request)

module _ (sha1 : Text → Text) (write : ℕ → Text → Bool) where
  abbrev pub answer_handshake : ℕ → Option (Text × Text) → Option Text
  answer_handshake client_fd none = none
  answer_handshake client_fd (some (session, ws_key)) =
      if write client_fd (handshake_response sha1 ws_key) then some session else none

  -- The payment session where performHandshake() returns true, and none where it returns false.
  unfoldable pub perform_handshake : ℕ → Text → Option Text
  perform_handshake client_fd raw_request = answer_handshake client_fd (check_handshake raw_request)
