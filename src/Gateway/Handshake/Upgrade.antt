-- ===== src/Gateway/Handshake/Upgrade.antt =====
-- gateway/common/ws_registry.hpp: what performHandshake makes of the request by which a payment page
-- opens its WebSocket connection.
use mathlib.Core.List.{append_assoc}
use paid_server.Base.{
  ℕ, ◌≤◌, ◌≡◌, ◌≢◌, refl, ap, ◌∙◌, Text, text, same, empty, Bool, true, false, List, [], ◌∷◌, ◌++◌,
  none, some, All, arith, length, if◌then◌else◌,
}
use paid_server.Strings
use paid_server.Strings.{Headers, trim, to_lower, cut, starts_with, query_param, scan_fields}
use paid_server.Settings.Load.{lines}
use paid_server.Settings.Keys.{lines-append, trim-IsTrim}
use paid_server.Gateway.Forwarder.{crlf, header_lines}
use paid_server.Http.{pop_cr, request_words}
use paid_server.Http.Lines.{IsLineByte, pop_cr-end}
use paid_server.Http.Stored.{IsHeader, header_text, trim-space}
use paid_server.Http.Target.{IsWord, cut-none, cut-mark, request_words-line, target-IsLine}
use paid_server.Gateway.Handshake.{
  header_value, value_in, cut_line, with_line, with_words, with_session, with_key, check_handshake,
  perform_handshake, handshake_response, make_accept_key,
}
use paid_server.Gateway.Handshake.Base64.{base64_decode, base64_decode-base64_encode, IsByte}

-- The lines of a list of headers, followed by an empty line.
no_newline : (l : Text) → All IsLineByte l → All (λ c. c ≢ 10) (l ++ 13 ∷ [])
no_newline [] k = ((λ h. omega (arith, h)), tt)
no_newline (c ∷ l) ((n, m), k) = (m, no_newline l k)

header_line_shape :
    (k v r t : Text)
    → k ++ text ": " ++ v ++ crlf ++ r ++ t ≡ (header_text (k, v) ++ 13 ∷ []) ++ 10 ∷ (r ++ t)
unfolding text
header_line_shape k v r t = simp append_assoc refl

value_in-IsHeader :
    (key k v : Text) (ls : List Text)
    → IsHeader (k, v)
    → value_in key ((header_text (k, v) ++ 13 ∷ []) ∷ ls)
      ≡ (if same (to_lower k) key then v else value_in key ls)
unfolding value_in
value_in-IsHeader key k v ls (i, colon, tk, tv) =
    rw
      (
        pop_cr-end (header_text (k, v)),
        cut-mark b':' k (b' ' ∷ v) colon,
        trim-IsTrim k tk,
        trim-space v,
        trim-IsTrim v tv,
      )
      refl

value_in-header_lines :
    (key : Text) (hs : Headers)
    → All IsHeader hs
    → value_in key (lines (header_lines hs ++ crlf)) ≡ Strings.header_with key hs
unfolding header_lines value_in lines pop_cr cut Strings.header_with
value_in-header_lines key [] h = refl
value_in-header_lines key ((k, v) ∷ hs) (i, h) =
    ap (λ t. value_in key (lines t)) (header_line_shape k v (header_lines hs) crlf)
    ∙ ap (value_in key) (
        lines-append (header_text (k, v) ++ 13 ∷ []) (header_lines hs ++ crlf)
          (no_newline (header_text (k, v)) i.0.0))
    ∙ value_in-IsHeader key k v (lines (header_lines hs ++ crlf)) i
    ∙ rw (value_in-header_lines key hs h) refl

-- The text of a header gives the value that the list of its headers gives.
header_value-header_lines :
    (hs : Headers) (name : Text)
    → All IsHeader hs
    → header_value (header_lines hs ++ crlf) name ≡ Strings.header_value hs name
unfolding header_value Strings.header_value
header_value-header_lines hs name h = value_in-header_lines (to_lower name) hs h

cut_line-crlf : (l r : Text) → All IsLineByte l → cut_line (l ++ 13 ∷ 10 ∷ r) ≡ some (l, r)
unfolding cut_line
cut_line-crlf [] r h = refl
cut_line-crlf (c ∷ []) r ((n, m), h) = ground (arith, n)
cut_line-crlf (c ∷ d ∷ l) r ((n, m), h) = ground (arith, n, cut_line-crlf (d ∷ l) r h)

-- The name of a payment session: it starts with PS, and stands in a query as it is.
pub record IsSession (session : Text) : Type 0 where
  pub word : IsWord session
  pub one_field : All (λ c. c ≢ b'&') session
  pub named : starts_with (text "PS") session ≡ true
  pub long : 3 ≤ length session

query_param-session :
    (session : Text)
    → IsSession session
    → query_param (text "payment_session_id=" ++ session) (text "payment_session_id") ≡ session
unfolding query_param scan_fields text cut same
query_param-session session h = rw (cut-none b'&' session h.one_field) refl

-- GET and its target.
abbrev target : Text → Text
target session = text "/ws/payment" ++ b'?' ∷ (text "payment_session_id=" ++ session)

-- The request of a payment page, with the headers that its browser sends.
unfoldable pub upgrade_text : Text → Headers → Text
upgrade_text session hs =
    text "GET "
    ++ text "/ws/payment?payment_session_id="
    ++ session
    ++ text " HTTP/1.1"
    ++ crlf
    ++ header_lines hs
    ++ crlf

abbrev request_line : Text → Text
request_line session = text "GET" ++ b' ' ∷ (target session ++ b' ' ∷ text "HTTP/1.1")

upgrade_text_shape :
    (session : Text) (hs : Headers)
    → upgrade_text session hs ≡ request_line session ++ 13 ∷ 10 ∷ (header_lines hs ++ crlf)
unfolding upgrade_text text
upgrade_text_shape session hs = simp append_assoc refl

target-IsWord : (session : Text) → IsSession session → IsWord (target session)
unfolding text
target-IsWord session h = ground (arith, h.word)

request_line-IsLine : (session : Text) → IsSession session → All IsLineByte (request_line session)
unfolding text
request_line-IsLine session h =
    (target-IsLine (text "GET") (target session) (ground arith) refl (target-IsWord session h)).0

session_passes :
    (session headers : Text)
    → IsSession session
    → with_session session headers
      ≡ with_key session (header_value headers (text "Sec-WebSocket-Key"))
session_passes session headers h = ground (arith, h.long, h.named)

with_line-request :
    (session : Text) (headers : Text)
    → IsSession session
    → with_words (request_words (request_line session)) headers
      ≡ with_key session (header_value headers (text "Sec-WebSocket-Key"))
unfolding text same cut
with_line-request session headers h =
    ap (λ w. with_words w headers)
      (request_words-line (text "GET") (target session) (text "HTTP/1.1") (ground arith) refl
        (target-IsWord session h) refl)
    ∙ ap (λ q. with_session q headers) (query_param-session session h)
    ∙ session_passes session headers h

check_handshake-upgrade :
    (session : Text) (hs : Headers)
    → IsSession session
    → All IsHeader hs
    → check_handshake (upgrade_text session hs)
      ≡ with_key session (Strings.header_value hs (text "Sec-WebSocket-Key"))
unfolding check_handshake
check_handshake-upgrade session hs h ks =
    ap check_handshake (upgrade_text_shape session hs)
    ∙ ap with_line (
        cut_line-crlf (request_line session) (header_lines hs ++ crlf)
          (request_line-IsLine session h))
    ∙ with_line-request session (header_lines hs ++ crlf) h
    ∙ ap (with_key session) (header_value-header_lines hs (text "Sec-WebSocket-Key") ks)

-- The magic number of RFC 6455.
abbrev magic : Text
magic = text "258EAFA5-E914-47DA-95CA-C5AB0DC85B11"

-- The request by which a payment page opens its WebSocket connection is accepted for its payment
-- session, exactly where the response is written in full: the payment session starts with PS, has
-- three bytes at least, none of them a blank or an ampersand, and the headers are well formed and
-- give a key. The accept key of the response decodes to the SHA-1 digest of the key and the magic
-- number, where a digest is made of bytes.
pub perform_handshake-upgrade :
    (sha1 : Text → Text) (write : ℕ → Text → Bool) (fd : ℕ) (session ws_key : Text) (hs : Headers)
    → IsSession session
    → All IsHeader hs
    → Strings.header_value hs (text "Sec-WebSocket-Key") ≡ ws_key
    → empty ws_key ≡ false
    → All IsByte (sha1 (ws_key ++ magic))
    → (perform_handshake sha1 write fd (upgrade_text session hs)
        ≡ (if write fd (handshake_response sha1 ws_key) then some session else none))
      × (base64_decode (make_accept_key sha1 ws_key) ≡ some (sha1 (ws_key ++ magic)))
unfolding perform_handshake make_accept_key
perform_handshake-upgrade sha1 write fd session ws_key hs h ks key full bytes = (
  rw (check_handshake-upgrade session hs h ks, key, full) refl,
  base64_decode-base64_encode (sha1 (ws_key ++ magic)) bytes,
)
