-- ===== src/Http/Notify.antt =====
-- backend/common/gateway_notify.hpp: the notification of the gateway.
use paid_server.Base.{
  ℕ, ◌*◌, Text, text, Bool, true, false, List, [], ◌∷◌, ◌++◌, Option, none, some, ◌==◌, ◌&&◌,
  if◌then◌else◌, length,
}
use paid_server.Strings.{to_string, cut}
use paid_server.Interfaces.{JsonLib, ℤ, pos, negsuc}
use paid_server.Settings.Numbers.{stoi}
use paid_server.Gateway.Forwarder.{crlf}
use paid_server.Http.{Head, read_head}
use paid_server.Http.Response.{send_all}

-- The JSON text of the notification.
unfoldable pub notification : JsonLib → Text → Text → Text
notification j payment_session_id order_sn = j.dump (
    j.object (
      (text "type", j.string (text "PAYMENT_RESULT"))
      ∷ (text "payment_session_id", j.string payment_session_id)
      ∷ (text "order_sn", j.string order_sn)
      ∷ (text "payment_status", j.string (text "PAID"))
      ∷ (text "message", j.string (text "支付成功"))
      ∷ []))

-- The request: `host` and `port` of the gateway in text.
unfoldable pub notify_text : Text → Text → Text → Text
notify_text host port payload =
    text "POST /internal/payment/result HTTP/1.1"
    ++ crlf
    ++ text "Host: "
    ++ host
    ++ text ":"
    ++ port
    ++ crlf
    ++ text "Content-Type: application/json"
    ++ crlf
    ++ text "Content-Length: "
    ++ to_string (length payload)
    ++ crlf
    ++ text "Connection: close"
    ++ crlf
    ++ crlf
    ++ payload

abbrev pub onto_line : ℕ → Bool → Text → Text
onto_line c true rest = []
onto_line c false rest = c ∷ rest

abbrev pub is_newline : Text → Bool
is_newline [] = false
is_newline (c ∷ s) = c == 10

-- The text before the first "\r\n"; all of it if there is none.
unfoldable pub before_crlf : Text → Text
before_crlf [] = []
before_crlf (c ∷ s) = onto_line c (c == 13 && is_newline s) (before_crlf s)

abbrev pub number_in : Text × Option Text → ℤ
number_in (digits, none) = negsuc 0
number_in (digits, some rest) = first_number (stoi digits)
  where
    first_number : Option (ℤ × Text) → ℤ
    first_number none = negsuc 0
    first_number (some (z, rest)) = z

abbrev pub status_in : Text × Option Text → ℤ
status_in (version, none) = negsuc 0
status_in (version, some rest) = number_in (cut b' ' rest)

abbrev pub status_of_head : Option Head → ℤ
status_of_head none = negsuc 0
status_of_head (some (head, rest, cs)) = status_in (cut b' ' (before_crlf head))

abbrev pub max_status : ℕ
max_status = 64 * 1024

-- readHttpStatus(), on the reads of the socket.
unfoldable pub read_http_status : List Text → ℤ
unfolding before_crlf
read_http_status cs = status_of_head (read_head max_status [] cs)

abbrev pub is_ok : ℤ → Bool
is_ok (pos n) = n == 200
is_ok (negsuc n) = false

-- notifyPaymentResult(): whether the connection is made, the request, what the writes take and what
-- the reads give.
unfoldable pub notify_payment_result : Bool → Text → List ℕ → List Text → Bool
unfolding read_http_status
notify_payment_result connected request writes reads =
    if connected
    then (if send_all (length request) writes then is_ok (read_http_status reads) else false)
    else false
