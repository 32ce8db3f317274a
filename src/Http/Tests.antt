-- ===== src/Http/Tests.antt =====
-- A request that the gateway sends, in two reads of the backend.
use paid_server.Base.{
  true, ◌≤◌, ◌≡◌, refl, Text, text, same, List, [], ◌∷◌, All, arith, some, take, drop, length,
}
use paid_server.Base.Map.{find, text_eq}
use paid_server.Database.Monad.{ok}
use paid_server.Strings.{drop_blank, to_string, header_value, Headers}
use paid_server.Gateway.Forwarder.{
  ForwardRequest, BackendAddress, request_text, sent_headers, copied_headers, build_target,
  header_lines, content_type_header,
}
use paid_server.Http.{max_head}
use paid_server.Http.Backend.{read_http_request}
use paid_server.Http.Chunks.{IsFull, join}
use paid_server.Http.Stored.{IsHeader}
use paid_server.Http.Forwarded.{IsSendable, received_as, request_text-received}
use mathlib.Core.List.{append-nil}
use paid_server.Interfaces.{pos}
use paid_server.Jwt.Tests.{toy_json, toy_crypto}
use paid_server.Payment.Tests.{toy_config}
use paid_server.Payment.World.{HttpResponse}
use paid_server.Http.Response.{read_http_response, send_all}
use paid_server.Http.Backend.{write_http_response, envelope_text}
use paid_server.Http.Replied.{write_http_response-read}
use paid_server.Gateway.Handler
use paid_server.Http.Gateway
use paid_server.Http.Notify.{notify_payment_result, notify_text}
use paid_server.Http.Posted.{notify_text-received}
use paid_server.Http.Notified.{notify_payment_result-reply}
use paid_server.Http.Decide.{
  all_of, line_byte, other_than, trim_ok, header_ok, others_ok, words_ok, headers_ok,
}

abbrev backend : BackendAddress
backend = record { ip = text "10.0.0.2"; http_port = 8080 }

abbrev confirm_call : ForwardRequest
confirm_call = record {
  method = text "POST";
  path = text "/api/payment/confirm";
  query = text "a=1";
  headers = (text "Cookie", text "session_id=s1") ∷ [];
  body = text "{}";
}

confirm_call-IsSendable : IsSendable backend confirm_call (text "u1")
unfolding all_of line_byte other_than text sent_headers copied_headers content_type_header find same
    to_string drop_blank header_ok trim_ok
confirm_call-IsSendable = record {
  method_word = words_ok confirm_call.method refl;
  method_full = refl;
  path_word = words_ok confirm_call.path refl;
  path_full = refl;
  path_mark = others_ok b'?' confirm_call.path refl;
  query_word = words_ok confirm_call.query refl;
  header_lines = headers_ok (sent_headers backend confirm_call (text "u1")) refl;
  body_length = omega arith;
}

-- The text of the request, in two reads.
abbrev reads : List Text
reads =
    take 7 (request_text backend confirm_call (text "u1"))
    ∷ drop 7 (request_text backend confirm_call (text "u1"))
    ∷ []

reads-IsFull : All IsFull reads
unfolding request_text text
reads-IsFull = (refl, (refl, tt))

reads-join : join reads ≡ request_text backend confirm_call (text "u1")
unfolding request_text text sent_headers to_string find same
reads-join = refl

reads_short : length (request_text backend confirm_call (text "u1")) ≤ max_head
unfolding request_text text sent_headers copied_headers content_type_header find same to_string
    header_lines build_target
reads_short = omega arith

request_text-received_example :
    (headers : Headers) × (read_http_request reads ≡ ok (some (received_as confirm_call headers)))
    × (header_value headers (text "X-User-Id") ≡ text "u1")
request_text-received_example =
    request_text-received backend confirm_call (text "u1") reads confirm_call-IsSendable
      reads-IsFull reads-join reads_short

-- A response with a cookie.
abbrev logged_in : HttpResponse toy_json.Json
logged_in = record {
  http_status = 200;
  envelope = record { code = 0; message = []; content = toy_json.string [] };
  extra_headers = (text "Set-Cookie", text "session_id=s1") ∷ [];
}

abbrev written : Text
written = write_http_response toy_crypto toy_json toy_config logged_in

logged_in-IsHeader : All IsHeader logged_in.extra_headers
unfolding all_of line_byte other_than text header_ok trim_ok drop_blank same
logged_in-IsHeader = headers_ok logged_in.extra_headers refl

write_http_response-read_example :
    read_http_response (written ∷ [])
    ≡ ok (
        some (record {
          status = pos 200;
          body = envelope_text toy_crypto toy_json toy_config logged_in.envelope;
          extra_headers = (text "Set-Cookie", text "session_id=s1") ∷ [];
        }))
unfolding same text write_http_response to_string header_lines
write_http_response-read_example =
    write_http_response-read toy_crypto toy_json toy_config logged_in (written ∷ [])
      logged_in-IsHeader (refl, tt) (omega arith) (refl, tt) (append-nil written) (omega arith)
      (omega arith)

-- The gateway's answer to a notification.
abbrev pushed : Handler.HttpResponse
pushed = record { http_status = 200; body = text "{}"; extra_headers = [] }

notify_payment_result-reply_example :
    notify_payment_result true (text "POST") (4 ∷ []) (Gateway.write_http_response pushed ∷ [])
    ≡ true
unfolding text Gateway.write_http_response to_string header_lines send_all
notify_payment_result-reply_example =
    notify_payment_result-reply (text "POST") (4 ∷ []) pushed
      (Gateway.write_http_response pushed ∷ []) refl tt tt (omega arith) (refl, tt)
      (append-nil (Gateway.write_http_response pushed)) (omega arith) (omega arith)

notification_reads-IsFull : All IsFull (notify_text (text "h") (text "1") (text "{}") ∷ [])
unfolding notify_text text
notification_reads-IsFull = (refl, tt)

notify_text-received_example :
    (m : Headers) × (Gateway.read_http_request
        (text "10.0.0.2")
        (notify_text (text "h") (text "1") (text "{}") ∷ [])
      ≡ ok (
          some (record {
            method = text "POST";
            path = text "/internal/payment/result";
            query = [];
            headers = m;
            body = text "{}";
            client_ip = text "10.0.0.2";
          })))
unfolding notify_text text to_string all_of line_byte other_than header_ok trim_ok drop_blank same
notify_text-received_example =
    notify_text-received (text "h") (text "1") (text "{}") (text "10.0.0.2")
      (notify_text (text "h") (text "1") (text "{}") ∷ [])
      (headers_ok ((text "Host", text "h:1") ∷ []) refl).0 (omega arith) notification_reads-IsFull
      (append-nil (notify_text (text "h") (text "1") (text "{}"))) (omega arith)
