-- ===== src/Http/Backend.antt =====
-- backend/main.cpp: one connection of the backend.
use paid_server.Base.{Text, text, List, [], ◌∷◌, ◌++◌, Option, none, some, length}
use paid_server.Database.Monad.{Result, ok, throws, continue}
use paid_server.Strings.{to_string}
use paid_server.Interfaces.{JsonLib, Crypto}
use paid_server.Payment.World.{World, HttpRequest, HttpResponse, Config, Envelope}
use paid_server.Payment.Routes.{handle_request}
use paid_server.Http.{Request, read_request}
use paid_server.Gateway.Forwarder.{crlf, header_lines}

abbrev pub with_no_address : Option Request → Option HttpRequest
with_no_address none = none
with_no_address (some r) = some (record {
  method = r.method;
  path = r.path;
  query = r.query;
  headers = r.headers;
  body = r.body;
})

abbrev pub read_with : Result (Option Request) → Result (Option HttpRequest)
read_with (throws e) = throws e
read_with (ok r) = ok (with_no_address r)

unfoldable pub read_http_request : List Text → Result (Option HttpRequest)
read_http_request cs = read_with (read_request cs)

module _ (c : Crypto) (j : JsonLib) (cfg : Config) where
  -- The object with the fields code, message and data.
  abbrev pub envelope_text : Envelope j.Json → Text
  envelope_text e = j.dump (
      j.object (
        (text "code", j.number e.code)
        ∷ (text "message", j.string e.message)
        ∷ (text "data", e.content)
        ∷ []))

  abbrev pub payload : HttpResponse j.Json → Text → Text
  payload response body =
      text "HTTP/1.1 "
      ++ to_string response.http_status
      ++ text " OK"
      ++ crlf
      ++ text "Content-Type: application/json; charset=utf-8"
      ++ crlf
      ++ header_lines response.extra_headers
      ++ text "Content-Length: "
      ++ to_string (length body)
      ++ crlf
      ++ text "Connection: close"
      ++ crlf
      ++ crlf
      ++ body

  unfoldable pub write_http_response : HttpResponse j.Json → Text
  write_http_response response = payload response (envelope_text response.envelope)

  abbrev answer : Result (Option HttpRequest) → World → Result (Option Text) × World
  answer (throws e) w = (throws e, w)
  answer (ok none) w = (ok none, w)
  answer (ok (some request)) w =
      continue (handle_request c j cfg request w) (λ r w'. (ok (some (write_http_response r)), w'))

  -- What is written to a connection with these reads, if anything.
  unfoldable pub handle_client_connection : List Text → World → Result (Option Text) × World
  handle_client_connection cs = answer (read_http_request cs)
