-- ===== src/Http/Gateway.antt =====
-- gateway/main.cpp: one HTTP connection of the gateway.
use paid_server.Base.{Text, text, List, ◌++◌, Option, none, some, length}
use paid_server.Database.Monad.{Result, ok, throws, continue}
use paid_server.Strings.{to_string}
use paid_server.Interfaces.{JsonLib}
use paid_server.Gateway.Handler.{HttpRequest, HttpResponse, Services, Sources, handle_request}
use paid_server.Gateway.Forwarder.{crlf, header_lines}
use paid_server.Http.{Request, read_request}

abbrev pub with_address : Text → Option Request → Option HttpRequest
with_address client_ip none = none
with_address client_ip (some r) = some (record {
  method = r.method;
  path = r.path;
  query = r.query;
  headers = r.headers;
  body = r.body;
  client_ip = client_ip;
})

abbrev pub read_with : Text → Result (Option Request) → Result (Option HttpRequest)
read_with client_ip (throws e) = throws e
read_with client_ip (ok r) = ok (with_address client_ip r)

unfoldable pub read_http_request : Text → List Text → Result (Option HttpRequest)
read_http_request client_ip cs = read_with client_ip (read_request cs)

unfoldable pub write_http_response : HttpResponse → Text
write_http_response response =
    text "HTTP/1.1 "
    ++ to_string response.http_status
    ++ text " OK"
    ++ crlf
    ++ text "Content-Type: application/json; charset=utf-8"
    ++ crlf
    ++ header_lines response.extra_headers
    ++ text "Content-Length: "
    ++ to_string (length response.body)
    ++ crlf
    ++ text "Connection: close"
    ++ crlf
    ++ crlf
    ++ response.body

module _ {W : Type 0} (j : JsonLib) (services : Services W) (sources : Sources) where
  abbrev answer : Result (Option HttpRequest) → W → Result (Option Text) × W
  answer (throws e) w = (throws e, w)
  answer (ok none) w = (ok none, w)
  answer (ok (some request)) w =
      continue (handle_request j services sources request w)
        (λ r w'. (ok (some (write_http_response r)), w'))

  -- What is written to a connection with these reads, if anything.
  unfoldable pub handle_http_client_connection : Text → List Text → W → Result (Option Text) × W
  handle_http_client_connection client_ip cs = answer (read_http_request client_ip cs)
