-- ===== src/Http/Dial/Tests.antt =====
-- A backend whose Content-Length is no number.
use paid_server.Base.{Text, text, true, List, [], ◌∷◌, ◌++◌, some}
use paid_server.Gateway.Forwarder.{ForwardRequest, BackendAddress, request_text, crlf}
use paid_server.Http.Response.{forward_to_backend}
use paid_server.Http.Dial.{Dialled, IsForwarded, forward_connected, forward_connected-IsForwarded}

abbrev address : BackendAddress
address = record { ip = text "localhost"; http_port = 8080 }

abbrev order_call : ForwardRequest
order_call = record {
  method = text "GET";
  path = text "/api/payment/orders/1";
  query = [];
  headers = [];
  body = [];
}

abbrev dialled : Dialled
dialled = record { socket = some 4; connected = true }

abbrev no_number : List Text
no_number = (text "HTTP/1.1 200 OK" ++ crlf ++ text "Content-Length: x" ++ crlf ++ crlf) ∷ []

forward_connected-IsForwarded_example :
    IsForwarded
      (some 4)
      (forward_to_backend true (request_text address order_call []) (500 ∷ []) no_number)
      (forward_connected (λ ip. true) dialled address order_call [] (500 ∷ []) no_number)
forward_connected-IsForwarded_example =
    forward_connected-IsForwarded (λ ip. true) dialled address order_call [] (500 ∷ []) no_number
