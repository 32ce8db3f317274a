-- ===== src/Gateway/Forwarder.antt =====
-- gateway/common/http_forwarder.hpp: the request that the gateway writes to the backend.
use paid_server.Base.{
  ℕ, Text, text, empty, [], ◌∷◌, ◌++◌, Option, none, some, if◌then◌else◌, length,
}
use paid_server.Base.Map.{find, text_eq}
use paid_server.Strings.{Headers, to_string}

-- gateway_forward::HttpRequest.
pub record ForwardRequest : Type 0 where
  pub method : Text
  pub path : Text
  pub query : Text
  pub headers : Headers
  pub body : Text

-- PaymentBackendConfig.
pub record BackendAddress : Type 0 where
  pub ip : Text
  pub http_port : ℕ

unfoldable pub build_target : ForwardRequest → Text
build_target request =
    if empty request.query then request.path else request.path ++ text "?" ++ request.query

abbrev pub unless_empty : Text → Text → Headers
unless_empty key value = if empty value then [] else (key, value) ∷ []

abbrev pub copied : Text → Option Text → Headers
copied key none = []
copied key (some value) = unless_empty key value

-- The media type is JSON where a request with a body has none.
unfoldable pub content_type_header : Text → Option Text → Headers
content_type_header body (some value) = (text "Content-Type", value) ∷ []
content_type_header body none =
    if empty body then [] else (text "Content-Type", text "application/json") ∷ []

-- The headers taken from the request.
unfoldable pub copied_headers : ForwardRequest → Headers
unfolding content_type_header
copied_headers request =
    content_type_header request.body (find (text "Content-Type") request.headers)
    ++ (copied (text "Cookie") (find (text "Cookie") request.headers)
        ++ (copied (text "X-Forwarded-For") (find (text "X-Forwarded-For") request.headers)
            ++ (copied (text "User-Agent") (find (text "User-Agent") request.headers)
                ++ unless_empty (text "Content-Length")
                    (if empty request.body then [] else to_string (length request.body)))))

-- The header lines, in their order.
unfoldable pub sent_headers : BackendAddress → ForwardRequest → Text → Headers
unfolding copied_headers
sent_headers backend request user_id =
    (text "Host", backend.ip ++ text ":" ++ to_string backend.http_port)
    ∷ (text "Connection", text "close")
    ∷ (unless_empty (text "X-User-Id") user_id ++ copied_headers request)

abbrev pub crlf : Text
crlf = 13 ∷ 10 ∷ []

unfoldable pub header_lines : Headers → Text
header_lines [] = []
header_lines ((key, value) ∷ hs) = key ++ text ": " ++ value ++ crlf ++ header_lines hs

-- The bytes that forwardToBackend sends.
unfoldable pub request_text : BackendAddress → ForwardRequest → Text → Text
unfolding build_target header_lines
request_text backend request user_id =
    request.method
    ++ text " "
    ++ build_target request
    ++ text " HTTP/1.1"
    ++ crlf
    ++ header_lines (sent_headers backend request user_id)
    ++ crlf
    ++ request.body
