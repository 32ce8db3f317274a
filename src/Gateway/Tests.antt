-- ===== src/Gateway/Tests.antt =====
-- The gateway of one user, and a registry of two payment pages.
use paid_server.Base.{
  ℕ, ◌≡◌, ◌≢◌, List, refl, Text, text, true, false, [], ◌∷◌, ◌++◌, some, same, same_iff,
  if◌then◌else◌, arith,
}
use paid_server.Base.Map.{find, text_eq, nat_eq}
use paid_server.Database.Monad.{Result, ok}
use paid_server.Strings.{header_value, header_with, to_lower}
use paid_server.Jwt.Tests.{toy_json, toy_crypto}
use paid_server.Payment.World
use paid_server.Payment.Routes
use paid_server.Payment.Tests.{toy_config, world}
use paid_server.Gateway.Forwarder.{ForwardRequest, BackendAddress, sent_headers}
use paid_server.Gateway.Handler.{
  HttpRequest, HttpResponse, Services, Sources, requires_auth, to_forward_request, handle_request,
  session_of,
}
use paid_server.Gateway.Access.{
  sent_headers-header_value, handle_request-identity, handle_request-pushes, with_backend,
  with_push,
}
use paid_server.Gateway.Backend.{IsAnonymous, Answered, with_headers, handle_request-user}
use paid_server.Gateway.Frame.{text_frame, read_frame, read_frame-text_frame}
use paid_server.Gateway.Main.{Calls, done, raises, exception, terminates, main}
use paid_server.Gateway.Main.Ends.{main-ends}
use paid_server.Gateway.Registry.{WsRegistry, bind, unbind, push}
use paid_server.Gateway.Registry.Links.{BoundTo, unbind_reused}
use paid_server.Gateway.Registry.History.{
  RegistryUse, binds, unbinds, after_uses, AllFresh, IsRecorded, after_uses-IsRecorded,
}

abbrev confirm_request : HttpRequest
confirm_request = record {
  method = text "POST";
  path = text "/api/payment/confirm";
  query = [];
  headers = (text "Cookie", text "session_id=SID1") ∷ (text "X-User-Id", text "somebody else") ∷ [];
  body = text "{}";
  client_ip = text "10.0.0.2";
}

abbrev sources : Sources
sources = record { backend_ip = text "10.0.0.1"; nginx_ip = text "10.0.0.2" }

abbrev backend : BackendAddress
backend = record { ip = text "10.0.0.1"; http_port = 9000 }

-- The answer names the user, so that a wrong one would be seen.
abbrev answer : ℕ → ForwardRequest → Text → ℕ → Result HttpResponse × ℕ
answer default request user_id w = (
  ok (record {
    http_status = if same user_id (text "u") then 200 else default;
    body = [];
    extra_headers = [];
  }),
  w,
)

-- Redis knows one user.
abbrev services : Services ℕ
services = record {
  user_id_of = λ session w. (ok (some (text "u")), w);
  forward_to_backend = answer 200;
  push = λ session message w. (ok true, w);
}

sent_headers-header_value_example :
    header_value
      (sent_headers backend (to_forward_request confirm_request) (text "u"))
      (text "X-User-Id")
    ≡ text "u"
sent_headers-header_value_example = sent_headers-header_value backend confirm_request (text "u")

confirm_requires_auth : requires_auth (text "POST") (text "/api/payment/confirm") ≡ true
unfolding requires_auth same text
confirm_requires_auth = refl

alike :
    (user_id : Text) (w : ℕ)
    → session_of confirm_request ≢ []
    → services.user_id_of (session_of confirm_request) 0 ≡ (ok (some user_id), w)
    → answer 404 (to_forward_request confirm_request) user_id w
      ≡ answer 500 (to_forward_request confirm_request) user_id w
unfolding same text
alike user_id w s e = ground (arith, same_iff user_id (text "u"))

handle_request-identity_example :
    handle_request toy_json
      (with_backend toy_json services sources (answer 404))
      sources
      confirm_request
      0
    ≡ handle_request toy_json
        (with_backend toy_json services sources (answer 500))
        sources
        confirm_request
        0
handle_request-identity_example =
    handle_request-identity toy_json services sources (answer 404) (answer 500) confirm_request 0
      confirm_requires_auth alike

not_backend : text "10.0.0.2" ≢ text "10.0.0.1"
unfolding text
not_backend = ground arith

handle_request-pushes_example :
    handle_request toy_json
      (with_push toy_json services sources (λ s m w. (ok true, w)))
      sources
      confirm_request
      0
    ≡ handle_request toy_json
        (with_push toy_json services sources (λ s m w. (ok false, w)))
        sources
        confirm_request
        0
handle_request-pushes_example =
    handle_request-pushes toy_json services sources (λ s m w. (ok true, w)) (λ s m w. (ok false, w))
      confirm_request 0 not_backend

abbrev scan_request : World.HttpRequest
scan_request = record {
  method = text "GET";
  path = text "/api/payment/page";
  query = text "token=t";
  headers = [];
  body = [];
}

abbrev user_call : World.HttpRequest
user_call = record {
  method = text "POST";
  path = text "/api/payment/confirm";
  query = [];
  headers = (text "X-User-Id", text "u1") ∷ [];
  body = text "{}";
}

user_call-IsAnonymous : IsAnonymous user_call.headers []
unfolding header_value header_with to_lower text
user_call-IsAnonymous = record {
  no_user = refl;
  others = λ name d. ground (
    arith,
    same_iff (text "x-user-id") (to_lower name),
    same_iff (to_lower name) (text "x-user-id"),
  );
}

handle_request-user_example :
    Answered toy_json world true
      (Routes.handle_request toy_crypto toy_json toy_config (with_headers [] user_call) world)
      (Routes.handle_request toy_crypto toy_json toy_config user_call world)
unfolding requires_auth same text
handle_request-user_example =
    handle_request-user toy_crypto toy_json toy_config user_call [] world user_call-IsAnonymous

read_frame-text_frame_example :
    (frame : Text) × (text_frame (7 ∷ 8 ∷ []) ≡ some frame)
    × (read_frame (frame ++ 9 ∷ []) ≡ some (7 ∷ 8 ∷ [], 9 ∷ []))
read_frame-text_frame_example = read_frame-text_frame (7 ∷ 8 ∷ []) (9 ∷ []) (omega arith)

-- One page, on descriptor 3.
abbrev page : Text
page = b'p' ∷ []

abbrev one_page : WsRegistry
one_page = record { session_to_fd = (page, 3) ∷ []; fd_to_session = (3, page) ∷ []; closed = [] }

-- A page comes, and then another one of the same session; the first one goes.
abbrev visits : List RegistryUse
visits = unbinds 3 ∷ binds page 4 ∷ binds page 3 ∷ []

visits-AllFresh : AllFresh visits
unfolding same
visits-AllFresh = ((λ other e. ground (arith, same_iff page other)), ((λ other e. cc), tt))

after_uses-IsRecorded_example : IsRecorded visits (after_uses visits)
after_uses-IsRecorded_example = after_uses-IsRecorded visits visits-AllFresh

page_bound : BoundTo one_page page 3
unfolding find same
page_bound = refl

pages_differ : page ≢ b'q' ∷ []
pages_differ = ground arith

unbind_reused_example :
    (let r₁ = bind page 4 one_page in
      let r₂ = bind (b'q' ∷ []) 3 r₁ in
      let r₃ = unbind 3 r₂ in
      (r₁.closed ≡ 3 ∷ [])
      × BoundTo r₂ (b'q' ∷ []) 3
      × (push (λ fd bytes. true) (b'q' ∷ []) [] r₃ ≡ false))
unbind_reused_example =
    unbind_reused (λ fd bytes. true) page (b'q' ∷ []) [] 3 4 one_page page_bound pages_differ
      (omega arith)

-- The WebSocket port is taken: the thread of its server throws.
abbrev taken_port : Calls
taken_port = record {
  load = λ path. done tt;
  log = done tt;
  session_store = done tt;
  options = done tt;
  workers = done tt;
  handlers = done tt;
  thread = done tt;
  web_socket = raises (exception (text "bind"));
  http = done tt;
  stopped = done tt;
}

main-ends_example : main (text "gateway" ∷ text ".env" ∷ []) taken_port ≡ terminates
unfolding text
main-ends_example = main-ends (text "gateway" ∷ text ".env" ∷ []) taken_port
