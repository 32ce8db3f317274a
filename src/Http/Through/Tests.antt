-- ===== src/Http/Through/Tests.antt =====
-- A logout that goes through the gateway.
use paid_server.Base.{Text, text, [], ◌∷◌}
use paid_server.Base.Map.{text_eq}
use paid_server.Gateway.Forwarder.{ForwardRequest, BackendAddress, request_text}
use paid_server.Jwt.Tests.{toy_json, toy_crypto}
use paid_server.Payment.Tests.{toy_config, world}
use paid_server.Payment.World.{World, HttpResponse}
use paid_server.Http.Backend.{write_http_response}

abbrev address : BackendAddress
address = record { ip = text "10.0.0.2"; http_port = 8080 }

abbrev logout_call : ForwardRequest
logout_call = record {
  method = text "POST";
  path = text "/api/auth/logout";
  query = [];
  headers = (text "Cookie", text "session_id=s1") ∷ [];
  body = [];
}

abbrev sent : Text
sent = request_text address logout_call (text "u1")

abbrev logged_in_world : World
logged_in_world = record world {
  redis = record { entries = (text "payment:session:s1", (text "u1", 900)) ∷ []; faults = [] };
}

abbrev logged_out : HttpResponse toy_json.Json
logged_out = record {
  http_status = 200;
  envelope = record { code = 0; message = []; content = [] };
  extra_headers =
      (text "Set-Cookie", text "session_id=; Path=/; HttpOnly; SameSite=Lax; Max-Age=0") ∷ [];
}

abbrev written : Text
written = write_http_response toy_crypto toy_json toy_config logged_out
