-- ===== src/Http/Through.antt =====
-- A request that goes from the gateway to the backend and back: forwardToBackend of
-- gateway/common/http_forwarder.hpp, and handleClientConnection of backend/main.cpp.
mod Tests
use paid_server.Base.{◌^◌, ◌<◌, ◌≤◌, ◌≡◌, refl, text, All, length}
use paid_server.Database.Monad.{Result, ok, throws, recover}
use paid_server.Interfaces.{JsonLib, Crypto}
use paid_server.Payment.World.{World, HttpRequest, HttpResponse, Config}
use paid_server.Payment.Replies.{deny}
use paid_server.Payment.Routes.{handle_request, dispatch, route_of}
use paid_server.Http.Backend.{write_http_response, envelope_text}
use paid_server.Http.Stored.{IsHeader, IsNoLength}
use paid_server.Http.Response.{ForwardResponse, max_response}
use paid_server.Http.Written.{forwarded}

-- A response that can stand in the text of HTTP.
pub record IsAnswer (c : Crypto) (j : JsonLib) (cfg : Config) (r : HttpResponse j.Json)
    : Type 0 where
  pub header_lines : All IsHeader r.extra_headers
  pub no_length : All IsNoLength r.extra_headers
  pub status_int : r.http_status < 2 ^ 31
  pub text_length : length (write_http_response c j cfg r) ≤ max_response
  pub body_length : length (envelope_text c j cfg r.envelope) < 2 ^ 64

module _ (c : Crypto) (j : JsonLib) (cfg : Config) where
  -- What the gateway makes of a response.
  abbrev pub forwarded_as : HttpResponse j.Json → Result ForwardResponse
  forwarded_as r = ok (forwarded r.http_status (envelope_text c j cfg r.envelope) r.extra_headers)

  -- handleRequest() answers every request: its catch-all lets no exception out.
  handle_request-answers :
      (request : HttpRequest) (w : World)
      → (response : HttpResponse j.Json) × (w' : World) × (handle_request c j cfg request w
          ≡ (ok response, w'))
  unfolding handle_request
  handle_request-answers request w = recovered (dispatch c j cfg (route_of request) request w)
    where
      recovered :
          (r : Result (HttpResponse j.Json) × World)
          → (response : HttpResponse j.Json) × (w' : World) × (recover r
                (λ _. deny j 500 50001 (text "服务器内部错误"))
              ≡ (ok response, w'))
      recovered (ok response, w') = (response, w', refl)
      recovered (throws e, w') = (_, w', refl)
