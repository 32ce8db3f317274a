-- ===== src/Http/Replied.antt =====
-- The response that the backend writes (writeHttpResponse of backend/main.cpp), as the gateway reads
-- it (readHttpResponse of gateway/common/http_forwarder.hpp).
use paid_server.Base.{
  ℕ, ◌^◌, ◌<◌, ◌≤◌, ◌≡◌, refl, ap, ◌∙◌, Text, List, [], ◌∷◌, Option, none, some, All, arith, length,
}
use paid_server.Database.Monad.{Result, ok, throws}
use paid_server.Strings.{Headers}
use paid_server.Interfaces.{JsonLib, Crypto}
use paid_server.Payment.World.{HttpResponse, Config}
use paid_server.Settings.Load.{lines}
use paid_server.Http.{cut_end, read_head, Head, pop_cr}
use paid_server.Http.Backend.{write_http_response, envelope_text}
use paid_server.Http.Chunks.{
  IsFull, join, joined, body_within, read_head-join, read_head-RestIsFull, RestIsFull,
  read_body-join,
}
use paid_server.Http.Stored.{IsHeader, IsNoLength}
use paid_server.Http.Response.{
  ForwardResponse, status_of, response_headers, response_finish, response_lines, response_rest,
  response_of, read_http_response, max_response,
}
use paid_server.Http.Written.{forwarded, cut_response, lines_written, lines_of}

-- What a response is, when its bytes are taken as one text.
abbrev response_at : Option (Text × Text) → Result (Option ForwardResponse)
response_at none = ok none
response_at (some (head, rest)) = response_lines (λ n. body_within n rest) (lines head)

finish_same :
    (line : Text) (f g : ℕ → Option Text) (r : Result (ℕ × Headers))
    → ((n : ℕ) → f n ≡ g n)
    → response_finish line f r ≡ response_finish line g r
finish_same line f g (throws e) h = refl
finish_same line f g (ok (n, hs)) h = ap (λ b. ok (response_of (status_of line) b hs)) (h n)

lines_same :
    (f g : ℕ → Option Text) (ls : List Text)
    → ((n : ℕ) → f n ≡ g n)
    → response_lines f ls ≡ response_lines g ls
lines_same f g [] h = refl
lines_same f g (l ∷ ls) h = finish_same (pop_cr l) f g (response_headers ls (0, [])) h

response_rest-joined : (h : Option Head) → RestIsFull h → response_rest h ≡ response_at (joined h)
unfolding body_within
response_rest-joined none f = refl
response_rest-joined (some (head, rest, cs)) f =
    lines_same _ _ (lines head) (λ n. read_body-join n rest cs f)

-- A response that the backend writes is the one that the gateway reads, however its bytes are split
-- into reads: it has the same status and body, and of the headers the cookies. The headers are
-- lines, none of them Content-Length; the status is an int; the text is at most 4 MiB.
pub write_http_response-read :
    (c : Crypto) (j : JsonLib) (cfg : Config) (response : HttpResponse j.Json) (cs : List Text)
    → All IsHeader response.extra_headers
    → All IsNoLength response.extra_headers
    → response.http_status < 2 ^ 31
    → All IsFull cs
    → join cs ≡ write_http_response c j cfg response
    → length (write_http_response c j cfg response) ≤ max_response
    → length (envelope_text c j cfg response.envelope) < 2 ^ 64
    → read_http_response cs
      ≡ ok (
          some (
            forwarded response.http_status
              (envelope_text c j cfg response.envelope)
              response.extra_headers))
unfolding read_http_response write_http_response
write_http_response-read c j cfg response cs hs nl st full e b bl =
    response_rest-joined (read_head max_response [] cs)
      (read_head-RestIsFull max_response [] cs full)
    ∙ ap response_at (
        read_head-join max_response [] cs full (omega (arith, ap length e, b))
        ∙ ap cut_end e
        ∙ cut_response response.http_status (envelope_text c j cfg response.envelope)
            response.extra_headers hs nl st bl)
    ∙ ap (response_lines (λ n. body_within n (envelope_text c j cfg response.envelope))) (
        lines_written response.http_status (envelope_text c j cfg response.envelope)
          response.extra_headers hs nl st bl)
    ∙ lines_of response.http_status (envelope_text c j cfg response.envelope) response.extra_headers
        hs nl st bl
