-- ===== src/Http/Notified.antt =====
-- The response of the gateway (writeHttpResponse of gateway/main.cpp) to a notification, as the
-- backend reads it (readHttpStatus of backend/common/gateway_notify.hpp).
use paid_server.Base.{
  ℕ, ◌^◌, ◌<◌, ◌≤◌, ◌≡◌, ◌≢◌, refl, ap, ◌∙◌, Text, text, true, List, [], ◌∷◌, ◌++◌, Option, none,
  some, ◌==◌, All, arith, length,
}
use paid_server.Strings.{to_string, cut}
use paid_server.Interfaces.{pos}
use paid_server.Settings.Bounds.{stoi-to_string}
use paid_server.Gateway.Handler.{HttpResponse}
use paid_server.Http.{cut_end, read_head, Head}
use paid_server.Http.Gateway.{write_http_response}
use paid_server.Http.Chunks.{IsFull, join, joined, read_head-join}
use paid_server.Http.Decide.{all_of, other_than, others_ok}
use paid_server.Http.Lines.{IsLineByte}
use paid_server.Http.Stored.{IsHeader, cut-without, IsNoLength}
use paid_server.Strings.Digits.{IsDigit, to_string-IsDigit}
use paid_server.Http.Written.{cut_response, status_line, status_line-IsLine}
use paid_server.Http.Response.{send_all}
use paid_server.Http.Notify.{
  before_crlf, number_in, status_in, status_of_head, max_status, read_http_status, is_ok,
  notify_payment_result,
}

before_crlf-line : (l r : Text) → All IsLineByte l → before_crlf (l ++ 13 ∷ 10 ∷ r) ≡ l
unfolding before_crlf
before_crlf-line [] r h = refl
before_crlf-line (c ∷ l) r ((n, m), h) = ground (arith, n, before_crlf-line l r h)

digits_other : (s : Text) → All IsDigit s → All (λ c. c ≢ b' ') s
digits_other [] h = tt
digits_other (c ∷ s) ((a, b), h) = (λ e. omega (arith, a, e), digits_other s h)

status_in-line :
    (n : ℕ)
    → n < 2 ^ 31
    → status_in (cut b' ' (text "HTTP/1.1 " ++ (to_string n ++ text " OK"))) ≡ pos n
unfolding text all_of other_than
status_in-line n b =
    ap status_in (
      cut-without b' ' (text "HTTP/1.1") (to_string n ++ text " OK")
        (others_ok b' ' (text "HTTP/1.1") refl))
    ∙ ap number_in (
        cut-without b' ' (to_string n) (text "OK")
          (digits_other (to_string n) (to_string-IsDigit n)))
    ∙ rw (stoi-to_string n b) refl

first_of : Option (Text × Text) → Text
first_of none = []
first_of (some (s, t)) = s

status_of_head-joined :
    (h : Option Head) {s t : Text}
    → joined h ≡ some (s, t)
    → status_of_head h ≡ status_in (cut b' ' (before_crlf s))
unfolding first_of
status_of_head-joined none e = cc
status_of_head-joined (some (head, rest, cs)) e =
    ap (λ r. status_in (cut b' ' (before_crlf (first_of r)))) e

-- Where the gateway answers a notification, the notification is a success exactly when the status is
-- 200, however the bytes of the response are split into reads. The headers are lines, none of them
-- Content-Length; the status is an int; the text is at most 64 KiB, and the request is sent.
pub notify_payment_result-reply :
    (request : Text) (writes : List ℕ) (response : HttpResponse) (cs : List Text)
    → send_all (length request) writes ≡ true
    → All IsHeader response.extra_headers
    → All IsNoLength response.extra_headers
    → response.http_status < 2 ^ 31
    → All IsFull cs
    → join cs ≡ write_http_response response
    → length (write_http_response response) ≤ max_status
    → length response.body < 2 ^ 64
    → notify_payment_result true request writes cs ≡ (response.http_status == 200)
unfolding notify_payment_result read_http_status write_http_response
notify_payment_result-reply request writes response cs sent hs nl st full e b bl = rw sent (
    ap is_ok (
      status_of_head-joined (read_head max_status [] cs) (
        read_head-join max_status [] cs full (omega (arith, ap length e, b))
        ∙ ap cut_end e
        ∙ cut_response response.http_status response.body response.extra_headers hs nl st bl)
      ∙ ap (λ l. status_in (cut b' ' l))
          (before_crlf-line (status_line response.http_status response.body response.extra_headers)
            _ (status_line-IsLine response.http_status response.body response.extra_headers).0)
      ∙ status_in-line response.http_status st))
