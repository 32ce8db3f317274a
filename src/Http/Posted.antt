-- ===== src/Http/Posted.antt =====
-- The notification of the backend (backend/common/gateway_notify.hpp), read by the gateway
-- (readHttpRequest of gateway/main.cpp).
use paid_server.Base.{
  ◌^◌, ◌<◌, ◌≤◌, ◌≡◌, refl, sym, ap, ◌∙◌, Text, text, same, List, [], ◌∷◌, ◌++◌, some, All, length,
}
use mathlib.Core.Path.{subst}
use mathlib.Core.List.{append_assoc}
use paid_server.Database.Monad.{ok}
use paid_server.Strings.{Headers, to_string, cut, drop_blank}
use paid_server.Settings.Numbers.{skip_spaces}
use paid_server.Http.{
  Request, word, request_words, read_lines, read_target, max_head, read_header, finish_request,
  with_body,
}
use paid_server.Http.Gateway.{read_http_request, read_with}
use paid_server.Http.Chunks.{
  IsFull, join, whole_request, request_at, body_within, read_request-whole,
}
use paid_server.Http.Decide.{
  all_of, line_byte, other_than, header_ok, trim_ok, headers_ok, lines_ok,
}
use paid_server.Http.Lines.{IsLine, tail_of, cut_end-message, lines-rest_of, got}
use paid_server.Http.Stored.{
  IsHeader, header_texts, stored, inserted, stoul-to_string, read_headers-stored, got_rest,
}
use paid_server.Http.Written.{last_headers-IsHeader}
use paid_server.Http.Forwarded.{header_texts-IsLine, body_within-length, got_cases, pop_cr-first}
use paid_server.Http.Notify.{notify_text}

abbrev line : Text
line = text "POST /internal/payment/result HTTP/1.1"

module _ (host port payload : Text) where
  abbrev pub sent : Headers
  sent =
      (text "Host", host ++ b':' ∷ port)
      ∷ (text "Content-Type", text "application/json")
      ∷ (text "Content-Length", to_string (length payload))
      ∷ (text "Connection", text "close")
      ∷ []

  notify_text-lines : notify_text host port payload ≡ line ++ tail_of (header_texts sent) payload
  unfolding notify_text text
  notify_text-lines = simp append_assoc refl

  line-IsLine : IsLine line
  unfolding text all_of line_byte
  line-IsLine = (lines_ok line refl, refl)

  module _ (host_h : IsHeader (text "Host", host ++ b':' ∷ port))
      (b : length payload < 2 ^ 64) where
    sent-IsHeader : All IsHeader sent
    unfolding text all_of header_ok trim_ok line_byte other_than drop_blank same
    sent-IsHeader = (
      host_h,
      (
        (headers_ok ((text "Content-Type", text "application/json") ∷ []) refl).0,
        last_headers-IsHeader 0 payload [],
      ),
    )

    stored-sent : stored sent ([], 0) ≡ ok (inserted sent [], length payload)
    unfolding same text
    stored-sent = rw (stoul-to_string (length payload) b) refl

    abbrev pub posted : Request
    posted = record {
      method = text "POST";
      path = text "/internal/payment/result";
      query = [];
      headers = inserted sent [];
      body = [];
    }

    lines_read : read_lines (got line (header_texts sent)) ≡ ok (some (posted, length payload))
    unfolding request_words word skip_spaces cut text
    lines_read =
        ap read_lines (got_cases line (header_texts sent))
        ∙ ap (λ l. read_target (request_words l) (got_rest (header_texts sent)))
            (pop_cr-first line (header_texts sent) line-IsLine.0)
        ∙ rw (read_headers-stored sent ([], 0) sent-IsHeader, stored-sent) refl

    whole :
        whole_request (notify_text host port payload) ≡ ok (some (record posted { body = payload }))
    unfolding whole_request read_header
    whole =
        let ls = header_texts-IsLine sent sent-IsHeader in
        ap whole_request notify_text-lines
        ∙ ap request_at (cut_end-message line (header_texts sent) payload line-IsLine.0 ls)
        ∙ ap (λ l. finish_request (λ n. body_within n payload) (read_lines l))
            (lines-rest_of line (header_texts sent) line-IsLine ls)
        ∙ ap (finish_request (λ n. body_within n payload)) lines_read
        ∙ ap (λ r. ok (with_body posted r)) (body_within-length payload)

-- The notification of the backend is the request that the gateway reads, however its bytes are split
-- into reads: a POST of the notification's JSON text to /internal/payment/result. The line of the
-- host is a header, and the text is at most 1 MiB.
pub notify_text-received :
    (host port payload client_ip : Text) (cs : List Text)
    → IsHeader (text "Host", host ++ b':' ∷ port)
    → length payload < 2 ^ 64
    → All IsFull cs
    → join cs ≡ notify_text host port payload
    → length (notify_text host port payload) ≤ max_head
    → (m : Headers) × (read_http_request client_ip cs
        ≡ ok (
            some (record {
              method = text "POST";
              path = text "/internal/payment/result";
              query = [];
              headers = m;
              body = payload;
              client_ip = client_ip;
            })))
unfolding read_http_request
notify_text-received host port payload client_ip cs hh pl full e b = (
  inserted (sent host port payload) [],
  ap (read_with client_ip) (
      read_request-whole cs full (subst (λ s. length s ≤ max_head) (sym e) b)
      ∙ ap whole_request e
      ∙ whole host port payload hh pl),
)
