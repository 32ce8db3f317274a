-- ===== src/Http/Forwarded.antt =====
-- The request that the gateway writes (gateway/common/http_forwarder.hpp), read by the backend
-- (readHttpRequest of backend/main.cpp).
use paid_server.Base.{
  ◌^◌, ◌<◌, ◌≤◌, ◌≡◌, ◌≢◌, ◌⊎◌, refl, sym, ap, ◌∙◌, Text, text, empty, false, List, [], ◌∷◌, ◌++◌,
  none, some, All, arith, inl, inr, length, take,
}
use mathlib.Core.Path.{subst}
use mathlib.Core.List.{append_assoc}
use paid_server.Base.Map.{text_eq}
use paid_server.Database.Monad.{ok}
use paid_server.Strings.{Headers, cut, header_value}
use paid_server.Gateway.Forwarder.{
  ForwardRequest, BackendAddress, build_target, sent_headers, header_lines, request_text,
}
use paid_server.Http.{
  Request, pop_cr, request_words, read_header, read_lines, read_target, with_headers, max_head,
  finish_request, with_body,
}
use paid_server.Http.Chunks.{
  IsFull, join, whole_request, request_at, body_within, read_request-whole,
}
use paid_server.Http.Lines.{
  IsLineByte, IsLine, tail_of, cut_end-message, lines-rest_of, got, pop_cr-end, pop_cr-IsLine,
}
use paid_server.Http.Stored.{IsHeader, header_texts, read_headers-stored, got_rest}
use paid_server.Http.Target.{IsWord, request_words-line, target_parts, target-IsLine}
use paid_server.Payment.World.{HttpRequest}
use paid_server.Http.Backend.{read_http_request, read_with}
use paid_server.Http.Sent.{stored_headers, stored-sent_headers, stored_identity}

-- A request whose parts can stand in the text of HTTP.
pub record IsSendable (backend : BackendAddress) (request : ForwardRequest) (user_id : Text)
    : Type 0 where
  pub method_word : IsWord request.method
  pub method_full : empty request.method ≡ false
  pub path_word : IsWord request.path
  pub path_full : empty request.path ≡ false
  pub path_mark : All (λ c. c ≢ b'?') request.path
  pub query_word : IsWord request.query
  pub header_lines : All IsHeader (sent_headers backend request user_id)
  pub body_length : length request.body < 2 ^ 64

pub tail_of-headers :
    (hs : Headers) (body : Text)
    → 13 ∷ 10 ∷ (header_lines hs ++ 13 ∷ 10 ∷ body) ≡ tail_of (header_texts hs) body
unfolding header_lines text
tail_of-headers [] body = refl
tail_of-headers ((k, v) ∷ hs) body =
    simp append_assoc (ap (λ s. 13 ∷ 10 ∷ (k ++ b':' ∷ b' ' ∷ (v ++ s))) (tail_of-headers hs body))

abbrev request_line : ForwardRequest → Text
request_line request = request.method ++ b' ' ∷ (build_target request ++ b' ' ∷ text "HTTP/1.1")

request_text-lines :
    (backend : BackendAddress) (request : ForwardRequest) (user_id : Text)
    → request_text backend request user_id
      ≡ request_line request
        ++ tail_of (header_texts (sent_headers backend request user_id)) request.body
unfolding request_text text
request_text-lines backend request user_id =
    rw⁻¹ (tail_of-headers (sent_headers backend request user_id) request.body)
      (simp append_assoc refl)

-- The first line, as std::getline gives it in front of other lines.
unfoldable pub first_line : Text → List Text → Text
first_line l [] = l
first_line l (m ∷ ls) = l ++ 13 ∷ []

pub got_cases : (l : Text) (ls : List Text) → got l ls ≡ first_line l ls ∷ got_rest ls
unfolding first_line
got_cases l [] = refl
got_cases l (m ∷ ls) = refl

pub pop_cr-first : (l : Text) (ls : List Text) → All IsLineByte l → pop_cr (first_line l ls) ≡ l
unfolding first_line
pop_cr-first l [] k = pop_cr-IsLine l k
pop_cr-first l (m ∷ ls) k = pop_cr-end l

take-length : (s : Text) → take (length s) s ≡ s
take-length [] = refl
take-length (c ∷ s) = ap (λ r. c ∷ r) (take-length s)

pub body_within-length : (s : Text) → body_within (length s) s ≡ some s
unfolding body_within
body_within-length s = ground (arith, take-length s)

pub header_texts-IsLine : (hs : Headers) → All IsHeader hs → All IsLine (header_texts hs)
header_texts-IsLine [] h = tt
header_texts-IsLine (h ∷ hs) (i, is) = (i.0, header_texts-IsLine hs is)

module _ (backend : BackendAddress) (request : ForwardRequest) (user_id : Text)
    (sendable : IsSendable backend request user_id) where
  abbrev received : Request
  received = record {
    method = request.method;
    path = request.path;
    query = request.query;
    headers = stored_headers backend request user_id;
    body = [];
  }

  headers_read :
      (cut b'?' (build_target request) ≡ (request.path, none)) × (request.query ≡ [])
        ⊎ (cut b'?' (build_target request) ≡ (request.path, some request.query))
      → with_headers request.method
          (cut b'?' (build_target request))
          (stored_headers backend request user_id, length request.body)
        ≡ ok (some (received, length request.body))
  headers_read (inl (c, q)) = rw (c, q) refl
  headers_read (inr c) = rw c refl

  lines_read :
      read_lines (got (request_line request) (header_texts (sent_headers backend request user_id)))
      ≡ ok (some (received, length request.body))
  lines_read =
      let (t, f, parts) =
        target_parts request sendable.path_word sendable.path_full sendable.path_mark
          sendable.query_word in
      let i =
        target-IsLine request.method (build_target request) sendable.method_word
          sendable.method_full t in
      ap read_lines (got_cases (request_line request) _)
      ∙ ap
          (λ l.
            read_target (request_words l)
              (got_rest (header_texts (sent_headers backend request user_id))))
          (pop_cr-first (request_line request) _ i.0)
      ∙ ap (λ w. read_target w (got_rest (header_texts (sent_headers backend request user_id))))
          (request_words-line request.method (build_target request) _ sendable.method_word
            sendable.method_full t f)
      ∙ rw
          (
            sendable.method_full,
            f,
            read_headers-stored (sent_headers backend request user_id) ([], 0)
                sendable.header_lines,
            stored-sent_headers backend request user_id sendable.body_length,
          )
          (headers_read parts)

  whole :
      whole_request (request_text backend request user_id)
      ≡ ok (some (record received { body = request.body }))
  unfolding whole_request body_within read_header
  whole =
      let (t, f, parts) =
        target_parts request sendable.path_word sendable.path_full sendable.path_mark
          sendable.query_word in
      let i =
        target-IsLine request.method (build_target request) sendable.method_word
          sendable.method_full t in
      let ls = header_texts-IsLine (sent_headers backend request user_id) sendable.header_lines in
      ap whole_request (request_text-lines backend request user_id)
      ∙ ap request_at (cut_end-message (request_line request) _ request.body i.0 ls)
      ∙ ap (λ l. finish_request (λ n. body_within n request.body) (read_lines l))
          (lines-rest_of (request_line request) _ i ls)
      ∙ ap (finish_request (λ n. body_within n request.body)) lines_read
      ∙ ap (λ b. ok (with_body received b)) (body_within-length request.body)

-- The request of the backend for one that the gateway sends.
abbrev pub received_as : ForwardRequest → Headers → HttpRequest
received_as request headers = record {
  method = request.method;
  path = request.path;
  query = request.query;
  headers = headers;
  body = request.body;
}

-- What the backend reads, with the headers that it stores.
pub received-stored :
    (backend : BackendAddress) (request : ForwardRequest) (user_id : Text) (cs : List Text)
    → IsSendable backend request user_id
    → All IsFull cs
    → join cs ≡ request_text backend request user_id
    → length (request_text backend request user_id) ≤ max_head
    → read_http_request cs
      ≡ ok (some (received_as request (stored_headers backend request user_id)))
unfolding read_http_request
received-stored backend request user_id cs sendable full e b = ap read_with (
    read_request-whole cs full (subst (λ s. length s ≤ max_head) (sym e) b)
    ∙ ap whole_request e
    ∙ whole backend request user_id sendable)

-- A request that the gateway sends is the one that the backend reads, however its bytes are split
-- into reads: it has the same method, path, query and body, and its X-User-Id is the user that the
-- gateway found. The method and the target are words, the path has no question mark, the headers are
-- lines, and the text is at most 1 MiB.
pub request_text-received :
    (backend : BackendAddress) (request : ForwardRequest) (user_id : Text) (cs : List Text)
    → IsSendable backend request user_id
    → All IsFull cs
    → join cs ≡ request_text backend request user_id
    → length (request_text backend request user_id) ≤ max_head
    → (headers : Headers) × (read_http_request cs ≡ ok (some (received_as request headers)))
      × (header_value headers (text "X-User-Id") ≡ user_id)
request_text-received backend request user_id cs sendable full e b = (
  stored_headers backend request user_id,
  received-stored backend request user_id cs sendable full e b,
  stored_identity backend request user_id,
)
