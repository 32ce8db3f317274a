-- ===== src/Http/Response.antt =====
-- gateway/common/http_forwarder.hpp: readHttpResponse and sendAll.
use paid_server.Base.{
  ℕ, zero, suc, ◌-◌, ◌*◌, ◌^◌, Text, text, same, Bool, true, false, List, [], ◌∷◌, ◌++◌, Option,
  none, some, ltb, ◌==◌, if◌then◌else◌, length,
}
use mathlib.Core.List.{reverse}
use paid_server.Database.Monad.{Result, ok, throws}
use paid_server.Results.{◌>>=◌}
use paid_server.Strings.{cut, drop_spaces}
use paid_server.Interfaces.{ℤ, pos, negsuc}
use paid_server.Settings.Load.{lines}
use paid_server.Settings.Numbers.{skip_spaces, digits}
use paid_server.Http.{read_head, read_body, pop_cr, word, Head}
use paid_server.Http.Numbers.{stoul}

-- gateway_forward::HttpResponse.
pub record ForwardResponse : Type 0 where
  pub status : ℤ
  pub body : Text
  pub extra_headers : List (Text × Text)

-- A number out of the bounds of an int becomes the bound; without a digit it is zero.
abbrev clamped : Bool → Option (ℕ × Text) → ℤ
clamped minus none = pos 0
clamped true (some (zero, rest)) = pos 0
clamped true (some (suc n, rest)) = if ltb n (2 ^ 31) then negsuc n else negsuc (2 ^ 31 - 1)
clamped false (some (n, rest)) = if ltb n (2 ^ 31) then pos n else pos (2 ^ 31 - 1)

-- Extraction of an int from what a stream has left. At its end the int is kept.
abbrev pub extract_int : ℤ → Text → ℤ
extract_int kept [] = kept
extract_int kept (c ∷ s) =
    if c == b'-'
    then clamped true (digits s)
    else if c == b'+'
    then clamped false (digits s)
    else clamped false (digits (c ∷ s))

-- status_stream >> http_version >> response.status, with the status as it is before.
unfoldable pub status_of : Text → ℤ
status_of line = extract_int (pos 500) (skip_spaces (word (skip_spaces line)).1)

-- The loops that take the spaces off both ends.
unfoldable pub strip_spaces : Text → Text
strip_spaces s = reverse (drop_spaces (reverse (drop_spaces s)))

abbrev pub add_field : Text → Text → ℕ × List (Text × Text) → Result (ℕ × List (Text × Text))
add_field key value (n, hs) =
    if same key (text "Content-Length")
    then (stoul value >>= λ n'. ok (n', hs))
    else ok (n, (if same key (text "Set-Cookie") then hs ++ (key, value) ∷ [] else hs))

unfoldable pub response_line :
    Text × Option Text → ℕ × List (Text × Text) → Result (ℕ × List (Text × Text))
response_line (key, none) st = ok st
response_line (key, some value) st = add_field (strip_spaces key) (strip_spaces value) st

unfoldable pub response_headers :
    List Text → ℕ × List (Text × Text) → Result (ℕ × List (Text × Text))
unfolding response_line
response_headers [] st = ok st
response_headers (l ∷ ls) st =
    response_line (cut b':' (pop_cr l)) st >>= λ st'. response_headers ls st'

abbrev pub response_of : ℤ → Option Text → List (Text × Text) → Option ForwardResponse
response_of status none hs = none
response_of status (some body) hs =
    some (record { status = status; body = body; extra_headers = hs })

abbrev pub response_finish :
    Text → (ℕ → Option Text) → Result (ℕ × List (Text × Text)) → Result (Option ForwardResponse)
response_finish line body_of (throws e) = throws e
response_finish line body_of (ok (n, hs)) = ok (response_of (status_of line) (body_of n) hs)

abbrev pub response_lines : (ℕ → Option Text) → List Text → Result (Option ForwardResponse)
response_lines body_of [] = ok none
response_lines body_of (l ∷ ls) = response_finish (pop_cr l) body_of (response_headers ls (0, []))

abbrev pub response_rest : Option Head → Result (Option ForwardResponse)
response_rest none = ok none
response_rest (some (head, rest, cs)) = response_lines (λ n. read_body n rest cs) (lines head)

abbrev pub max_response : ℕ
max_response = 4 * 1024 * 1024

-- The response in these reads; none where readHttpResponse answers false.
unfoldable pub read_http_response : List Text → Result (Option ForwardResponse)
unfolding response_headers status_of
read_http_response cs = response_rest (read_head max_response [] cs)

-- sendAll(): `writes` are the bytes that the calls of write take, zero for an error.
unfoldable pub send_all : ℕ → List ℕ → Bool
send_all zero writes = true
send_all (suc left) [] = false
send_all (suc left) (n ∷ ns) =
    let rest = send_all (suc left - n) ns in if n == 0 then false else rest

abbrev pub bad_gateway : Text → ForwardResponse
bad_gateway message = record { status = pos 502; body = message; extra_headers = [] }

abbrev pub or_bad : Result (Option ForwardResponse) → Result ForwardResponse
or_bad (throws e) = throws e
or_bad (ok none) = ok (bad_gateway (text "{\"code\":50001,\"message\":\"后端响应异常\",\"data\":{}}"))
or_bad (ok (some response)) = ok response

-- forwardToBackend(), when the request has the text `sent`.
unfoldable pub forward_to_backend : Bool → Text → List ℕ → List Text → Result ForwardResponse
unfolding read_http_response send_all
forward_to_backend connected sent writes reads =
    if connected
    then or_bad (if send_all (length sent) writes then read_http_response reads else ok none)
    else ok (bad_gateway (text "{\"code\":50001,\"message\":\"后端不可达\",\"data\":{}}"))
