-- ===== src/Http.antt =====
-- backend/main.cpp and gateway/main.cpp: readHttpRequest, which the two services have with the same
-- text. The connection is the list of what its reads give, in order; it ends where the list ends.
pub mod Numbers
pub mod Backend
pub mod Gateway
pub mod Chunks
pub mod Lines
pub mod Stored
pub mod Target
pub mod Decide
pub mod Response
pub mod Returned
pub mod Replied
pub mod Through
pub mod Dial
pub mod Written
pub mod Notify
pub mod Notified
pub mod Posted
pub mod Identity
pub mod Sent
pub mod Forwarded
mod Tests
use paid_server.Base.{
  ℕ, zero, suc, ◌+◌, ◌*◌, Text, text, same, empty, Bool, true, false, List, [], ◌∷◌, ◌++◌, Option,
  none, some, ltb, leb, ◌==◌, ◌&&◌, ◌||◌, if◌then◌else◌, length, take, map,
}
use paid_server.Database.Monad.{Result, ok, throws}
use paid_server.Results.{◌>>=◌}
use paid_server.Strings.{Headers, trim, cut}
use paid_server.Settings.Load.{lines}
use paid_server.Settings.Numbers.{is_space, skip_spaces}
use paid_server.Http.Numbers.{stoul}

-- HttpRequest, without the address of the client.
pub record Request : Type 0 where
  pub method : Text
  pub path : Text
  pub query : Text
  pub headers : Headers
  pub body : Text

abbrev is_end : ℕ → ℕ → ℕ → ℕ → Bool
is_end a b c d = a == 13 && b == 10 && c == 13 && d == 10

-- What follows an empty line at this place.
unfoldable pub after_end : Text → Option Text
after_end (a ∷ b ∷ c ∷ d ∷ s) = if is_end a b c d then some s else none
after_end s = none

abbrev pub onto_head : ℕ → Option Text → Option (Text × Text) → Option (Text × Text)
onto_head c (some rest) later = some ([], rest)
onto_head c none none = none
onto_head c none (some (head, rest)) = some (c ∷ head, rest)

-- The text before the first "\r\n\r\n" and the text behind it.
unfoldable pub cut_end : Text → Option (Text × Text)
unfolding after_end
cut_end [] = none
cut_end (c ∷ s) = onto_head c (after_end (c ∷ s)) (cut_end s)

abbrev pub Head : Type 0
Head = Text × Text × List Text

abbrev with_chunks : List Text → Option (Text × Text) → Option Head
with_chunks cs none = none
with_chunks cs (some (head, rest)) = some (head, rest, cs)

-- A read that gives nothing ends the loop, and so does too much text.
abbrev pub stops : ℕ → Text → Text → Bool
stops limit raw c = empty c || ltb limit (length (raw ++ c))

abbrev pub go_on : Option (Text × Text) → List Text → Bool → Option Head → Option Head
go_on (some (head, rest)) cs stop later = some (head, rest, cs)
go_on none cs true later = none
go_on none cs false later = later

-- The loop that reads until there is an empty line: the head, the bytes behind it that were read
-- already, and the reads that remain.
unfoldable pub read_head : ℕ → Text → List Text → Option Head
read_head limit raw [] = go_on (cut_end raw) [] true none
read_head limit raw (c ∷ cs) =
    go_on (cut_end raw) (c ∷ cs) (stops limit raw c) (read_head limit (raw ++ c) cs)

-- back() == '\r' and pop_back()
unfoldable pub pop_cr : Text → Text
pop_cr [] = []
pop_cr (c ∷ []) = if c == 13 then [] else c ∷ []
pop_cr (c ∷ d ∷ s) = c ∷ pop_cr (d ∷ s)

abbrev pub onto_word : ℕ → Text × Text → Text × Text
onto_word c (word, rest) = (c ∷ word, rest)

-- The bytes up to a blank, and what follows.
unfoldable pub word : Text → Text × Text
word [] = ([], [])
word (c ∷ s) = let rest = word s in if is_space c then ([], c ∷ s) else onto_word c rest

abbrev pub with_target : Text × Text → Text × Text
with_target (method, rest) = (method, (word (skip_spaces rest)).0)

-- line_stream >> method >> target
unfoldable pub request_words : Text → Text × Text
unfolding word
request_words line = with_target (word (skip_spaces line))

-- operator[] of a std::map, which keeps its keys in order.
unfoldable pub text_lt : Text → Text → Bool
text_lt s [] = false
text_lt [] (d ∷ t) = true
text_lt (c ∷ s) (d ∷ t) = ltb c d || c == d && text_lt s t

unfoldable pub insert : Text → Text → Headers → Headers
insert k v [] = (k, v) ∷ []
insert k v ((j, w) ∷ m) =
    if same j k
    then (k, v) ∷ m
    else if text_lt k j
    then (k, v) ∷ (j, w) ∷ m
    else (j, w) ∷ insert k v m

abbrev pub add_header : Text → Text → Headers → ℕ → Result (Headers × ℕ)
add_header key value m n =
    if same key (text "Content-Length")
    then (stoul value >>= λ n'. ok (insert key value m, n'))
    else ok (insert key value m, n)

-- One line of the header, without its end.
unfoldable pub header_line : Text × Option Text → Headers × ℕ → Result (Headers × ℕ)
header_line (key, none) (m, n) = ok (m, n)
header_line (key, some value) (m, n) = add_header (trim key) (trim value) m n

-- The loop over the header: the headers, and content_length.
unfoldable pub read_headers : List Text → Headers × ℕ → Result (Headers × ℕ)
unfolding header_line
read_headers [] st = ok st
read_headers (l ∷ ls) st =
    if empty (pop_cr l)
    then ok st
    else (header_line (cut b':' (pop_cr l)) st >>= λ st'. read_headers ls st')

abbrev pub query_of : Option Text → Text
query_of none = []
query_of (some query) = query

-- The request without its body, and the length of the body.
abbrev pub with_headers : Text → Text × Option Text → Headers × ℕ → Result (Option (Request × ℕ))
with_headers method (path, query) (headers, n) = ok (
    some (
      record { method = method; path = path; query = query_of query; headers = headers; body = [] },
      n,
    ))

abbrev pub read_target : Text × Text → List Text → Result (Option (Request × ℕ))
read_target (method, target) ls =
    if empty method || empty target
    then ok none
    else (read_headers ls ([], 0) >>= with_headers method (cut b'?' target))

abbrev pub read_lines : List Text → Result (Option (Request × ℕ))
read_lines [] = ok none
read_lines (l ∷ ls) = read_target (request_words (pop_cr l)) ls

unfoldable pub read_header : Text → Result (Option (Request × ℕ))
unfolding read_headers request_words
read_header head = read_lines (lines head)

abbrev pub fill_body : ℕ → Text → Bool → Option Text → Option Text
fill_body n body true later = some (take n body)
fill_body n body false later = later

abbrev pub unless_closed : Text → Option Text → Option Text
unless_closed [] later = none
unless_closed (c ∷ s) later = later

-- The loop that reads the body.
unfoldable pub read_body : ℕ → Text → List Text → Option Text
read_body n body [] = fill_body n body (leb n (length body)) none
read_body n body (c ∷ cs) =
    fill_body n body (leb n (length body)) (unless_closed c (read_body n (body ++ c) cs))

abbrev pub with_body : Request → Option Text → Option Request
with_body request none = none
with_body request (some body) = some (record request { body = body })

abbrev pub finish_request :
    (ℕ → Option Text) → Result (Option (Request × ℕ)) → Result (Option Request)
finish_request body_of (throws e) = throws e
finish_request body_of (ok none) = ok none
finish_request body_of (ok (some (request, n))) = ok (with_body request (body_of n))

abbrev pub read_rest : Option Head → Result (Option Request)
read_rest none = ok none
read_rest (some (head, rest, cs)) = finish_request (λ n. read_body n rest cs) (read_header head)

abbrev pub max_head : ℕ
max_head = 1024 * 1024

unfoldable pub read_request : List Text → Result (Option Request)
unfolding read_head read_header read_body
read_request cs = read_rest (read_head max_head [] cs)
