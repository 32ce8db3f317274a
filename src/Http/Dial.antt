-- ===== src/Http/Dial.antt =====
-- gateway/common/http_forwarder.hpp: connectBackend, and the descriptor in forwardToBackend.
mod Tests
use paid_server.Base.{
  ℕ, ◌≡◌, refl, arith, is_some, not, ◌&&◌, length, Text, text, same, Bool, true, false, List, [],
  ◌∷◌, Option, none, some, if◌then◌else◌, ◌⊎◌, inl, inr, Bool-cases, Option-cases,
}
use paid_server.Database.Monad.{Result, ok, throws}
use paid_server.Gateway.Forwarder.{ForwardRequest, BackendAddress, request_text}
use paid_server.Http.Response.{
  ForwardResponse, bad_gateway, or_bad, send_all, read_http_response, forward_to_backend,
}

-- What the system answers: to socket(), and to connect().
pub record Dialled : Type 0 where
  pub socket : Option ℕ
  pub connected : Bool

abbrev or_local : Text → Text
or_local ip = if same ip (text "localhost") then text "127.0.0.1" else ip

-- ::close, on the list of the descriptors that were given to it, the latest first.
abbrev close : ℕ → List ℕ → List ℕ
close fd closed = fd ∷ closed

abbrev pub unreachable : ForwardResponse
unreachable = bad_gateway (text "{\"code\":50001,\"message\":\"后端不可达\",\"data\":{}}")

abbrev pub bad_answer : ForwardResponse
bad_answer = bad_gateway (text "{\"code\":50001,\"message\":\"后端响应异常\",\"data\":{}}")

-- What forwardToBackend does with the result of readHttpResponse. An exception leaves it at once.
abbrev with_response :
    ℕ → List ℕ → Result (Option ForwardResponse) → Result ForwardResponse × List ℕ
with_response fd closed (throws e) = (throws e, closed)
with_response fd closed (ok none) = (ok bad_answer, close fd closed)
with_response fd closed (ok (some response)) = (ok response, close fd closed)

abbrev exchange : ℕ → Text → List ℕ → List Text → List ℕ → Result ForwardResponse × List ℕ
exchange fd sent writes reads closed =
    if not (send_all (length sent) writes)
    then (ok bad_answer, close fd closed)
    else with_response fd closed (read_http_response reads)

-- The result is the one that is expected; a call that returns has closed the descriptor that socket()
-- gave, once and nothing else; a call that throws has closed nothing.
pub record IsForwarded (socket : Option ℕ) (expected : Result ForwardResponse)
    (r : Result ForwardResponse × List ℕ) : Type 0 where
  pub result : r.0 ≡ expected
  pub closes :
      (response : ForwardResponse) (fd : ℕ) → r.0 ≡ ok response → socket ≡ some fd → r.1 ≡ fd ∷ []
  pub nothing : socket ≡ none → r.1 ≡ []
  pub leaves : (e : Text) → r.0 ≡ throws e → r.1 ≡ []

returned-IsForwarded :
    (fd : ℕ) (response : ForwardResponse)
    → IsForwarded (some fd) (ok response) (ok response, close fd [])
returned-IsForwarded fd response = record {
  result = refl;
  closes = λ _ fd' e q. ground (arith, q);
  nothing = λ e. cc;
  leaves = λ x e. cc;
}

with_response-IsForwarded :
    (fd : ℕ) (r : Result (Option ForwardResponse))
    → IsForwarded (some fd) (or_bad r) (with_response fd [] r)
with_response-IsForwarded fd (throws e) = record {
  result = refl;
  closes = λ _ _ e q. cc;
  nothing = λ e. cc;
  leaves = λ _ _. refl;
}
with_response-IsForwarded fd (ok none) = returned-IsForwarded fd bad_answer
with_response-IsForwarded fd (ok (some response)) = returned-IsForwarded fd response

exchange-IsForwarded :
    (fd : ℕ) (sent : Text) (writes : List ℕ) (reads : List Text)
    → IsForwarded
        (some fd)
        (forward_to_backend true sent writes reads)
        (exchange fd sent writes reads [])
unfolding forward_to_backend
exchange-IsForwarded fd sent writes reads = elim (Bool-cases (send_all (length sent) writes)) [
  | inr f ↦ rw f (returned-IsForwarded fd bad_answer)
  | inl f ↦ rw f (with_response-IsForwarded fd (read_http_response reads))
]

-- inet_pton: whether a text is an address.
module _ (inet_pton : Text → Bool) where
  abbrev opened : Dialled → BackendAddress → Option ℕ → Option ℕ × List ℕ
  opened dialled backend none = (none, [])
  opened dialled backend (some fd) =
      if not (inet_pton (or_local backend.ip))
      then (none, close fd [])
      else if not dialled.connected
      then (none, close fd [])
      else (some fd, [])

  -- The descriptor of the connection, and the descriptors that were closed.
  unfoldable pub connect_backend : Dialled → BackendAddress → Option ℕ × List ℕ
  connect_backend dialled backend = opened dialled backend dialled.socket

  abbrev forward_on :
      Text → List ℕ → List Text → Option ℕ × List ℕ → Result ForwardResponse × List ℕ
  forward_on sent writes reads (none, closed) = (ok unreachable, closed)
  forward_on sent writes reads (some fd, closed) = exchange fd sent writes reads closed

  unfoldable pub forward_connected :
      Dialled
      → BackendAddress
      → ForwardRequest
      → Text
      → List ℕ
      → List Text
      → Result ForwardResponse × List ℕ
  unfolding connect_backend
  forward_connected dialled backend request user_id writes reads =
      forward_on (request_text backend request user_id) writes reads
        (connect_backend dialled backend)

  -- Whether there is a connection.
  abbrev pub reaches : Dialled → BackendAddress → Bool
  reaches dialled backend =
      is_some dialled.socket && inet_pton (or_local backend.ip) && dialled.connected

  -- Whatever the system answers and the backend sends: forwardToBackend returns the response or one of
  -- status 502, or it throws, as it does without regard to descriptors; where it returns, the
  -- descriptor that socket() gave, if any, was closed, once; where it throws, because readHttpResponse
  -- does, none was closed.
  pub forward_connected-IsForwarded :
      (dialled : Dialled) (backend : BackendAddress) (request : ForwardRequest) (user_id : Text)
      (writes : List ℕ) (reads : List Text)
      → IsForwarded dialled.socket
          (forward_to_backend
            (reaches dialled backend)
            (request_text backend request user_id)
            writes
            reads)
          (forward_connected dialled backend request user_id writes reads)
  unfolding forward_connected forward_to_backend connect_backend
  forward_connected-IsForwarded dialled backend request user_id writes reads =
      elim (Option-cases dialled.socket) [
        | inl n ↦ rw n (record {
          result = refl;
          closes = λ _ _ e q. cc;
          nothing = λ _. refl;
          leaves = λ _ e. cc;
        })
        | inr (fd, s) ↦ elim (Bool-cases (inet_pton (or_local backend.ip))) [
          | inr a ↦ rw (s, a) (returned-IsForwarded fd unreachable)
          | inl a ↦ elim (Bool-cases dialled.connected) [
            | inr c ↦ rw (s, a, c) (returned-IsForwarded fd unreachable)
            | inl c ↦
                rw (s, a, c)
                  (exchange-IsForwarded fd (request_text backend request user_id) writes reads)
          ]
        ]
      ]
