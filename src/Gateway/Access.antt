-- ===== src/Gateway/Access.antt =====
-- Who reaches the backend through the gateway, and as whom.
use paid_server.Base.{
  ◌≡◌, ◌≢◌, refl, ◌⊎◌, inl, inr, Text, text, empty, same, same_iff, Bool, true, false, [], ◌∷◌,
  Option, none, some, Bool-cases, All, arith, ◌++◌,
}
use paid_server.Base.Map.{text_eq}
use paid_server.Database.Monad.{Result, ok, throws}
use paid_server.Strings.{Headers, header_value, to_lower}
use paid_server.Interfaces.{JsonLib}
use paid_server.Gateway.Forwarder.{
  ForwardRequest, BackendAddress, sent_headers, copied_headers, copied, content_type_header,
  unless_empty,
}
use paid_server.Gateway.Handler.{
  HttpRequest, HttpResponse, Services, Sources, requires_auth, is_forward_api, to_forward_request,
  session_of, is_trusted, is_result, authenticated, as_user, forward_request, handle_request,
  handle_payment_result,
}

-- A header that is not the identity.
abbrev pub Other : Text × Text → Type 0
Other h = same (to_lower h.0) (to_lower (text "X-User-Id")) ≡ false

-- Headers without an identity.
unfoldable pub IsOther : Headers → Type 0
IsOther hs = All Other hs

append-IsOther : (xs ys : Headers) → IsOther xs → IsOther ys → IsOther (xs ++ ys)
unfolding IsOther
append-IsOther [] ys h k = k
append-IsOther (x ∷ xs) ys (p, h) k = (p, append-IsOther xs ys h k)

no_identity : (hs : Headers) → IsOther hs → header_value hs (text "X-User-Id") ≡ []
unfolding header_value to_lower IsOther
no_identity [] h = refl
no_identity ((k, v) ∷ hs) (p, h) = ground (arith, no_identity hs h)

unless_empty-Other :
    (key value : Text) → ((v : Text) → Other (key, v)) → IsOther (unless_empty key value)
unfolding IsOther
unless_empty-Other key [] h = tt
unless_empty-Other key (x ∷ xs) h = (h (x ∷ xs), tt)

copied-Other :
    (key : Text) (value : Option Text) → ((v : Text) → Other (key, v)) → IsOther (copied key value)
unfolding IsOther
copied-Other key none h = tt
copied-Other key (some v) h = unless_empty-Other key v h

content_type_header-Other :
    (body : Text) (value : Option Text) → IsOther (content_type_header body value)
unfolding content_type_header to_lower same text IsOther
content_type_header-Other body (some v) = (refl, tt)
content_type_header-Other [] none = tt
content_type_header-Other (x ∷ body) none = (refl, tt)

cookie-Other : (v : Text) → Other (text "Cookie", v)
unfolding to_lower same text
cookie-Other v = refl

address-Other : (v : Text) → Other (text "X-Forwarded-For", v)
unfolding to_lower same text
address-Other v = refl

agent-Other : (v : Text) → Other (text "User-Agent", v)
unfolding to_lower same text
agent-Other v = refl

length-Other : (v : Text) → Other (text "Content-Length", v)
unfolding to_lower same text
length-Other v = refl

pub copies-Other : (request : ForwardRequest) → IsOther (copied_headers request)
unfolding copied_headers
copies-Other request = append-IsOther _ _ (content_type_header-Other request.body _) (
    append-IsOther _ _ (copied-Other (text "Cookie") _ cookie-Other) (
      append-IsOther _ _ (copied-Other (text "X-Forwarded-For") _ address-Other) (
        append-IsOther _ _ (copied-Other (text "User-Agent") _ agent-Other)
          (unless_empty-Other (text "Content-Length") _ length-Other))))

-- The backend reads the identity that the gateway passes, whatever headers the client sends.
pub sent_headers-header_value :
    (backend : BackendAddress) (request : HttpRequest) (user_id : Text)
    → header_value (sent_headers backend (to_forward_request request) user_id) (text "X-User-Id")
      ≡ user_id
unfolding sent_headers header_value to_lower same text IsOther
sent_headers-header_value backend request [] =
    no_identity (sent_headers backend (to_forward_request request) [])
      (refl, (refl, copies-Other (to_forward_request request)))
sent_headers-header_value backend request (x ∷ user_id) = refl

lookup_cases :
    {W : Type 0} (r : Result (Option Text) × W)
    → ((e : Text) × ((w' : W) × (r ≡ (throws e, w'))))
      ⊎ (((w' : W) × (r ≡ (ok none, w')))
          ⊎ ((user_id : Text) × ((w' : W) × (r ≡ (ok (some user_id), w')))))
lookup_cases (throws e, w') = inl (e, (w', refl))
lookup_cases (ok none, w') = inr (inl (w', refl))
lookup_cases (ok (some u), w') = inr (inr (u, (w', refl)))

module _ {W : Type 0} (j : JsonLib) (services : Services W) (sources : Sources) where
  abbrev pub with_backend : (ForwardRequest → Text → W → Result HttpResponse × W) → Services W
  with_backend f = record services { forward_to_backend = f }

  abbrev pub with_push : (Text → Text → W → Result Bool × W) → Services W
  with_push p = record services { push = p }

  authenticated-identity :
      (f g : ForwardRequest → Text → W → Result HttpResponse × W) (request : HttpRequest) (w : W)
      → ((user_id : Text) (w' : W)
          → session_of request ≢ []
          → services.user_id_of (session_of request) w ≡ (ok (some user_id), w')
          → f (to_forward_request request) user_id w' ≡ g (to_forward_request request) user_id w')
      → authenticated j (with_backend f) sources request w
        ≡ authenticated j (with_backend g) sources request w
  unfolding authenticated forward_request as_user
  authenticated-identity f g request w agree = elim (Bool-cases (empty (session_of request))) [
    | inl h ↦ rw h refl
    | inr h ↦ elim (lookup_cases (services.user_id_of (session_of request) w)) [
      | inl (e, (w', q)) ↦ rw (h, q) refl
      | inr (inl (w', q)) ↦ rw (h, q) refl
      | inr (inr (u, (w', q))) ↦ rw (h, q, agree u w' (λ e. ground arith) q) refl
    ]
  ]

  -- A request that needs a login reaches the backend only as the user whom Redis names for the
  -- session of its cookie: two backends that answer this alike cannot be told apart.
  pub handle_request-identity :
      (f g : ForwardRequest → Text → W → Result HttpResponse × W) (request : HttpRequest) (w : W)
      → requires_auth request.method request.path ≡ true
      → ((user_id : Text) (w' : W)
          → session_of request ≢ []
          → services.user_id_of (session_of request) w ≡ (ok (some user_id), w')
          → f (to_forward_request request) user_id w' ≡ g (to_forward_request request) user_id w')
      → handle_request j (with_backend f) sources request w
        ≡ handle_request j (with_backend g) sources request w
  unfolding handle_request
  handle_request-identity f g request w auth agree =
      elim (Bool-cases (is_trusted sources request)) [
        | inr h ↦ rw h refl
        | inl h ↦ elim (Bool-cases (is_result request)) [
          | inl r ↦ rw (h, r) refl
          | inr r ↦ elim (Bool-cases (is_forward_api request.path)) [
            | inr k ↦ rw (h, r, k) refl
            | inl k ↦ rw (h, r, k, auth) (authenticated-identity f g request w agree)
          ]
        ]
      ]

  -- A request from another address than the backend's pushes nothing to a payment page: two ways to
  -- push cannot be told apart through it.
  pub handle_request-pushes :
      (p q : Text → Text → W → Result Bool × W) (request : HttpRequest) (w : W)
      → request.client_ip ≢ sources.backend_ip
      → handle_request j (with_push p) sources request w
        ≡ handle_request j (with_push q) sources request w
  unfolding handle_request authenticated handle_payment_result
  handle_request-pushes p q request w other = elim (Bool-cases (is_result request)) [
    | inl r ↦ elim (Bool-cases (is_trusted sources request)) [
      | inl h ↦ rw (h, r, stranger) refl
      | inr h ↦ rw h refl
    ]
    | inr r ↦ rw r refl
  ]
    where
      stranger : same request.client_ip sources.backend_ip ≡ false
      stranger = ground (arith, same_iff request.client_ip sources.backend_ip)
