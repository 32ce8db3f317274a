-- ===== src/Gateway/Backend.antt =====
-- The handlers of backend/payment_impl.hpp, and what they read of X-User-Id, against the tests of
-- gateway/gateway_impl.hpp.
use paid_server.Base.{
  ◌≡◌, refl, Text, text, same, same_iff, inl, inr, [], ◌⊎◌, ap, Bool, true, false, arith,
}
use mathlib.Core.Path.{subst}
use paid_server.Database.Monad.{Result, recover}
use paid_server.Strings.{Headers, header_value, to_lower}
use paid_server.Interfaces.{JsonLib, Crypto}
use paid_server.Payment.World.{World, HttpRequest, HttpResponse, Config}
use paid_server.Payment.Replies.{deny, parse_json_body}
use paid_server.Payment.Auth.{handle_login, handle_logout, handle_real_auth_complete}
use paid_server.Payment.Orders.{handle_get_order, handle_confirm}
use paid_server.Payment.Scan.{handle_attempt_init, handle_payment_page, init_attempt, open_attempt}
use paid_server.Payment.Pay.{handle_pay}
use paid_server.Payment.Routes.{
  Route, login, logout, get_order, confirm, real_auth_complete, payment_page, attempt_init, pay,
  not_found, route_of, dispatch, handle_request,
}
use paid_server.Gateway.Handler.{requires_auth}

-- The routes whose handlers act for a user.
unfoldable acts_for_user : Route → Bool
acts_for_user login = false
acts_for_user logout = false
acts_for_user get_order = true
acts_for_user confirm = true
acts_for_user real_auth_complete = true
acts_for_user payment_page = false
acts_for_user attempt_init = false
acts_for_user pay = false
acts_for_user not_found = false

exclusive : (s a b : Text) → same a b ≡ false → same s a ≡ true → same s b ≡ false
exclusive s a b d h = ground (arith, same_iff s a, same_iff s b, same_iff a b)

methods_differ : same (text "POST") (text "GET") ≡ false
unfolding same text
methods_differ = refl

login_not_confirm : same (text "/api/auth/login") (text "/api/payment/confirm") ≡ false
unfolding same text
login_not_confirm = refl

login_not_complete : same (text "/api/auth/login") (text "/api/users/real-auth/complete") ≡ false
unfolding same text
login_not_complete = refl

logout_not_confirm : same (text "/api/auth/logout") (text "/api/payment/confirm") ≡ false
unfolding same text
logout_not_confirm = refl

logout_not_complete : same (text "/api/auth/logout") (text "/api/users/real-auth/complete") ≡ false
unfolding same text
logout_not_complete = refl

route_of-requires_auth :
    (req : HttpRequest) → acts_for_user (route_of req) ≡ requires_auth req.method req.path
unfolding acts_for_user route_of requires_auth
route_of-requires_auth req = ground (
  arith,
  exclusive req.method (text "POST") (text "GET") methods_differ,
  exclusive req.path _ _ login_not_confirm,
  exclusive req.path _ _ login_not_complete,
  exclusive req.path _ _ logout_not_confirm,
  exclusive req.path _ _ logout_not_complete,
)

-- Headers that are those of a request but for X-User-Id, which is not among them.
pub record IsAnonymous (headers anonymous : Headers) : Type 0 where
  pub no_user : header_value anonymous (text "X-User-Id") ≡ []
  pub others :
      (name : Text)
      → same (to_lower name) (text "x-user-id") ≡ false
      → header_value anonymous name ≡ header_value headers name

abbrev pub with_headers : Headers → HttpRequest → HttpRequest
with_headers headers req = record req { headers = headers }

module _ (j : JsonLib) (w : World) where
  -- A request of no user is refused, whatever the backend holds.
  abbrev refused : Result (HttpResponse j.Json) × World
  refused = deny j 400 40001 (text "缺少 X-User-Id") w

  -- What a route answers without the user: what it answers with him, or a refusal.
  abbrev pub Answered :
      Bool → Result (HttpResponse j.Json) × World → Result (HttpResponse j.Json) × World → Type 0
  Answered user anonymous_answer answer =
      ((user ≡ false) × (anonymous_answer ≡ answer))
      ⊎ ((user ≡ true) × (anonymous_answer ≡ refused))

  recovered-Answered :
      (user : Bool) (a b : Result (HttpResponse j.Json) × World)
      (caught : Text → World → Result (HttpResponse j.Json) × World)
      → Answered user a b
      → Answered user (recover a caught) (recover b caught)
  recovered-Answered user a b caught (inl (u, e)) = inl (u, ap (λ r. recover r caught) e)
  recovered-Answered user a b caught (inr (u, e)) = inr (u, ap (λ r. recover r caught) e)

module _ (c : Crypto) (j : JsonLib) (cfg : Config) (req : HttpRequest) (anonymous : Headers)
    (w : World) (h : IsAnonymous req.headers anonymous) where
  logout-anonymous :
      handle_logout c j cfg (with_headers anonymous req) w ≡ handle_logout c j cfg req w
  unfolding handle_logout to_lower same text
  logout-anonymous = rw (h.others (text "Cookie") refl) refl

  attempt_init-anonymous :
      handle_attempt_init c j cfg (with_headers anonymous req) w ≡ handle_attempt_init c j cfg req w
  unfolding handle_attempt_init init_attempt open_attempt parse_json_body to_lower same text
  attempt_init-anonymous =
      rw (h.others (text "X-Forwarded-For") refl, h.others (text "User-Agent") refl) refl

  get_order-refused : handle_get_order c j cfg (with_headers anonymous req) w ≡ refused j w
  unfolding handle_get_order
  get_order-refused = rw h.no_user refl

  confirm-refused : handle_confirm c j cfg (with_headers anonymous req) w ≡ refused j w
  unfolding handle_confirm
  confirm-refused = rw h.no_user refl

  complete-refused : handle_real_auth_complete c j cfg (with_headers anonymous req) w ≡ refused j w
  unfolding handle_real_auth_complete
  complete-refused = rw h.no_user refl

  dispatch-Answered :
      (r : Route)
      → Answered j w
          (acts_for_user r)
          (dispatch c j cfg r (with_headers anonymous req) w)
          (dispatch c j cfg r req w)
  unfolding dispatch acts_for_user handle_login handle_payment_page handle_pay parse_json_body
  dispatch-Answered login = inl (refl, refl)
  dispatch-Answered logout = inl (refl, logout-anonymous)
  dispatch-Answered get_order = inr (refl, get_order-refused)
  dispatch-Answered confirm = inr (refl, confirm-refused)
  dispatch-Answered real_auth_complete = inr (refl, complete-refused)
  dispatch-Answered payment_page = inl (refl, refl)
  dispatch-Answered attempt_init = inl (refl, attempt_init-anonymous)
  dispatch-Answered pay = inl (refl, refl)
  dispatch-Answered not_found = inl (refl, refl)

  -- Where the gateway asks for no login, the backend answers a request without X-User-Id as it answers
  -- the same request with it, and leaves the same state. Where the gateway asks for a login, the
  -- backend refuses the request without X-User-Id with status 400, and changes nothing.
  pub handle_request-user :
      Answered j w
        (requires_auth req.method req.path)
        (handle_request c j cfg (with_headers anonymous req) w)
        (handle_request c j cfg req w)
  unfolding handle_request route_of
  handle_request-user =
      subst
        (λ u.
          Answered j w u (handle_request c j cfg (with_headers anonymous req) w)
            (handle_request c j cfg req w))
        (route_of-requires_auth req)
        (recovered-Answered j w (acts_for_user (route_of req))
          (dispatch c j cfg (route_of req) (with_headers anonymous req) w)
          (dispatch c j cfg (route_of req) req w) (λ _. deny j 500 50001 (text "服务器内部错误"))
          (dispatch-Answered (route_of req)))
