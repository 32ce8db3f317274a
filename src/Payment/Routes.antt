-- ===== src/Payment/Routes.antt =====
-- backend/payment_impl.hpp: handleRequest.
use paid_server.Base.{Text, text, same, Bool, ◌&&◌, if◌then◌else◌}
use paid_server.Database.Monad.{Result, try_catch}
use paid_server.Strings.{starts_with}
use paid_server.Interfaces.{JsonLib, Crypto}
use paid_server.Payment.World.{World, HttpRequest, HttpResponse, Config}
use paid_server.Payment.Replies.{deny}
use paid_server.Payment.Auth.{handle_login, handle_logout, handle_real_auth_complete}
use paid_server.Payment.Orders.{handle_get_order, handle_confirm}
use paid_server.Payment.Scan.{handle_payment_page, handle_attempt_init}
use paid_server.Payment.Pay.{handle_pay}

pub data Route : Type 0 where
  login logout get_order confirm real_auth_complete payment_page attempt_init pay not_found : Route

abbrev is_post : HttpRequest → Text → Bool
is_post req path = same req.method (text "POST") && same req.path path

abbrev is_get : HttpRequest → Bool
is_get req = same req.method (text "GET")

unfoldable pub route_of : HttpRequest → Route
route_of req =
    if is_post req (text "/api/auth/login")
    then login
    else if is_post req (text "/api/auth/logout")
    then logout
    else if is_get req && starts_with (text "/api/payment/orders/") req.path
    then get_order
    else if is_post req (text "/api/payment/confirm")
    then confirm
    else if is_post req (text "/api/users/real-auth/complete")
    then real_auth_complete
    else if is_get req && same req.path (text "/api/payment/page")
    then payment_page
    else if is_post req (text "/api/payment/attempt/init")
    then attempt_init
    else if is_post req (text "/api/payment/pay")
    then pay
    else not_found

module _ (c : Crypto) (j : JsonLib) (cfg : Config) where
  unfoldable pub dispatch : Route → HttpRequest → World → Result (HttpResponse j.Json) × World
  dispatch login req = handle_login c j cfg req
  dispatch logout req = handle_logout c j cfg req
  dispatch get_order req = handle_get_order c j cfg req
  dispatch confirm req = handle_confirm c j cfg req
  dispatch real_auth_complete req = handle_real_auth_complete c j cfg req
  dispatch payment_page req = handle_payment_page c j cfg req
  dispatch attempt_init req = handle_attempt_init c j cfg req
  dispatch pay req = handle_pay c j cfg req
  dispatch not_found req = deny j 404 40400 (text "未找到接口")

  unfoldable pub handle_request : HttpRequest → World → Result (HttpResponse j.Json) × World
  unfolding route_of dispatch
  handle_request req =
      try_catch (dispatch (route_of req) req) (λ _. deny j 500 50001 (text "服务器内部错误"))
