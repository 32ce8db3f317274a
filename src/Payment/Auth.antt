-- ===== src/Payment/Auth.antt =====
-- backend/payment_impl.hpp: handleLogin, handleLogout and handleRealAuthComplete.
use paid_server.Base.{Text, text, empty, true, not, [], ◌∷◌, ◌++◌, ◌||◌, if◌then◌else◌}
use paid_server.Database.Rows.{UserInfo, is_normal}
use paid_server.Database.Monad.{Result, pure, ◌>>=◌, try_catch}
use paid_server.Database.Queries.{get_user_by_username, update_user_real_auth_profile}
use paid_server.Strings.{header_value, cookie_value}
use paid_server.Interfaces.{JsonLib, Crypto}
use paid_server.Identity.{
  normalize_email, normalize_id_card, mask_email, mask_id_card, hash_email, hash_id_card,
  verify_login_password_with_hash,
}
use paid_server.Payment.World.{
  World, HttpRequest, HttpResponse, Config, lift, on_db, make_login_session_id,
}
use paid_server.Payment.Sessions.{save_session, remove_session}
use paid_server.Payment.Replies.{
  found, parsed, make_ok, respond, deny, grant, parse_json_body, body_text,
}

module _ (c : Crypto) (j : JsonLib) (cfg : Config) where
  with_cookie : Text → HttpResponse j.Json → HttpResponse j.Json
  with_cookie cookie r = record r { extra_headers = (text "Set-Cookie", cookie) ∷ [] }

  -- The session of a user whose password is right.
  open_session : UserInfo → World → Result (HttpResponse j.Json) × World
  unfolding with_cookie
  open_session user = do
    session_id ← make_login_session_id
    saved ← save_session session_id user.user_id cfg.login_session_ttl_seconds
    if not saved
        then deny j 500 50001 (text "创建登录会话失败")
        else pure (
            with_cookie
              (text "session_id=" ++ session_id ++ text "; Path=/; HttpOnly; SameSite=Lax")
              (respond j 200 (make_ok j (j.object ((text "user_id", j.string user.user_id) ∷ [])))))

  check_login : Text → Text → World → Result (HttpResponse j.Json) × World
  unfolding open_session
  check_login username password = do
    user ← on_db (get_user_by_username username)
    found user is_normal (deny j 404 40403 (text "用户失效")) λ u.
        if not (verify_login_password_with_hash c password u.password_hash cfg.password_secret)
        then deny j 401 40104 (text "密码错误")
        else open_session u

  unfoldable pub handle_login : HttpRequest → World → Result (HttpResponse j.Json) × World
  unfolding check_login
  handle_login req = parsed (parse_json_body j req) (deny j 400 40001 (text "请求体不是合法 JSON")) λ body.
      do
        username ← body_text j body (text "username")
        password ← body_text j body (text "password")
        if empty username || empty password
            then deny j 400 40001 (text "username 或 password 不能为空")
            else check_login username password

  unfoldable pub handle_logout : HttpRequest → World → Result (HttpResponse j.Json) × World
  unfolding with_cookie
  handle_logout req =
      let session_id =
        cookie_value (header_value req.headers (text "Cookie")) (text "session_id") in
      do
        _ ← if empty session_id then pure true else remove_session session_id
        pure (
            with_cookie (text "session_id=; Path=/; HttpOnly; SameSite=Lax; Max-Age=0")
              (respond j 200 (make_ok j (j.object []))))

  complete : Text → Text → Text → Text → World → Result (HttpResponse j.Json) × World
  complete user_id email id_card return_url = do
    email_norm ← lift (normalize_email email)
    id_card_norm ← lift (normalize_id_card id_card)
    email_hash ← lift (hash_email c cfg.email_hash_secret email_norm)
    id_card_hash ← lift (hash_id_card c cfg.id_card_hash_secret id_card_norm)
    updated ← on_db (
        update_user_real_auth_profile (record {
          user_id = user_id;
          email_hash = email_hash;
          email_masked = mask_email email_norm;
          id_card_hash = id_card_hash;
          id_card_masked = mask_id_card id_card_norm;
        }))
    if not updated
        then deny j 500 50001 (text "更新实名信息失败")
        else grant j ((text "redirect_url", j.string return_url) ∷ [])

  unfoldable pub handle_real_auth_complete :
      HttpRequest → World → Result (HttpResponse j.Json) × World
  unfolding complete
  handle_real_auth_complete req =
      let user_id = header_value req.headers (text "X-User-Id") in
      if empty user_id
      then deny j 400 40001 (text "缺少 X-User-Id")
      else parsed (parse_json_body j req) (deny j 400 40001 (text "请求体 JSON 非法")) λ body. do
        email ← body_text j body (text "email")
        id_card ← body_text j body (text "id_card")
        return_url ← body_text j body (text "return_url")
        if empty email || empty id_card || empty return_url
            then deny j 400 40001 (text "参数不完整")
            else try_catch (complete user_id email id_card return_url) (λ e. deny j 400 40001 e)
