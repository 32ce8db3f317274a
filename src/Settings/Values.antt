-- ===== src/Settings/Values.antt =====
-- The getters of class Config that the sections are made of: findString, requireString, requireInt,
-- requireBool, requirePositive.
use paid_server.Base.{
  ℕ, Text, text, same, Bool, true, false, [], ◌∷◌, ◌++◌, Option, none, some, is_some, ◌||◌,
  if◌then◌else◌,
}
use paid_server.Base.Map.{find, text_eq}
use paid_server.Database.Monad.{Result, ok, throws}
use paid_server.Results.{◌>>=◌, require}
use paid_server.Strings.{to_lower}
use paid_server.Interfaces.{ℤ, pos}
use paid_server.Settings.Numbers.{stoi, is_positive}
use paid_server.Settings.Load.{Settings}

unfoldable pub find_string : Settings → Text → Option Text
find_string m key = find key m

abbrev pub present : Text → Option Text → Result Text
present key none = throws (text "缺少必需配置项: " ++ key)
present key (some []) = throws (text "缺少必需配置项: " ++ key)
present key (some (c ∷ s)) = ok (c ∷ s)

unfoldable pub require_string : Settings → Text → Result Text
unfolding find_string
require_string m key = present key (find_string m key)

abbrev pub whole : Text → Option (ℤ × Text) → Result ℤ
whole key none = throws (text "无效的整数配置项: " ++ key)
whole key (some (z, [])) = ok z
whole key (some (z, c ∷ s)) = throws (text "无效的整数配置项: " ++ key)

unfoldable pub require_int : Settings → Text → Result ℤ
unfolding find_string
require_int m key = present key (find_string m key) >>= λ v. whole key (stoi v)

truth : Text → Text → Result Bool
truth key v =
    if same v (text "true") || same v (text "1") || same v (text "yes") || same v (text "on")
    then ok true
    else if same v (text "false") || same v (text "0") || same v (text "no") || same v (text "off")
    then ok false
    else throws (text "无效的布尔配置项: " ++ key)

unfoldable pub require_bool : Settings → Text → Result Bool
unfolding find_string truth
require_bool m key = present key (find_string m key) >>= λ v. truth key (to_lower v)

unfoldable pub require_positive : Text → ℤ → Result (Unit {0})
require_positive key value = require (is_positive value) (key ++ text " 必须为正数")

-- findString(key).has_value() ? requireInt(key) : fallback
unfoldable pub int_or : Settings → Text → ℕ → Result ℤ
unfolding find_string require_int
int_or m key fallback = if is_some (find_string m key) then require_int m key else ok (pos fallback)

unfoldable pub validate_jwt_algorithm : Text → Result (Unit {0})
validate_jwt_algorithm algorithm =
    require
      (same algorithm (text "HS256")
        || same algorithm (text "HS384")
        || same algorithm (text "HS512"))
      (text "不支持的 JWT_ALGORITHM: " ++ algorithm)
