-- ===== src/Settings/Tests.antt =====
-- The configuration on a small file.
use paid_server.Base.{◌≡◌, refl, text, same, some, [], ◌∷◌, ◌++◌, All, arith}
use paid_server.Base.Map.{find, put, text_eq}
use paid_server.Database.Monad.{ok}
use paid_server.Interfaces.{pos}
use paid_server.Strings.{drop_blank, trim}
use paid_server.Settings.Numbers.{is_positive}
use paid_server.Settings.Values.{int_or, require_positive}
use paid_server.Settings.Load.{Settings, load_from_env_file, is_skipped}
use paid_server.Settings.Backend.{HttpServerConfig, http_server}
use paid_server.Settings.Keys.{print, IsPlain, load_from_env_file-print}

abbrev defaults : HttpServerConfig
defaults = record {
  worker_threads = pos 20;
  listen_backlog = pos 128;
  max_concurrent_connections = pos 256;
  read_timeout_seconds = pos 10;
}

no_settings : http_server [] ≡ ok defaults
unfolding http_server int_or find require_positive is_positive
no_settings = refl

abbrev entry : Settings
entry = (text "K", text "v") ∷ []

two_keys :
    load_from_env_file (text "env") (some (text "A=1")) entry
    ≡ ok (entry ++ (text "A", text "1") ∷ [])
unfolding load_from_env_file text trim find same put
two_keys = refl

entry-IsPlain : All IsPlain entry
unfolding text drop_blank is_skipped
entry-IsPlain = (
  record {
    key_trim = record { front = refl; back = refl };
    value_trim = record { front = refl; back = refl };
    key_bytes = ((λ h. omega (arith, h), λ h. omega (arith, h), λ h. omega (arith, h)), tt);
    value_bytes = ((λ h. omega (arith, h), λ h. omega (arith, h)), tt);
    key_start = refl;
  },
  tt,
)

load_from_env_file-print_example :
    load_from_env_file (text "env") (some (print entry)) [] ≡ ok entry
unfolding find
load_from_env_file-print_example =
    load_from_env_file-print (text "env") entry entry-IsPlain (refl, tt)
