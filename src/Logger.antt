-- ===== src/Logger.antt =====
-- backend/common/logger.hpp: class Logger. Its copy for the gateway differs in the name of the spdlog
-- logger. std::regex_replace is a parameter; what spdlog does with a message is not modelled.
pub mod Calls
use paid_server.Base.{
  ℕ, ◌≡◌, ◌≢◌, ◌↔◌, refl, ◌∙◌, Text, text, Bool, true, false, not, ◌&&◌, List, [], ◌∷◌, ◌++◌,
  Option, none, some, is_some, if◌then◌else◌, arith, All, Bool-cases, Option-cases, inl, inr,
}
use paid_server.Database.Monad.{Result, ok, throws}

pub data Level : Type 0 where
  debug_level info_level warn_level err_level : Level

abbrev pub is_debug : Level → Bool
is_debug debug_level = true
is_debug level = false

-- A sink: the console, or a file with its greatest size and number.
pub data Sink : Type 0 where
  console : Level → Sink
  file : Level → Text → ℕ → ℕ → Sink

-- logger_: its sinks and its level.
pub record SpdLogger : Type 0 where
  pub sinks : List Sink
  pub level : Level

pub record Logger : Type 0 where
  pub logger : Option SpdLogger
  pub debug : Bool
  pub initialized : Bool
  -- The messages given to logger_->log, the latest first.
  pub logged : List (Level × Text)

unfoldable pub start : Logger
start = record { logger = none; debug = false; initialized = false; logged = [] }

abbrev lowest : Bool → Level
lowest debug = if debug then debug_level else info_level

abbrev console_sinks : Bool → Bool → List Sink
console_sinks console_enabled debug = if console_enabled then console (lowest debug) ∷ [] else []

unfoldable pub init : Bool → Text → ℕ → ℕ → Bool → Logger → Bool × Logger
init debug log_file max_file_size max_files console_enabled l =
    if l.initialized then (false, l) else (
      true,
      record l {
        debug = debug;
        logger = some (record {
          sinks =
              console_sinks console_enabled debug
              ++ file (lowest debug) log_file max_file_size max_files ∷ [];
          level = lowest debug;
        });
        initialized = true;
      },
    )

unfoldable pub shutdown : Logger → Logger
shutdown l = record l { logger = none; initialized = false }

-- fmt::format of a text and its arguments is given: its result, or what its exception says.
unfoldable pub format_message : Text → Result Text → Text
format_message fmt_text (ok message) = message
format_message fmt_text (throws what) = text "日志格式化错误: " ++ what ++ text "; 原始格式=" ++ fmt_text

abbrev jwt_pattern : Text
jwt_pattern = text "([A-Za-z0-9_-]{10,})\\.([A-Za-z0-9_-]{10,})\\.([A-Za-z0-9_-]{10,})"

abbrev hash_pattern : Text
hash_pattern = text "\\b[a-fA-F0-9]{48,128}\\b"

abbrev key_value_sensitive_pattern : Text
key_value_sensitive_pattern =
    text
      "((\"?)(password|login_password|pay_password|token|qr_token|payment_auth_token|secret|id_card|id_card_hash|email_hash)\\2\\s*[=:]\\s*\"?)[^,\"\\s\\}\\]]+"

abbrev header_sensitive_pattern : Text
header_sensitive_pattern = text "((Authorization|Cookie)\\s*:\\s*)[^\\r\\n,]+"

-- std::regex_replace: the text, the pattern, the replacement.
module _ (regex_replace : Text → Text → Text → Text) where
  unfoldable pub sanitize : Text → Text
  sanitize input =
      regex_replace
        (regex_replace
          (regex_replace (regex_replace input jwt_pattern (text "<JWT_REDACTED>")) hash_pattern
            (text "<HASH_REDACTED>"))
          key_value_sensitive_pattern (text "$1<REDACTED>"))
        header_sensitive_pattern (text "$1<REDACTED>")

  unfoldable pub write : Level → Text → Result Text → Logger → Result (Unit {0}) × Logger
  unfolding sanitize format_message
  write level fmt_text formatted l =
      if is_debug level && not l.debug
      then (ok tt, l)
      else if is_some l.logger
      then (
        ok tt,
        record l { logged = (level, sanitize (format_message fmt_text formatted)) ∷ l.logged },
      )
      else (throws (text "Logger not initialized"), l)
