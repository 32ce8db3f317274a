-- ===== src/Settings/Load.antt =====
-- Config::loadFromEnvFile: the lines of a file of settings, as a map from keys to values.
use paid_server.Base.{
  ℕ, Text, text, Bool, true, List, [], ◌∷◌, ◌++◌, Option, none, some, is_some, ◌==◌, ◌||◌,
  if◌then◌else◌,
}
use paid_server.Base.Map.{find, put, text_eq}
use paid_server.Database.Monad.{Result, ok, throws}
use paid_server.Results.{◌>>=◌}
use paid_server.Strings.{trim}

-- values_, a std::map.
abbrev pub Settings : Type 0
Settings = List (Text × Text)

abbrev pub onto_first : ℕ → List Text → List Text
onto_first c [] = (c ∷ []) ∷ []
onto_first c (l ∷ ls) = (c ∷ l) ∷ ls

-- What std::getline gives, one after another: a newline at the end of the input starts no line.
unfoldable pub lines : Text → List Text
lines [] = []
lines (c ∷ s) = let rest = lines s in if c == 10 then [] ∷ rest else onto_first c rest

abbrev is_separator : ℕ → Bool
is_separator c = c == b'=' || c == b':'

-- The text before the first = or :, and what follows it.
unfoldable pub cut_entry : Text → Option (Text × Text)
cut_entry [] = none
cut_entry (c ∷ s) =
    let rest = cut_entry s in if is_separator c then some ([], s) else onto_key c rest
  where
    onto_key : ℕ → Option (Text × Text) → Option (Text × Text)
    onto_key c none = none
    onto_key c (some (k, v)) = some (c ∷ k, v)

unfoldable pub strip_inline_comment : Text → Text
strip_inline_comment [] = []
strip_inline_comment (c ∷ s) = if c == b'#' then [] else c ∷ strip_inline_comment s

abbrev pub add_key : Text → Text → Text → Settings → Result Settings
add_key line [] value m = throws (text "无效的配置项: " ++ line)
add_key line (c ∷ key) value m =
    if is_some (find (c ∷ key) m)
    then throws (text "重复的配置项: " ++ c ∷ key)
    else ok (put (c ∷ key) value m)

unfoldable pub add_entry : Text → Option (Text × Text) → Settings → Result Settings
unfolding strip_inline_comment
add_entry line none m = throws (text "无效的配置项: " ++ line)
add_entry line (some (key, value)) m =
    add_key line (trim key) (trim (strip_inline_comment (trim value))) m

unfoldable pub is_skipped : Text → Bool
is_skipped [] = true
is_skipped (c ∷ s) = c == b'#'

-- One round of the loop, on a line whose ends have been trimmed.
unfoldable pub load_line : Text → Settings → Result Settings
unfolding add_entry is_skipped cut_entry
load_line line m = if is_skipped line then ok m else add_entry line (cut_entry line) m

unfoldable pub load_lines : List Text → Settings → Result Settings
unfolding load_line
load_lines [] m = ok m
load_lines (l ∷ ls) m = load_line (trim l) m >>= λ m'. load_lines ls m'

-- The contents of the file; none where it cannot be opened.
unfoldable pub load_from_env_file : Text → Option Text → Settings → Result Settings
unfolding load_lines lines
load_from_env_file filepath none m = throws (text "无法打开配置文件: " ++ filepath)
load_from_env_file filepath (some contents) m = load_lines (lines contents) m
