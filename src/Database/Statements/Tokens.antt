-- ===== src/Database/Statements/Tokens.antt =====
-- How the server takes a statement of MySqlPool (backend/common/mysql_pool.hpp) apart: its literals,
-- and the bytes outside of them. The statements have no other quotes, and no comments.

use paid_server.Base.{
  ℕ, ◌≡◌, Text, Bool, true, false, List, [], ◌∷◌, ◌++◌, map, ◌==◌, ◌&&◌, if◌then◌else◌,
}
use paid_server.Strings.{to_string}
use paid_server.Database.Statements.{raw, escaped, number, Statement}

-- A byte outside of the literals, the value of a literal, or a literal without an end.
pub data Token : Type 0 where
  byte : ℕ → Token
  literal : Text → Token
  broken : Token

-- Where the reader stands: outside, in a literal with its value so far, behind a backslash in it, or
-- behind a quote in it, which ends it unless another follows.
pub data Mode : Type 0 where
  outside : Mode
  inside backslash ended : Text → Mode

-- What a backslash and a byte stand for.
abbrev unescaped : ℕ → Text
unescaped c =
    if c == b'0'
    then 0 ∷ []
    else if c == b'b'
    then 8 ∷ []
    else if c == b't'
    then 9 ∷ []
    else if c == b'n'
    then 10 ∷ []
    else if c == b'r'
    then 13 ∷ []
    else if c == b'Z'
    then 26 ∷ []
    else if c == b'%'
    then b'\\' ∷ b'%' ∷ []
    else if c == b'_'
    then b'\\' ∷ b'_' ∷ []
    else c ∷ []

unfoldable pub step : Mode → ℕ → List Token × Mode
step outside c = if c == b'\'' then ([], inside []) else (byte c ∷ [], outside)
step (inside v) c =
    if c == b'\''
    then ([], ended v)
    else if c == b'\\'
    then ([], backslash v)
    else ([], inside (v ++ c ∷ []))
step (backslash v) c = ([], inside (v ++ unescaped c))
step (ended v) c =
    if c == b'\'' then ([], inside (v ++ c ∷ [])) else (literal v ∷ byte c ∷ [], outside)

abbrev pub finish : Mode → List Token
finish outside = []
finish (inside v) = broken ∷ []
finish (backslash v) = broken ∷ []
finish (ended v) = literal v ∷ []

unfoldable pub emits : Mode → Text → List Token
unfolding step
emits m [] = []
emits m (c ∷ s) = (step m c).0 ++ emits (step m c).1 s

unfoldable pub ends : Mode → Text → Mode
unfolding step
ends m [] = m
ends m (c ∷ s) = ends (step m c).1 s

-- The tokens of a text that is read from here to its end.
unfoldable pub tokens : Mode → Text → List Token
unfolding emits ends
tokens m s = emits m s ++ finish (ends m s)

abbrev pub values : List Token → List Text
values [] = []
values (byte c ∷ ts) = values ts
values (literal v ∷ ts) = v ∷ values ts
values (broken ∷ ts) = values ts

-- The tokens without the values of the literals.
abbrev pub shape : List Token → List Token
shape [] = []
shape (byte c ∷ ts) = byte c ∷ shape ts
shape (literal v ∷ ts) = literal [] ∷ shape ts
shape (broken ∷ ts) = broken ∷ shape ts

-- An escaped value adds itself to the literal that it stands in.
abbrev pub IsEscape : (Text → Text) → Type 0
IsEscape escape =
    (so_far value rest : Text)
    → tokens (inside so_far) (escape value ++ rest) ≡ tokens (inside (so_far ++ value)) rest

abbrev pub with_value : Mode → Text → Mode
with_value outside v = outside
with_value (inside w) v = inside (w ++ v)
with_value (backslash w) v = backslash w
with_value (ended w) v = ended w

-- The tokens of a statement, part by part.
unfoldable pub reading : Mode → Statement → List Token
reading m [] = finish m
reading m (raw t ∷ ps) = emits m t ++ reading (ends m t) ps
reading m (escaped v ∷ ps) = reading (with_value m v) ps
reading m (number n ∷ ps) = map byte (to_string n) ++ reading m ps

abbrev pub is_inside : Mode → Bool
is_inside (inside v) = true
is_inside m = false

abbrev pub is_outside : Mode → Bool
is_outside outside = true
is_outside m = false

abbrev pub is_over : Mode → Bool
is_over outside = true
is_over (ended v) = true
is_over m = false

-- Values stand in literals, numbers outside of them, and the last literal has an end.
unfoldable pub is_placed : Mode → Statement → Bool
unfolding ends
is_placed m [] = is_over m
is_placed m (raw t ∷ ps) = is_placed (ends m t) ps
is_placed m (escaped v ∷ ps) = is_inside m && is_placed (with_value m v) ps
is_placed m (number n ∷ ps) = is_outside m && is_placed m ps

-- The literals of a statement, part by part.
unfoldable pub literals : Mode → Statement → List Text
unfolding emits ends
literals m [] = values (finish m)
literals m (raw t ∷ ps) = values (emits m t) ++ literals (ends m t) ps
literals m (escaped v ∷ ps) = literals (with_value m v) ps
literals m (number n ∷ ps) = literals m ps

-- The statement without its values.
abbrev pub blanked : Statement → Statement
blanked [] = []
blanked (raw t ∷ ps) = raw t ∷ blanked ps
blanked (escaped v ∷ ps) = escaped [] ∷ blanked ps
blanked (number n ∷ ps) = number n ∷ blanked ps
