-- ===== src/Http/Numbers.antt =====
-- std::stoul.
use paid_server.Base.{
  ℕ, ◌-◌, ◌%◌, ◌^◌, Text, text, Bool, true, false, [], ◌∷◌, Option, none, some, ltb, ◌==◌,
  if◌then◌else◌,
}
use paid_server.Database.Monad.{Result, ok, throws}
use paid_server.Settings.Numbers.{digits, skip_spaces}

-- The number, which a sign negates modulo 2 ^ 64. Both exceptions have the same message.
abbrev pub bounded : Bool → Option (ℕ × Text) → Result ℕ
bounded minus none = throws (text "stoul")
bounded minus (some (n, rest)) =
    if ltb n (2 ^ 64)
    then ok (if minus then (2 ^ 64 - n) % 2 ^ 64 else n)
    else throws (text "stoul")

abbrev pub signed : Text → Result ℕ
signed [] = throws (text "stoul")
signed (c ∷ s) =
    if c == b'-'
    then bounded true (digits s)
    else if c == b'+'
    then bounded false (digits s)
    else bounded false (digits (c ∷ s))

unfoldable pub stoul : Text → Result ℕ
stoul s = signed (skip_spaces s)
