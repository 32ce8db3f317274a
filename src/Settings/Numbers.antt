-- ===== src/Settings/Numbers.antt =====
-- std::stoi, and the conversions of an int. The numbers of a text are unbounded here, and tested
-- against the bounds of an int at the end.
use paid_server.Base.{
  ℕ, zero, suc, ◌+◌, ◌*◌, ◌-◌, ◌%◌, ◌^◌, Text, Bool, true, false, [], ◌∷◌, Option, none, some, ltb,
  leb, ◌==◌, ◌&&◌, ◌||◌, if◌then◌else◌,
}
use paid_server.Interfaces.{ℤ, pos, negsuc}

abbrev pub is_digit : ℕ → Bool
is_digit c = leb b'0' c && leb c b'9'

-- isspace in the C locale.
abbrev pub is_space : ℕ → Bool
is_space c = c == b' ' || leb 9 c && leb c 13

unfoldable pub skip_spaces : Text → Text
skip_spaces [] = []
skip_spaces (c ∷ s) = if is_space c then skip_spaces s else c ∷ s

-- The digits that follow a number, and what is behind them.
unfoldable pub more_digits : ℕ → Text → ℕ × Text
more_digits n [] = (n, [])
more_digits n (c ∷ s) =
    let rest = more_digits (n * 10 + (c - b'0')) s in if is_digit c then rest else (n, c ∷ s)

-- At least one digit.
unfoldable pub digits : Text → Option (ℕ × Text)
unfolding more_digits
digits [] = none
digits (c ∷ s) = if is_digit c then some (more_digits (c - b'0') s) else none

abbrev negated : ℕ → ℤ
negated zero = pos 0
negated (suc n) = negsuc n

-- The value within the bounds of an int.
abbrev pub bounded : Bool → Option (ℕ × Text) → Option (ℤ × Text)
bounded minus none = none
bounded true (some (n, rest)) = if leb n (2 ^ 31) then some (negated n, rest) else none
bounded false (some (n, rest)) = if ltb n (2 ^ 31) then some (pos n, rest) else none

unfoldable pub signed : Text → Option (ℤ × Text)
unfolding digits
signed [] = none
signed (c ∷ s) =
    if c == b'-'
    then bounded true (digits s)
    else if c == b'+'
    then bounded false (digits s)
    else bounded false (digits (c ∷ s))

-- The number and what is behind it; none for the exceptions.
unfoldable pub stoi : Text → Option (ℤ × Text)
unfolding signed skip_spaces
stoi s = signed (skip_spaces s)

-- The conversion of an int to an unsigned type of w bits.
unfoldable pub to_unsigned : ℕ → ℤ → ℕ
to_unsigned w (pos n) = n % 2 ^ w
to_unsigned w (negsuc n) = (2 ^ w - 1) - n % 2 ^ w

-- static_cast<int> of an unsigned int.
unfoldable pub to_int : ℕ → ℤ
to_int n = if ltb n (2 ^ 31) then pos n else negsuc ((2 ^ 32 - 1) - n)

unfoldable pub is_positive : ℤ → Bool
is_positive (pos n) = ltb 0 n
is_positive (negsuc n) = false

unfoldable pub is_negative : ℤ → Bool
is_negative (pos n) = false
is_negative (negsuc n) = true
