-- ===== src/Strings/Digits.antt =====
-- std::to_string of a number gives decimal digits.
use paid_server.Base.{ℕ, zero, suc, ◌+◌, ◌/◌, ◌%◌, ◌≤◌, Text, [], ◌∷◌, All, arith}
use paid_server.Strings.{to_string, digits_from}

-- A digit.
abbrev pub IsDigit : ℕ → Type 0
IsDigit c = (b'0' ≤ c) × (c ≤ b'9')

digits_from-IsDigit :
    (fuel n : ℕ) (acc : Text) → All IsDigit acc → All IsDigit (digits_from fuel n acc)
unfolding digits_from
digits_from-IsDigit zero n acc h = h
digits_from-IsDigit (suc fuel) n acc h =
    ground (arith, h, digits_from-IsDigit fuel (n / 10) ((b'0' + n % 10) ∷ acc))

pub to_string-IsDigit : (n : ℕ) → All IsDigit (to_string n)
unfolding to_string
to_string-IsDigit n = digits_from-IsDigit (suc n) n [] tt
