-- ===== src/Strings.antt =====
-- The string helpers that the services repeat: toLower, trim, headerValue, queryParam, cookieValue,
-- split, and the std::string operations they are made of.
pub mod Digits
use paid_server.Base.{
  ℕ, zero, suc, ◌+◌, ◌-◌, ◌/◌, ◌%◌, Text, same, Bool, true, false, List, [], ◌∷◌, ◌++◌, Option,
  none, some, map, ltb, leb, ◌==◌, ◌&&◌, ◌||◌, if◌then◌else◌, length,
}
use mathlib.Core.List.{reverse}

-- std::tolower and std::toupper in the C locale.
unfoldable pub to_lower_char : ℕ → ℕ
to_lower_char c = if leb 65 c && leb c 90 then c + 32 else c

unfoldable pub to_upper_char : ℕ → ℕ
to_upper_char c = if leb 97 c && leb c 122 then c - 32 else c

unfoldable pub to_lower : Text → Text
unfolding to_lower_char
to_lower s = map to_lower_char s

-- The text before the first c, and what follows that c; none if there is no c.
unfoldable pub cut : ℕ → Text → Text × Option Text
cut c [] = ([], none)
cut c (x ∷ xs) =
    let (before, rest) = cut c xs in if x == c then ([], some xs) else (x ∷ before, rest)

-- rfind(prefix, 0) == 0
unfoldable pub starts_with : Text → Text → Bool
starts_with [] s = true
starts_with (p ∷ ps) [] = false
starts_with (p ∷ ps) (x ∷ xs) = x == p && starts_with ps xs

-- The headers of a request, in the order of the std::map.
abbrev pub Headers : Type 0
Headers = List (Text × Text)

unfoldable pub header_with : Text → Headers → Text
header_with key [] = []
header_with key ((k, v) ∷ hs) = if same (to_lower k) key then v else header_with key hs

unfoldable pub header_value : Headers → Text → Text
unfolding header_with to_lower
header_value headers name = header_with (to_lower name) headers

abbrev is_blank : ℕ → Bool
is_blank c = c == b' ' || c == 9 || c == 13 || c == 10

unfoldable pub drop_blank : Text → Text
drop_blank [] = []
drop_blank (x ∷ xs) = if is_blank x then drop_blank xs else x ∷ xs

-- Both ends without blanks; empty where there is nothing else.
unfoldable pub trim : Text → Text
unfolding drop_blank
trim s = reverse (drop_blank (reverse (drop_blank s)))

unfoldable pub drop_spaces : Text → Text
drop_spaces [] = []
drop_spaces (x ∷ xs) = if x == b' ' then drop_spaces xs else x ∷ xs

-- One key=value field: the value if the key is the name; none without a match or an equals sign.
abbrev field_value : (Text → Text) → Text → Text × Option Text → Option Text
field_value clean name (key, none) = none
field_value clean name (key, some value) =
    if same (clean key) name then some (clean value) else none

-- What the loop does with a field: return its value, stop at the end, or go on behind the delimiter.
abbrev next_field : Option Text → Option Text → (Text → Text) → Text
next_field (some value) rest more = value
next_field none none more = []
next_field none (some rest) more = more rest

-- The loops of queryParam and cookieValue, with fuel for the fields.
unfoldable pub scan_fields : ℕ → (Text → Text) → ℕ → Text → Text → Text
scan_fields delimiter clean zero name s = []
scan_fields delimiter clean (suc fuel) name [] = []
scan_fields delimiter clean (suc fuel) name (x ∷ xs) =
    let (part, rest) = cut delimiter (x ∷ xs) in
    next_field (field_value clean name (cut b'=' part)) rest
      (λ r. scan_fields delimiter clean fuel name r)

unfoldable pub query_param : Text → Text → Text
unfolding scan_fields
query_param query key = scan_fields b'&' (λ s. s) (suc (length query)) key query

unfoldable pub cookie_value : Text → Text → Text
unfolding scan_fields drop_spaces
cookie_value header name = scan_fields b';' drop_spaces (suc (length header)) name header

-- split() of jwt.hpp.
split_from : ℕ → Text → Text → List Text
split_from delimiter cur [] = cur ∷ []
split_from delimiter cur (c ∷ s) =
    if c == delimiter
    then cur ∷ split_from delimiter [] s
    else split_from delimiter (cur ++ c ∷ []) s

unfoldable pub split : Text → ℕ → List Text
unfolding split_from
split s delimiter = split_from delimiter [] s

-- std::to_string of a number, with fuel for its digits.
unfoldable pub digits_from : ℕ → ℕ → Text → Text
digits_from zero n acc = acc
digits_from (suc fuel) n acc =
    let rest = digits_from fuel (n / 10) ((b'0' + n % 10) ∷ acc) in
    if ltb n 10 then (b'0' + n) ∷ acc else rest

unfoldable pub to_string : ℕ → Text
unfolding digits_from
to_string n = digits_from (suc n) n []
