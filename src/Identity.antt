-- ===== src/Identity.antt =====
-- backend/common/jwt.hpp: class HashService, and backend/common/password_verifier.hpp.
use paid_server.Base.{
  ℕ, ◌+◌, ◌-◌, ◌/◌, ◌%◌, Text, text, empty, Bool, true, false, not, [], ◌∷◌, ◌++◌, Option, none,
  some, map, ltb, leb, ◌==◌, ◌&&◌, ◌||◌, if◌then◌else◌, length, take, drop, replicate, is_some,
}
use mathlib.Core.List.{reverse}
use paid_server.Database.Monad.{Result, ok, throws}
use paid_server.Strings.{trim, cut, to_lower, to_upper_char}
use paid_server.Interfaces.{Crypto}
use paid_server.Jwt.{constant_time_equal}
use paid_server.Results.{◌>>=◌}

hex_digit : ℕ → ℕ
hex_digit d = if ltb d 10 then b'0' + d else b'a' + (d - 10)

unfoldable pub to_hex : Text → Text
unfolding hex_digit
to_hex [] = []
to_hex (b ∷ bs) = hex_digit (b / 16 % 16) ∷ hex_digit (b % 16) ∷ to_hex bs

starts_with_dot : Text → Bool
starts_with_dot [] = false
starts_with_dot (c ∷ s) = c == b'.'

-- Whether there is a character before the first '@' and behind it, a dot in the domain, and no dot
-- at an end of either.
valid_parts : Text × Option Text → Bool
unfolding starts_with_dot
valid_parts (local, none) = false
valid_parts (local, some domain) =
    not (empty local)
    && not (empty domain)
    && is_some (cut b'.' domain).1
    && not (
        starts_with_dot local
        || starts_with_dot (reverse local)
        || starts_with_dot domain
        || starts_with_dot (reverse domain))

unfoldable pub is_valid_email_format : Text → Bool
unfolding valid_parts
is_valid_email_format email =
    not (empty email || ltb 254 (length email)) && valid_parts (cut b'@' email)

abbrev is_digit : ℕ → Bool
is_digit c = leb b'0' c && leb c b'9'

all_digits : Text → Bool
all_digits [] = true
all_digits (c ∷ s) = is_digit c && all_digits s

-- Digits, but for the last character, which may be X.
digits_to_last : Text → Bool
digits_to_last [] = true
digits_to_last (c ∷ []) = is_digit c || c == b'X'
digits_to_last (c ∷ d ∷ s) = is_digit c && digits_to_last (d ∷ s)

unfoldable pub is_valid_id_card_format : Text → Bool
unfolding all_digits digits_to_last
is_valid_id_card_format id_card =
    if length id_card == 15
    then all_digits id_card
    else if not (length id_card == 18)
    then false
    else digits_to_last id_card

unfoldable pub normalize_email : Text → Result Text
normalize_email email =
    let normalized = to_lower (trim email) in
    if not (is_valid_email_format normalized) then throws (text "邮箱格式错误") else ok normalized

unfoldable pub normalize_id_card : Text → Result Text
normalize_id_card id_card =
    let normalized = map to_upper_char (trim id_card) in
    if not (is_valid_id_card_format normalized) then throws (text "身份证号格式错误") else ok normalized

abbrev pub stars : ℕ → Text
stars n = replicate n b'*'

mask_parts : Text × Option Text → Text
mask_parts (local, none) = stars 4
mask_parts (local, some domain) =
    if empty local
    then stars 4 ++ b'@' ∷ domain
    else if leb (length local) 2
    then take 1 local ++ (stars 4 ++ b'@' ∷ domain)
    else take 3 local ++ (stars 4 ++ b'@' ∷ domain)

unfoldable pub mask_email : Text → Text
unfolding mask_parts
mask_email email = mask_parts (cut b'@' email)

unfoldable pub mask_id_card : Text → Text
mask_id_card id_card =
    if ltb (length id_card) 6
    then stars 4
    else if leb (length id_card) 8
    then take 2 id_card ++ (stars 4 ++ drop (length id_card - 2) id_card)
    else take 4 id_card ++ (stars (length id_card - 6) ++ drop (length id_card - 2) id_card)

module _ (c : Crypto) where
  unfoldable pub hmac_sha256_hex : Text → Text → Text
  hmac_sha256_hex input secret = to_hex (c.hmac (text "HS256") secret input)

  unfoldable pub hash_email : Text → Text → Result Text
  unfolding hmac_sha256_hex
  hash_email secret email = normalize_email email >>= λ e. ok (hmac_sha256_hex e secret)

  unfoldable pub hash_id_card : Text → Text → Result Text
  unfolding hmac_sha256_hex
  hash_id_card secret id_card = normalize_id_card id_card >>= λ i. ok (hmac_sha256_hex i secret)

  unfoldable pub hash_login_password : Text → Text → Text
  unfolding hmac_sha256_hex
  hash_login_password plain_password secret =
      if empty plain_password || empty secret then [] else hmac_sha256_hex plain_password secret

  unfoldable pub verify_login_password_with_hash : Text → Text → Text → Bool
  unfolding hash_login_password
  verify_login_password_with_hash plain_password password_hash secret =
      if empty plain_password || empty password_hash
      then false
      else if empty secret || not (length password_hash == 64)
      then false
      else constant_time_equal (hash_login_password plain_password secret) password_hash
