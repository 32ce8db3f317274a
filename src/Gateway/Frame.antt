-- ===== src/Gateway/Frame.antt =====
-- gateway/common/ws_registry.hpp: sendTextFrame, and the frame as RFC 6455 reads it.
use paid_server.Base.{
  ℕ, ◌+◌, ◌*◌, ◌/◌, ◌%◌, ◌^◌, ◌≤◌, ◌<◌, ◌≡◌, refl, Text, Bool, false, [], ◌∷◌, ◌++◌, Option, none,
  some, arith, ltb, leb, ◌==◌, if◌then◌else◌, length, length-append, take, drop, Bool-cases, inl,
  inr,
}

-- The bytes of the frame; none for a payload above 0xFFFF bytes.
unfoldable pub text_frame : Text → Option Text
text_frame payload =
    if ltb (length payload) 126
    then some (0x81 ∷ length payload ∷ payload)
    else if leb (length payload) 0xFFFF
    then some (0x81 ∷ 126 ∷ length payload / 2 ^ 8 % 256 ∷ length payload % 256 ∷ payload)
    else none

module _ (write : ℕ → Text → Bool) where
  abbrev pub send_frame : ℕ → Option Text → Bool
  send_frame fd none = false
  send_frame fd (some frame) = write fd frame

  unfoldable pub send_text_frame : ℕ → Text → Bool
  unfolding text_frame
  send_text_frame fd payload = send_frame fd (text_frame payload)

-- How a client reads the next unmasked text frame: the payload and the bytes that follow.
abbrev pub split_at : ℕ → Text → Option (Text × Text)
split_at n bytes = if leb n (length bytes) then some (take n bytes, drop n bytes) else none

abbrev pub read_long : ℕ → Text → Option (Text × Text)
read_long len (hi ∷ lo ∷ rest) = if len == 126 then split_at (hi * 256 + lo) rest else none
read_long len _ = none

abbrev pub read_frame : Text → Option (Text × Text)
read_frame (op ∷ len ∷ rest) =
    if op == 0x81 then (if ltb len 126 then split_at len rest else read_long len rest) else none
read_frame _ = none

pub take-append : (xs ys : Text) → take (length xs) (xs ++ ys) ≡ xs
take-append [] ys = refl
take-append (x ∷ xs) ys = rw (take-append xs ys)

pub drop-append : (xs ys : Text) → drop (length xs) (xs ++ ys) ≡ ys
drop-append [] ys = refl
drop-append (x ∷ xs) ys = drop-append xs ys

split_at-append : (xs ys : Text) → split_at (length xs) (xs ++ ys) ≡ some (xs, ys)
split_at-append xs ys = ground (arith, length-append xs ys, take-append xs ys, drop-append xs ys)

-- A frame is written for each payload of at most 0xFFFF bytes, and a client that reads it gets the
-- payload back, with what follows untouched.
pub read_frame-text_frame :
    (payload rest : Text)
    → length payload ≤ 0xFFFF
    → (frame : Text) × (text_frame payload ≡ some frame)
      × (read_frame (frame ++ rest) ≡ some (payload, rest))
unfolding text_frame
read_frame-text_frame payload rest h = elim (Bool-cases (ltb (length payload) 126)) [
  | inl short ↦
      (0x81 ∷ length payload ∷ payload, rw short refl, rw short (split_at-append payload rest))
  | inr long ↦ (
    0x81 ∷ 126 ∷ length payload / 2 ^ 8 % 256 ∷ length payload % 256 ∷ payload,
    ground arith,
    (let e : length payload / 256 % 256 * 256 + length payload % 256 ≡ length payload =
          omega arith in
        rw e (split_at-append payload rest)),
  )
]

pub text_frame-none : (payload : Text) → 0xFFFF < length payload → text_frame payload ≡ none
unfolding text_frame
text_frame-none payload h = ground arith
