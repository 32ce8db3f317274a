-- ===== src/Gateway/Handshake/Base64.antt =====
-- gateway/common/ws_registry.hpp: base64Encode, and base64 as RFC 4648 reads it.
use paid_server.Base.{
  ℕ, zero, suc, ◌+◌, ◌-◌, ◌*◌, ◌/◌, ◌%◌, ◌^◌, ◌<◌, ◌≡◌, refl, ap, ◌∙◌, Text, text, Bool, true,
  false, [], ◌∷◌, Option, none, some, All, arith, ltb, leb, ◌==◌, ◌&&◌, Bool-cases, inl, inr,
  ==_iff, if◌then◌else◌,
}

abbrev table : Text
table = text "ABCDEFGHIJKLMNOPQRSTUVWXYZabcdefghijklmnopqrstuvwxyz0123456789+/"

-- table[i]; the index is always below 64.
abbrev at_index : Text → ℕ → ℕ
at_index [] i = 0
at_index (c ∷ cs) zero = c
at_index (c ∷ cs) (suc i) = at_index cs i

unfoldable pub symbol : ℕ → ℕ
unfolding text
symbol i = at_index table i

-- triple: the bytes b0, b1 and b2 side by side.
abbrev pub triple : ℕ → ℕ → ℕ → ℕ
triple b0 b1 b2 = b0 * 2 ^ 16 + b1 * 2 ^ 8 + b2

-- The loop over the bytes, three at a time.
unfoldable pub base64_encode : Text → Text
base64_encode [] = []
base64_encode (b0 ∷ []) =
    symbol (triple b0 0 0 / 2 ^ 18 % 64) ∷ symbol (triple b0 0 0 / 2 ^ 12 % 64) ∷ b'=' ∷ b'=' ∷ []
base64_encode (b0 ∷ b1 ∷ []) =
    symbol (triple b0 b1 0 / 2 ^ 18 % 64)
    ∷ symbol (triple b0 b1 0 / 2 ^ 12 % 64)
    ∷ symbol (triple b0 b1 0 / 2 ^ 6 % 64)
    ∷ b'='
    ∷ []
base64_encode (b0 ∷ b1 ∷ b2 ∷ s) =
    symbol (triple b0 b1 b2 / 2 ^ 18 % 64)
    ∷ symbol (triple b0 b1 b2 / 2 ^ 12 % 64)
    ∷ symbol (triple b0 b1 b2 / 2 ^ 6 % 64)
    ∷ symbol (triple b0 b1 b2 % 64)
    ∷ base64_encode s

-- The six bits that a symbol stands for; 64 for any other byte.
unfoldable pub value_of : ℕ → ℕ
value_of c =
    if leb b'A' c && leb c b'Z'
    then c - b'A'
    else if leb b'a' c && leb c b'z'
    then 26 + (c - b'a')
    else if leb b'0' c && leb c b'9'
    then 52 + (c - b'0')
    else if c == b'+'
    then 62
    else if c == b'/'
    then 63
    else 64

abbrev two : ℕ → ℕ → ℕ
two x y = x * 4 + y / 16

abbrev three : ℕ → ℕ → ℕ
three y z = y % 16 * 16 + z / 4

abbrev four : ℕ → ℕ → ℕ
four z w = z % 4 * 64 + w

abbrev onto_bytes : ℕ → ℕ → ℕ → ℕ → Option Text → Option Text
onto_bytes x y z w none = none
onto_bytes x y z w (some s) = some (two x y ∷ three y z ∷ four z w ∷ s)

abbrev last_group : ℕ → ℕ → ℕ → ℕ → Option Text
last_group x y z w = if ltb z 64 then some (two x y ∷ three y z ∷ []) else some (two x y ∷ [])

-- Groups of four symbols; the last may end with one or two equals signs.
unfoldable pub base64_decode : Text → Option Text
base64_decode [] = some []
base64_decode (p ∷ q ∷ r ∷ t ∷ s) =
    let rest = base64_decode s in
    if t == b'='
    then last_group (value_of p) (value_of q) (value_of r) (value_of t)
    else onto_bytes (value_of p) (value_of q) (value_of r) (value_of t) rest
base64_decode s = none

abbrev all_below : (ℕ → Bool) → ℕ → Bool
all_below p zero = true
all_below p (suc n) = p n && all_below p n

all_below-true : (p : ℕ → Bool) (n i : ℕ) → all_below p n ≡ true → i < n → p i ≡ true
all_below-true p zero i h b = absurd (omega (arith, b))
all_below-true p (suc n) i h b = ground (arith, all_below-true p n i)

every_symbol : all_below (λ i. value_of (symbol i) == i) 64 ≡ true
unfolding symbol value_of text
every_symbol = refl

value_of-symbol : (i : ℕ) → i < 64 → value_of (symbol i) ≡ i
value_of-symbol i b =
    ground (arith, all_below-true (λ i. value_of (symbol i) == i) 64 i every_symbol b)

symbol-not-pad : (i : ℕ) → i < 64 → (symbol i == b'=') ≡ false
unfolding value_of
symbol-not-pad i b = elim (Bool-cases (symbol i == b'=')) [
  | inl e ↦ absurd (omega (arith, b, value_of-symbol i b, pad_value e))
  | inr e ↦ e
]
  where
    pad_value : (symbol i == b'=') ≡ true → value_of (symbol i) ≡ 64
    pad_value e = ap value_of ((==_iff (symbol i) b'=').0 e)

abbrev pub IsByte : ℕ → Type 0
IsByte b = b < 256

abbrev i0 : ℕ → ℕ → ℕ → ℕ
i0 b0 b1 b2 = triple b0 b1 b2 / 2 ^ 18 % 64

abbrev i1 : ℕ → ℕ → ℕ → ℕ
i1 b0 b1 b2 = triple b0 b1 b2 / 2 ^ 12 % 64

abbrev i2 : ℕ → ℕ → ℕ → ℕ
i2 b0 b1 b2 = triple b0 b1 b2 / 2 ^ 6 % 64

abbrev i3 : ℕ → ℕ → ℕ → ℕ
i3 b0 b1 b2 = triple b0 b1 b2 % 64

module _ (b0 b1 b2 : ℕ) (h0 : IsByte b0) (h1 : IsByte b1) (h2 : IsByte b2) where
  abbrev t0 : ℕ
  t0 = i0 b0 b1 b2

  abbrev t1 : ℕ
  t1 = i1 b0 b1 b2

  abbrev t2 : ℕ
  t2 = i2 b0 b1 b2

  abbrev t3 : ℕ
  t3 = i3 b0 b1 b2

  first_byte : two t0 t1 ≡ b0
  first_byte = omega (arith, h0, h1, h2)

  second_byte : three t1 t2 ≡ b1
  second_byte = omega (arith, h0, h1, h2)

  third_byte : four t2 t3 ≡ b2
  third_byte = omega (arith, h0, h1, h2)

  group :
      (s : Text)
      → base64_decode (symbol t0 ∷ symbol t1 ∷ symbol t2 ∷ symbol t3 ∷ s)
        ≡ onto_bytes t0 t1 t2 t3 (base64_decode s)
  unfolding base64_decode
  group s =
      rw
        (
          symbol-not-pad t3 (omega arith),
          value_of-symbol t0 (omega arith),
          value_of-symbol t1 (omega arith),
          value_of-symbol t2 (omega arith),
          value_of-symbol t3 (omega arith),
        )
        refl

decode_nil : base64_decode [] ≡ some []
unfolding base64_decode
decode_nil = refl

last_one :
    (b0 : ℕ)
    → IsByte b0
    → base64_decode (symbol (i0 b0 0 0) ∷ symbol (i1 b0 0 0) ∷ b'=' ∷ b'=' ∷ []) ≡ some (b0 ∷ [])
unfolding base64_decode value_of
last_one b0 h0 =
    rw (value_of-symbol (i0 b0 0 0) (omega arith), value_of-symbol (i1 b0 0 0) (omega arith))
      (ap (λ b. some (b ∷ [])) (first_byte b0 0 0 h0 (omega arith) (omega arith)))

last_two :
    (b0 b1 : ℕ)
    → IsByte b0
    → IsByte b1
    → base64_decode (symbol (i0 b0 b1 0) ∷ symbol (i1 b0 b1 0) ∷ symbol (i2 b0 b1 0) ∷ b'=' ∷ [])
      ≡ some (b0 ∷ b1 ∷ [])
unfolding base64_decode value_of
last_two b0 b1 h0 h1 =
    rw
      (
        value_of-symbol (i0 b0 b1 0) (omega arith),
        value_of-symbol (i1 b0 b1 0) (omega arith),
        value_of-symbol (i2 b0 b1 0) (omega arith),
        first_byte b0 b1 0 h0 h1 (omega arith),
        second_byte b0 b1 0 h0 h1 (omega arith),
      )
      (short (i2 b0 b1 0) (omega arith))
  where
    short :
        (z : ℕ)
        → z < 64
        → (if ltb z 64 then some (b0 ∷ b1 ∷ []) else some (b0 ∷ [])) ≡ some (b0 ∷ b1 ∷ [])
    short z b = ground (arith, b)

pub base64_decode-base64_encode :
    (s : Text) → All IsByte s → base64_decode (base64_encode s) ≡ some s
unfolding base64_encode
base64_decode-base64_encode [] h = decode_nil
base64_decode-base64_encode (b0 ∷ []) (h0, _) = last_one b0 h0
base64_decode-base64_encode (b0 ∷ b1 ∷ []) (h0, (h1, _)) = last_two b0 b1 h0 h1
base64_decode-base64_encode (b0 ∷ b1 ∷ b2 ∷ s) (h0, (h1, (h2, h))) =
    group b0 b1 b2 h0 h1 h2 (base64_encode s)
    ∙ rw
        (
          base64_decode-base64_encode s h,
          first_byte b0 b1 b2 h0 h1 h2,
          second_byte b0 b1 b2 h0 h1 h2,
          third_byte b0 b1 b2 h0 h1 h2,
        )
        refl
