-- ===== src/Http/Target.antt =====
-- The request line of gateway/common/http_forwarder.hpp, taken apart as in readHttpRequest of
-- backend/main.cpp.
use paid_server.Base.{
  ℕ, ◌≡◌, ◌≢◌, ◌⊎◌, refl, ap, ◌∙◌, Text, text, empty, true, false, List, [], ◌∷◌, ◌++◌, none, some,
  All, arith, Bool-cases, inl, inr,
}
use mathlib.Core.List.{append_assoc}
use paid_server.Base.Map.{text_eq}
use paid_server.Strings.{cut}
use paid_server.Settings.Numbers.{is_space, skip_spaces}
use paid_server.Gateway.Forwarder.{ForwardRequest, build_target}
use paid_server.Http.{word, request_words, with_target}
use paid_server.Http.Lines.{IsLineByte, IsLine}

-- Bytes without a blank.
abbrev pub IsWord : Text → Type 0
IsWord s = All (λ c. is_space c ≡ false) s

word-append : (m r : Text) → IsWord m → word (m ++ b' ' ∷ r) ≡ (m, b' ' ∷ r)
unfolding word
word-append [] r h = refl
word-append (c ∷ m) r (e, h) = rw (e, word-append m r h) refl

skip_spaces-word : (m r : Text) → IsWord m → empty m ≡ false → skip_spaces (m ++ r) ≡ m ++ r
unfolding skip_spaces
skip_spaces-word [] r h f = cc
skip_spaces-word (c ∷ m) r (e, h) f = rw e refl

pub request_words-line :
    (m t r : Text)
    → IsWord m
    → empty m ≡ false
    → IsWord t
    → empty t ≡ false
    → request_words (m ++ b' ' ∷ (t ++ b' ' ∷ r)) ≡ (m, t)
unfolding request_words skip_spaces
request_words-line m t r hm fm ht ft =
    ap (λ l. with_target (word l)) (skip_spaces-word m (b' ' ∷ (t ++ b' ' ∷ r)) hm fm)
    ∙ ap with_target (word-append m (t ++ b' ' ∷ r) hm)
    ∙ ap (λ l. (m, (word l).0)) (skip_spaces-word t (b' ' ∷ r) ht ft)
    ∙ ap (λ w. (m, w.0)) (word-append t r ht)

pub cut-none : (c : ℕ) (s : Text) → All (λ d. d ≢ c) s → cut c s ≡ (s, none)
unfolding cut
cut-none c [] h = refl
cut-none c (d ∷ s) (n, h) = ground (arith, n, cut-none c s h)

pub cut-mark : (c : ℕ) (s r : Text) → All (λ d. d ≢ c) s → cut c (s ++ c ∷ r) ≡ (s, some r)
unfolding cut
cut-mark c [] r h = ground arith
cut-mark c (d ∷ s) r (n, h) = ground (arith, n, cut-mark c s r h)

pub append-All : {A : Type 0} (P : A → Type 0) (s t : List A) → All P s → All P t → All P (s ++ t)
append-All P [] t h k = k
append-All P (c ∷ s) t (p, h) k = (p, append-All P s t h k)

pub word-IsLine : (s : Text) → IsWord s → All IsLineByte s
word-IsLine [] h = tt
word-IsLine (c ∷ s) (e, h) =
    (((λ x. ground (arith, e, x)), (λ x. ground (arith, e, x))), word-IsLine s h)

pub empty→nil : (s : Text) → empty s ≡ true → s ≡ []
empty→nil [] e = refl
empty→nil (c ∷ s) e = cc

target_cases :
    (request : ForwardRequest)
    → ((request.query ≡ []) × (build_target request ≡ request.path))
      ⊎ (build_target request ≡ request.path ++ b'?' ∷ request.query)
unfolding build_target text
target_cases request = elim (Bool-cases (empty request.query)) [
  | inl e ↦ inl (empty→nil request.query e, rw e refl)
  | inr e ↦ inr (rw e (append_assoc request.path (b'?' ∷ []) request.query))
]

append_full : (s t : Text) → empty s ≡ false → empty (s ++ t) ≡ false
append_full [] t f = cc
append_full (c ∷ s) t f = refl

-- What the parser makes of the target.
pub target_parts :
    (request : ForwardRequest)
    → IsWord request.path
    → empty request.path ≡ false
    → All (λ c. c ≢ b'?') request.path
    → IsWord request.query
    → IsWord (build_target request)
      × (empty (build_target request) ≡ false)
      × (cut b'?' (build_target request) ≡ (request.path, none) × (request.query ≡ [])
          ⊎ cut b'?' (build_target request) ≡ (request.path, some request.query))
target_parts request p f n q = elim (target_cases request) [
  | inl (e, h) ↦ rw h (p, f, inl (cut-none b'?' request.path n, e))
  | inr h ↦ rw h (
    append-All _ request.path (b'?' ∷ request.query) p (refl, q),
    append_full request.path (b'?' ∷ request.query) f,
    inr (cut-mark b'?' request.path request.query n),
  )
]

pub target-IsLine :
    (m t : Text)
    → IsWord m
    → empty m ≡ false
    → IsWord t
    → IsLine (m ++ b' ' ∷ (t ++ b' ' ∷ text "HTTP/1.1"))
unfolding text
target-IsLine m t hm fm ht = (
  append-All IsLineByte m _ (word-IsLine m hm)
      (ground arith, append-All IsLineByte t _ (word-IsLine t ht) (ground arith)),
  append_full m _ fm,
)
