-- ===== src/Http/Decide.antt =====
-- Tests of the shapes of HTTP text, for readHttpRequest of backend/main.cpp.
use paid_server.Base.{
  ℕ, ◌≡◌, ◌≢◌, Text, same, same_iff, empty, Bool, true, false, List, [], ◌∷◌, ◌==◌, ◌&&◌, not, All,
  arith, Bool-cases, inl, inr,
}
use mathlib.Core.List.{reverse}
use paid_server.Base.Map.{text_eq}
use paid_server.Strings.{drop_blank, Headers}
use paid_server.Settings.Numbers.{is_space}
use paid_server.Settings.Keys.{IsTrim}
use paid_server.Http.Lines.{IsLineByte}
use paid_server.Http.Stored.{IsHeader, header_text}
use paid_server.Http.Target.{IsWord}

unfoldable pub all_of : {A : Type 0} → (A → Bool) → List A → Bool
all_of p [] = true
all_of p (x ∷ xs) = p x && all_of p xs

pub all_of-All :
    {A : Type 0} (p : A → Bool) (P : A → Type 0) (xs : List A)
    → ((x : A) → p x ≡ true → P x)
    → all_of p xs ≡ true
    → All P xs
unfolding all_of
all_of-All p P [] h e = tt
all_of-All p P (x ∷ xs) h e = elim (Bool-cases (p x)) [
  | inl q ↦ (h x q, all_of-All p P xs h (rw q at e))
  | inr q ↦ absurd (ground (arith, e, q))
]

unfoldable pub line_byte : ℕ → Bool
line_byte c = not (c == 13) && not (c == 10)

line_byte-IsLineByte : (c : ℕ) → line_byte c ≡ true → IsLineByte c
unfolding line_byte
line_byte-IsLineByte c e = ((λ h. ground (arith, e, h)), (λ h. ground (arith, e, h)))

pub lines_ok : (s : Text) → all_of line_byte s ≡ true → All IsLineByte s
lines_ok s e = all_of-All line_byte IsLineByte s line_byte-IsLineByte e

unfoldable pub other_than : ℕ → ℕ → Bool
other_than c d = not (d == c)

pub others_ok : (c : ℕ) (s : Text) → all_of (other_than c) s ≡ true → All (λ d. d ≢ c) s
unfolding other_than
others_ok c s e = all_of-All (other_than c) (λ d. d ≢ c) s (λ d q h. ground (arith, q, h)) e

pub words_ok : (s : Text) → all_of (λ c. not (is_space c)) s ≡ true → IsWord s
words_ok s e =
    all_of-All (λ c. not (is_space c)) (λ c. is_space c ≡ false) s (λ c q. ground (arith, q)) e

unfoldable pub trim_ok : Text → Bool
trim_ok s = same (drop_blank s) s && same (drop_blank (reverse s)) (reverse s)

unfoldable pub header_ok : Text × Text → Bool
header_ok (k, v) =
    (all_of line_byte (header_text (k, v)) && not (empty (header_text (k, v))))
    && (all_of (other_than b':') k && (trim_ok k && trim_ok v))

both : (a b : Bool) → (a && b) ≡ true → (a ≡ true) × (b ≡ true)
both a b e = (ground (arith, e), ground (arith, e))

not-true : (b : Bool) → not b ≡ true → b ≡ false
not-true b e = ground (arith, e)

trim_ok-IsTrim : (s : Text) → trim_ok s ≡ true → IsTrim s
unfolding trim_ok
trim_ok-IsTrim s e =
    let (f, b) = both (same (drop_blank s) s) _ e in
    record { front = (same_iff _ _).0 f; back = (same_iff _ _).0 b }

pub header_ok-IsHeader : (h : Text × Text) → header_ok h ≡ true → IsHeader h
unfolding header_ok
header_ok-IsHeader (k, v) e =
    let (l, r) =
      both (all_of line_byte (header_text (k, v)) && not (empty (header_text (k, v)))) _ e in
    let (b, f) = both (all_of line_byte (header_text (k, v))) _ l in
    let (c, t) = both (all_of (other_than b':') k) _ r in
    let (x, y) = both (trim_ok k) (trim_ok v) t in
    ((lines_ok _ b, not-true _ f), others_ok b':' k c, trim_ok-IsTrim k x, trim_ok-IsTrim v y)

pub headers_ok : (hs : Headers) → all_of header_ok hs ≡ true → All IsHeader hs
headers_ok hs e = all_of-All header_ok IsHeader hs header_ok-IsHeader e
