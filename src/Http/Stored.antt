-- ===== src/Http/Stored.antt =====
-- What readHttpRequest of backend/main.cpp and gateway/main.cpp makes of the lines of the header,
-- when they are `key: value`.
use paid_server.Base.{
  ℕ, suc, ◌^◌, ◌<◌, ◌≡◌, ◌≢◌, refl, ◌∙◌, Text, text, same, empty, false, List, [], ◌∷◌, ◌++◌, some,
  All, arith,
}
use paid_server.Database.Monad.{Result, ok, throws}
use paid_server.Results.{◌>>=◌}
use paid_server.Strings.{Headers, trim, drop_blank, cut, to_string}
use paid_server.Settings.Keys.{IsTrim, trim-IsTrim}
use paid_server.Settings.Numbers.{digits, skip_spaces, more_digits}
use paid_server.Settings.Bounds.{digits-digits_from}
use paid_server.Http.{pop_cr, header_line, add_header, read_headers, insert}
use paid_server.Http.Numbers.{stoul}
use paid_server.Http.Lines.{IsLine, got, pop_cr-end, pop_cr-IsLine}

abbrev pub header_text : Text × Text → Text
header_text (k, v) = k ++ b':' ∷ b' ' ∷ v

abbrev pub IsHeader : Text × Text → Type 0
IsHeader (k, v) = IsLine (header_text (k, v)) × All (λ c. c ≢ b':') k × IsTrim k × IsTrim v

abbrev pub header_texts : Headers → List Text
header_texts [] = []
header_texts (h ∷ hs) = header_text h ∷ header_texts hs

-- The headers and the length of the body, as they are added one after another.
abbrev pub stored : Headers → Headers × ℕ → Result (Headers × ℕ)
stored [] st = ok st
stored ((k, v) ∷ hs) (m, n) = add_header k v m n >>= stored hs

abbrev pub inserted : Headers → Headers → Headers
inserted [] m = m
inserted ((k, v) ∷ hs) m = inserted hs (insert k v m)

pub cut-without : (c : ℕ) (k r : Text) → All (λ d. d ≢ c) k → cut c (k ++ c ∷ r) ≡ (k, some r)
unfolding cut
cut-without c [] r h = ground arith
cut-without c (d ∷ k) r (n, h) = ground (arith, n, cut-without c k r h)

pub trim-space : (v : Text) → trim (b' ' ∷ v) ≡ trim v
unfolding trim drop_blank
trim-space v = refl

header_line-IsHeader :
    (k v : Text) (m : Headers) (n : ℕ)
    → IsHeader (k, v)
    → header_line (cut b':' (header_text (k, v))) (m, n) ≡ add_header k v m n
unfolding header_line
header_line-IsHeader k v m n (i, colon, tk, tv) =
    rw (cut-without b':' k (b' ' ∷ v) colon, trim-IsTrim k tk, trim-space v, trim-IsTrim v tv) refl

-- The lines of the header, as std::getline gives them behind the first line l.
abbrev pub got_rest : List Text → List Text
got_rest [] = []
got_rest (l ∷ ls) = got l ls

read_headers-line :
    (x l : Text) (ls : List Text) (st : Headers × ℕ)
    → pop_cr x ≡ l
    → empty l ≡ false
    → read_headers (x ∷ ls) st ≡ (header_line (cut b':' l) st >>= read_headers ls)
unfolding read_headers
read_headers-line x l ls st e f = rw (e, f) refl

pub >>=-congruent :
    {A B : Type 0} (r : Result A) (f g : A → Result B)
    → ((a : A) → f a ≡ g a)
    → (r >>= f) ≡ (r >>= g)
>>=-congruent (throws e) f g h = refl
>>=-congruent (ok a) f g h = h a

pub read_headers-stored :
    (hs : Headers) (st : Headers × ℕ)
    → All IsHeader hs
    → read_headers (got_rest (header_texts hs)) st ≡ stored hs st
unfolding read_headers
read_headers-stored [] st h = refl
read_headers-stored ((k, v) ∷ []) (m, n) (i, h) =
    read_headers-line _ (header_text (k, v)) [] (m, n) (pop_cr-IsLine _ i.0.0) i.0.1
    ∙ rw (header_line-IsHeader k v m n i) (>>=-congruent (add_header k v m n) _ _ (λ s. refl))
read_headers-stored ((k, v) ∷ h₂ ∷ hs) (m, n) (i, h) =
    read_headers-line _ (header_text (k, v)) _ (m, n) (pop_cr-end (header_text (k, v))) i.0.1
    ∙ rw (header_line-IsHeader k v m n i)
        (>>=-congruent (add_header k v m n) _ _ (λ s. read_headers-stored (h₂ ∷ hs) s h))

-- A header that does not give the length of the body.
abbrev pub IsNoLength : Text × Text → Type 0
IsNoLength h = same h.0 (text "Content-Length") ≡ false

pub stored-append :
    (hs ts m : Headers) (n : ℕ)
    → All IsNoLength hs
    → stored (hs ++ ts) (m, n) ≡ stored ts (inserted hs m, n)
stored-append [] ts m n h = refl
stored-append ((k, v) ∷ hs) ts m n (e, h) = rw e (stored-append hs ts (insert k v m) n h)

unsigned-digits :
    (s : Text) {n : ℕ} {rest : Text} → digits s ≡ some (n, rest) → n < 2 ^ 64 → stoul s ≡ ok n
unfolding stoul digits skip_spaces
unsigned-digits [] e h = cc
unsigned-digits (c ∷ s) e h = ground arith

pub stoul-to_string : (n : ℕ) → n < 2 ^ 64 → stoul (to_string n) ≡ ok n
unfolding to_string more_digits
stoul-to_string n h =
    unsigned-digits (to_string n) (digits-digits_from (suc n) n [] (omega arith)) h
