-- ===== src/Http/Returned.antt =====
-- The response that the backend writes (writeHttpResponse of backend/main.cpp), read by the gateway
-- (readHttpResponse of gateway/common/http_forwarder.hpp).
use paid_server.Base.{
  ℕ, zero, suc, ◌+◌, ◌/◌, ◌%◌, ◌^◌, ◌<◌, ◌≡◌, refl, sym, ap, ◌∙◌, Text, text, same, List, [], ◌∷◌,
  ◌++◌, some, ◌==◌, if◌then◌else◌, All, arith, Bool-cases, inl, inr, length,
}
use mathlib.Core.List.{append_assoc, append-nil, reverse, reverse-reverse}
use paid_server.Database.Monad.{Result, ok}
use paid_server.Results.{◌>>=◌}
use paid_server.Strings.{Headers, cut, to_string, drop_spaces, drop_blank}
use paid_server.Interfaces.{pos}
use paid_server.Strings.{digits_from}
use paid_server.Settings.Numbers.{digits, more_digits, skip_spaces}
use paid_server.Settings.Bounds.{digits-digits_from}
use paid_server.Settings.Keys.{IsTrim, drop_blank-shorter}
use paid_server.Http.{pop_cr, word}
use paid_server.Http.Lines.{pop_cr-end, pop_cr-IsLine}
use paid_server.Http.Stored.{
  IsHeader, header_text, header_texts, got_rest, cut-without, >>=-congruent, IsNoLength,
}
use paid_server.Http.Response.{
  status_of, strip_spaces, add_field, response_line, response_headers, extract_int,
}

drop_spaces-blank : (s : Text) → drop_blank s ≡ s → drop_spaces s ≡ s
unfolding drop_spaces drop_blank
drop_spaces-blank [] e = refl
drop_spaces-blank (c ∷ s) e = elim (Bool-cases (c == b' ')) [
  | inl q ↦ absurd (ground (arith, q, ap length e, drop_blank-shorter s))
  | inr q ↦ rw q refl
]

strip_spaces-IsTrim : (s : Text) → IsTrim s → strip_spaces s ≡ s
unfolding strip_spaces
strip_spaces-IsTrim s h =
    rw (drop_spaces-blank s h.front, drop_spaces-blank (reverse s) h.back) (reverse-reverse s)

strip_spaces-space : (s : Text) → IsTrim s → strip_spaces (b' ' ∷ s) ≡ s
unfolding strip_spaces drop_spaces
strip_spaces-space s h = strip_spaces-IsTrim s h

-- The headers as they are added, one after another.
abbrev pub collected : Headers → ℕ × Headers → Result (ℕ × Headers)
collected [] st = ok st
collected ((k, v) ∷ hs) st = add_field k v st >>= collected hs

response_line-IsHeader :
    (k v : Text) (st : ℕ × Headers)
    → IsHeader (k, v)
    → response_line (cut b':' (header_text (k, v))) st ≡ add_field k v st
unfolding response_line
response_line-IsHeader k v st (i, colon, tk, tv) =
    rw (cut-without b':' k (b' ' ∷ v) colon, strip_spaces-IsTrim k tk, strip_spaces-space v tv) refl

response_headers-line :
    (x l : Text) (ls : List Text) (st : ℕ × Headers)
    → pop_cr x ≡ l
    → response_headers (x ∷ ls) st ≡ (response_line (cut b':' l) st >>= response_headers ls)
unfolding response_headers
response_headers-line x l ls st e = rw e refl

pub response_headers-collected :
    (hs : Headers) (st : ℕ × Headers)
    → All IsHeader hs
    → response_headers (got_rest (header_texts hs)) st ≡ collected hs st
unfolding response_headers
response_headers-collected [] st h = refl
response_headers-collected ((k, v) ∷ []) st (i, h) =
    response_headers-line _ (header_text (k, v)) [] st (pop_cr-IsLine _ i.0.0)
    ∙ rw (response_line-IsHeader k v st i) (>>=-congruent (add_field k v st) _ _ (λ s. refl))
response_headers-collected ((k, v) ∷ h₂ ∷ hs) st (i, h) =
    response_headers-line _ (header_text (k, v)) _ st (pop_cr-end (header_text (k, v)))
    ∙ rw (response_line-IsHeader k v st i)
        (>>=-congruent (add_field k v st) _ _ (λ s. response_headers-collected (h₂ ∷ hs) s h))

-- The headers that readHttpResponse keeps.
abbrev pub cookies : Headers → Headers
cookies [] = []
cookies ((k, v) ∷ hs) = if same k (text "Set-Cookie") then (k, v) ∷ cookies hs else cookies hs

pub collected-append :
    (hs ts acc : Headers) (n : ℕ)
    → All IsNoLength hs
    → collected (hs ++ ts) (n, acc) ≡ collected ts (n, acc ++ cookies hs)
collected-append [] ts acc n h = ap (λ a. collected ts (n, a)) (sym (append-nil acc))
collected-append ((k, v) ∷ hs) ts acc n (e, h) = elim (Bool-cases (same k (text "Set-Cookie"))) [
  | inl c ↦
      rw (e, c)
        (collected-append hs ts (acc ++ (k, v) ∷ []) n h
          ∙ ap (λ a. collected ts (n, a)) (append_assoc acc ((k, v) ∷ []) (cookies hs)))
  | inr c ↦ rw (e, c) (collected-append hs ts acc n h)
]

digits_from-append :
    (fuel n : ℕ) (acc t : Text) → digits_from fuel n acc ++ t ≡ digits_from fuel n (acc ++ t)
unfolding digits_from
digits_from-append zero n acc t = refl
digits_from-append (suc fuel) n acc t =
    ground (arith, digits_from-append fuel (n / 10) ((b'0' + n % 10) ∷ acc) t)

extract_int-digits :
    (s : Text) {n : ℕ} {r : Text}
    → digits s ≡ some (n, r)
    → n < 2 ^ 31
    → extract_int (pos 500) (skip_spaces s) ≡ pos n
unfolding digits skip_spaces
extract_int-digits [] e h = cc
extract_int-digits (c ∷ s) e h = ground arith

pub status_of-line :
    (n : ℕ) → n < 2 ^ 31 → status_of (text "HTTP/1.1 " ++ (to_string n ++ text " OK")) ≡ pos n
unfolding status_of text word skip_spaces to_string more_digits
status_of-line n h =
    extract_int-digits (to_string n ++ text " OK")
      (ap digits (digits_from-append (suc n) n [] (text " OK"))
        ∙ digits-digits_from (suc n) n (text " OK") (omega arith))
      h
