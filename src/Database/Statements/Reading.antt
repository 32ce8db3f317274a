-- ===== src/Database/Statements/Reading.antt =====
-- What the server reads of a statement of MySqlPool (backend/common/mysql_pool.hpp), part by part.
use mathlib.Core.Path.{ap₂}
use mathlib.Core.List.{append_assoc}
use paid_server.Base.{
  ℕ, ◌≡◌, refl, sym, ap, ◌∙◌, Text, true, List, [], ◌∷◌, ◌++◌, map, All, ◌==◌, ◌&&◌, arith,
  Bool-cases, inl, inr,
}
use paid_server.Strings.{to_string}
use paid_server.Strings.Digits.{IsDigit, to_string-IsDigit}
use paid_server.Database.Statements.{raw, escaped, number, Statement, render}
use paid_server.Database.Statements.Tokens.{
  Token, byte, literal, broken, Mode, outside, inside, backslash, ended, step, finish, emits, ends,
  tokens, values, shape, IsEscape, with_value, reading, is_inside, is_outside, is_over, is_placed,
  literals, blanked,
}

tokens-append : (m : Mode) (s t : Text) → tokens m (s ++ t) ≡ emits m s ++ tokens (ends m s) t
unfolding tokens
tokens-append m [] t = refl
tokens-append m (c ∷ s) t =
    append_assoc (step m c).0 (emits (step m c).1 (s ++ t)) (finish (ends (step m c).1 (s ++ t)))
    ∙ ap (λ r. (step m c).0 ++ r) (tokens-append (step m c).1 s t)
    ∙ sym (append_assoc (step m c).0 (emits (step m c).1 s) (tokens (ends (step m c).1 s) t))

digits-emits :
    (s : Text) → All IsDigit s → (emits outside s ≡ map byte s) × (ends outside s ≡ outside)
unfolding emits ends step
digits-emits [] h = (refl, refl)
digits-emits (c ∷ s) (d, h) = ground (arith, d, digits-emits s h)

tokens-nil : (m : Mode) → tokens m [] ≡ finish m
unfolding tokens
tokens-nil m = refl

tokens-digits :
    (s t : Text) → All IsDigit s → tokens outside (s ++ t) ≡ map byte s ++ tokens outside t
tokens-digits s t h =
    let (e, f) = digits-emits s h in tokens-append outside s t ∙ ap₂ (λ a m. a ++ tokens m t) e f

-- The server reads each value where its part stands.
pub tokens-render :
    (escape : Text → Text) (m : Mode) (ps : Statement)
    → IsEscape escape
    → is_placed m ps ≡ true
    → tokens m (render escape ps) ≡ reading m ps
unfolding render reading is_placed
tokens-render escape m [] safe p = tokens-nil m
tokens-render escape m (raw t ∷ ps) safe p =
    tokens-append m t (render escape ps)
    ∙ ap (λ r. emits m t ++ r) (tokens-render escape (ends m t) ps safe p)
tokens-render escape (inside w) (escaped v ∷ ps) safe p =
    safe w v (render escape ps) ∙ tokens-render escape (inside (w ++ v)) ps safe p
tokens-render escape outside (escaped v ∷ ps) safe p = cc
tokens-render escape (backslash w) (escaped v ∷ ps) safe p = cc
tokens-render escape (ended w) (escaped v ∷ ps) safe p = cc
tokens-render escape outside (number n ∷ ps) safe p =
    tokens-digits (to_string n) (render escape ps) (to_string-IsDigit n)
    ∙ ap (λ r. map byte (to_string n) ++ r) (tokens-render escape outside ps safe p)
tokens-render escape (inside w) (number v ∷ ps) safe p = cc
tokens-render escape (backslash w) (number v ∷ ps) safe p = cc
tokens-render escape (ended w) (number v ∷ ps) safe p = cc

values-append : (s t : List Token) → values (s ++ t) ≡ values s ++ values t
values-append [] t = refl
values-append (byte c ∷ s) t = values-append s t
values-append (literal v ∷ s) t = ap (λ r. v ∷ r) (values-append s t)
values-append (broken ∷ s) t = values-append s t

shape-append : (s t : List Token) → shape (s ++ t) ≡ shape s ++ shape t
shape-append [] t = refl
shape-append (byte c ∷ s) t = ap (λ r. byte c ∷ r) (shape-append s t)
shape-append (literal v ∷ s) t = ap (λ r. literal [] ∷ r) (shape-append s t)
shape-append (broken ∷ s) t = ap (λ r. broken ∷ r) (shape-append s t)

values-bytes : (s : Text) → values (map byte s) ≡ []
values-bytes [] = refl
values-bytes (c ∷ s) = values-bytes s

pub values-reading : (m : Mode) (ps : Statement) → values (reading m ps) ≡ literals m ps
unfolding reading literals
values-reading m [] = refl
values-reading m (raw t ∷ ps) =
    values-append (emits m t) (reading (ends m t) ps)
    ∙ ap (λ r. values (emits m t) ++ r) (values-reading (ends m t) ps)
values-reading m (escaped v ∷ ps) = values-reading (with_value m v) ps
values-reading m (number n ∷ ps) =
    values-append (map byte (to_string n)) (reading m ps)
    ∙ ap₂ (λ a b. a ++ b) (values-bytes (to_string n)) (values-reading m ps)

-- Two readers at the same place, in literals of any values.
pub data IsAligned : Mode → Mode → Type 0 where
  both_outside : IsAligned outside outside
  both_inside : (v w : Text) → IsAligned (inside v) (inside w)
  both_backslash : (v w : Text) → IsAligned (backslash v) (backslash w)
  both_ended : (v w : Text) → IsAligned (ended v) (ended w)

step-IsAligned :
    (m n : Mode) (c : ℕ)
    → IsAligned m n
    → (shape (step m c).0 ≡ shape (step n c).0) × IsAligned (step m c).1 (step n c).1
unfolding step
step-IsAligned m n c both_outside = elim (Bool-cases (c == b'\'')) [
  | inl e ↦ rw e (refl, both_inside [] [])
  | inr e ↦ rw e (refl, both_outside)
]
step-IsAligned m n c (both_inside v w) = elim (Bool-cases (c == b'\'')) [
  | inl e ↦ rw e (refl, both_ended v w)
  | inr e ↦ elim (Bool-cases (c == b'\\')) [
    | inl f ↦ rw (e, f) (refl, both_backslash v w)
    | inr f ↦ rw (e, f) (refl, both_inside (v ++ c ∷ []) (w ++ c ∷ []))
  ]
]
step-IsAligned m n c (both_backslash v w) = (refl, both_inside _ _)
step-IsAligned m n c (both_ended v w) = elim (Bool-cases (c == b'\'')) [
  | inl e ↦ rw e (refl, both_inside (v ++ c ∷ []) (w ++ c ∷ []))
  | inr e ↦ rw e (refl, both_outside)
]

emits-IsAligned :
    (m n : Mode) (t : Text)
    → IsAligned m n
    → (shape (emits m t) ≡ shape (emits n t)) × IsAligned (ends m t) (ends n t)
unfolding emits ends
emits-IsAligned m n [] h = (refl, h)
emits-IsAligned m n (c ∷ t) h =
    let (e, k) = step-IsAligned m n c h in
    let (f, l) = emits-IsAligned (step m c).1 (step n c).1 t k in
    (
      shape-append (step m c).0 (emits (step m c).1 t)
          ∙ ap₂ (λ a b. a ++ b) e f
          ∙ sym (shape-append (step n c).0 (emits (step n c).1 t)),
      l,
    )

with_value-IsAligned :
    (m n : Mode) (v : Text) → IsAligned m n → IsAligned (with_value m v) (with_value n [])
with_value-IsAligned m n v both_outside = both_outside
with_value-IsAligned m n v (both_inside u w) = both_inside (u ++ v) (w ++ [])
with_value-IsAligned m n v (both_backslash u w) = both_backslash u w
with_value-IsAligned m n v (both_ended u w) = both_ended u w

finish-IsAligned : (m n : Mode) → IsAligned m n → shape (finish m) ≡ shape (finish n)
finish-IsAligned m n both_outside = refl
finish-IsAligned m n (both_inside v w) = refl
finish-IsAligned m n (both_backslash v w) = refl
finish-IsAligned m n (both_ended v w) = refl

-- What is outside of the literals does not depend on the values.
pub shape-reading :
    (m n : Mode) (ps : Statement)
    → IsAligned m n
    → shape (reading m ps) ≡ shape (reading n (blanked ps))
unfolding reading
shape-reading m n [] h = finish-IsAligned m n h
shape-reading m n (raw t ∷ ps) h =
    let (e, k) = emits-IsAligned m n t h in
    shape-append (emits m t) (reading (ends m t) ps)
    ∙ ap₂ (λ a b. a ++ b) e (shape-reading (ends m t) (ends n t) ps k)
    ∙ sym (shape-append (emits n t) (reading (ends n t) (blanked ps)))
shape-reading m n (escaped v ∷ ps) h =
    shape-reading (with_value m v) (with_value n []) ps (with_value-IsAligned m n v h)
shape-reading m n (number k ∷ ps) h =
    shape-append (map byte (to_string k)) (reading m ps)
    ∙ ap (λ r. shape (map byte (to_string k)) ++ r) (shape-reading m n ps h)
    ∙ sym (shape-append (map byte (to_string k)) (reading n (blanked ps)))

is_over-IsAligned : (m n : Mode) → IsAligned m n → is_over m ≡ is_over n
is_over-IsAligned m n both_outside = refl
is_over-IsAligned m n (both_inside v w) = refl
is_over-IsAligned m n (both_backslash v w) = refl
is_over-IsAligned m n (both_ended v w) = refl

is_inside-IsAligned : (m n : Mode) → IsAligned m n → is_inside m ≡ is_inside n
is_inside-IsAligned m n both_outside = refl
is_inside-IsAligned m n (both_inside v w) = refl
is_inside-IsAligned m n (both_backslash v w) = refl
is_inside-IsAligned m n (both_ended v w) = refl

is_outside-IsAligned : (m n : Mode) → IsAligned m n → is_outside m ≡ is_outside n
is_outside-IsAligned m n both_outside = refl
is_outside-IsAligned m n (both_inside v w) = refl
is_outside-IsAligned m n (both_backslash v w) = refl
is_outside-IsAligned m n (both_ended v w) = refl

pub is_placed-blanked :
    (m n : Mode) (ps : Statement) → IsAligned m n → is_placed m ps ≡ is_placed n (blanked ps)
unfolding is_placed
is_placed-blanked m n [] h = is_over-IsAligned m n h
is_placed-blanked m n (raw t ∷ ps) h =
    is_placed-blanked (ends m t) (ends n t) ps (emits-IsAligned m n t h).1
is_placed-blanked m n (escaped v ∷ ps) h =
    ap₂ ◌&&◌ (is_inside-IsAligned m n h)
      (is_placed-blanked (with_value m v) (with_value n []) ps (with_value-IsAligned m n v h))
is_placed-blanked m n (number k ∷ ps) h =
    ap₂ ◌&&◌ (is_outside-IsAligned m n h) (is_placed-blanked m n ps h)
