-- ===== src/Database/Statements/Tests.antt =====
-- An escape function of the kind of mysql_real_escape_string, and a statement with a hostile value.
use paid_server.Base.{
  ℕ, ◌≡◌, refl, sym, ap, ◌∙◌, true, false, ==_iff, Text, text, [], ◌∷◌, ◌++◌, ◌==◌, ◌||◌,
  if◌then◌else◌, Bool-cases, inl, inr, arith,
}
use mathlib.Core.Path.{subst}
use mathlib.Core.List.{append_assoc, append-nil}
use paid_server.Database.Statements.{render, user_by_username}
use paid_server.Database.Statements.Tokens.{
  inside, outside, step, emits, ends, tokens, values, shape, blanked, IsEscape,
}
use paid_server.Database.Statements.Safety.{fixed, escapes, render-tokens, sends_user_by_username}

-- A backslash in front of each quote and each backslash.
abbrev pub with_backslash : Text → Text
with_backslash [] = []
with_backslash (c ∷ s) =
    if c == b'\'' || c == b'\\' then b'\\' ∷ c ∷ with_backslash s else c ∷ with_backslash s

-- A byte that ends no literal and begins no escape.
plain_step :
    (w s : Text) (c : ℕ)
    → (c == b'\'') ≡ false
    → (c == b'\\') ≡ false
    → tokens (inside w) (c ∷ s) ≡ tokens (inside (w ++ c ∷ [])) s
unfolding tokens emits ends step
plain_step w s c q b = rw (q, b) refl

-- A backslash and the byte behind it.
marked_step :
    (w s : Text) (c : ℕ)
    → (c == b'\'' || c == b'\\') ≡ true
    → tokens (inside w) (b'\\' ∷ c ∷ s) ≡ tokens (inside (w ++ c ∷ [])) s
unfolding tokens emits ends step
marked_step w s c h = elim (Bool-cases (c == b'\'')) [
  | inl e ↦ marked b'\'' refl ((==_iff c b'\'').0 e)
  | inr e ↦ marked b'\\' refl ((==_iff c b'\\').0 (ground (arith, h, e)))
]
  where
    marked :
        (d : ℕ)
        → tokens (inside w) (b'\\' ∷ d ∷ s) ≡ tokens (inside (w ++ d ∷ [])) s
        → c ≡ d
        → tokens (inside w) (b'\\' ∷ c ∷ s) ≡ tokens (inside (w ++ c ∷ [])) s
    marked d t e =
        subst (λ k. tokens (inside w) (b'\\' ∷ k ∷ s) ≡ tokens (inside (w ++ k ∷ [])) s) (sym e) t

pub with_backslash-IsEscape : IsEscape with_backslash
with_backslash-IsEscape w [] rest = ap (λ v. tokens (inside v) rest) (sym (append-nil w))
with_backslash-IsEscape w (c ∷ s) rest =
    first
    ∙ with_backslash-IsEscape (w ++ c ∷ []) s rest
    ∙ ap (λ v. tokens (inside v) rest) (append_assoc w (c ∷ []) s)
  where
    first :
        tokens (inside w) (with_backslash (c ∷ s) ++ rest)
        ≡ tokens (inside (w ++ c ∷ [])) (with_backslash s ++ rest)
    first = elim (Bool-cases (c == b'\'' || c == b'\\')) [
      | inl e ↦ rw e (marked_step w (with_backslash s ++ rest) c e)
      | inr e ↦
          rw e (plain_step w (with_backslash s ++ rest) c (ground (arith, e)) (ground (arith, e)))
    ]

-- ' OR ''='
abbrev hostile : Text
hostile = text "' OR ''='"

render-tokens_example :
    (values (tokens outside (render with_backslash (user_by_username hostile)))
      ≡ fixed (user_by_username hostile) ++ escapes (user_by_username hostile))
    × (shape (tokens outside (render with_backslash (user_by_username hostile)))
        ≡ shape (tokens outside (render with_backslash (blanked (user_by_username hostile)))))
render-tokens_example =
    render-tokens with_backslash (user_by_username hostile) with_backslash-IsEscape
      (sends_user_by_username hostile)
