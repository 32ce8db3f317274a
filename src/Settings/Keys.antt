-- ===== src/Settings/Keys.antt =====
-- What loading a file does to the map of settings: no key is set twice, and the lines of a clean
-- list of settings are read back.
use paid_server.Base.{
  ℕ, ◌≤◌, ◌≡◌, ◌≢◌, refl, sym, ap, ◌∙◌, Text, same_iff, false, List, [], ◌∷◌, ◌++◌, Option, none,
  some, length, arith, Bool-cases, inl, inr, All,
}
use mathlib.Core.List.{
  reverse, reverse-append, reverse-cons, reverse-reverse, append_assoc, append-nil,
}
use paid_server.Base.Map.{find, put, find-put, text_eq}
use paid_server.Database.Monad.{ok}
use paid_server.Results.{>>=-eq-ok}
use paid_server.Strings.{trim, drop_blank}
use paid_server.Settings.Load.{
  Settings, lines, cut_entry, strip_inline_comment, load_line, load_lines, load_from_env_file,
  add_entry, add_key, is_skipped,
}

-- Every setting of m is one of m'.
abbrev pub Extends : Settings → Settings → Type 0
Extends m m' = (k v : Text) → find k m ≡ some v → find k m' ≡ some v

add_key-Extends :
    (line key value : Text) (m : Settings) {m' : Settings}
    → add_key line key value m ≡ ok m'
    → Extends m m'
add_key-Extends line [] value m e k v h = cc
add_key-Extends line (c ∷ key) value m e k v h =
    ground (arith, find-put (c ∷ key) k value m, same_iff (c ∷ key) k)

add_entry-Extends :
    (line : Text) (e : Option (Text × Text)) (m : Settings) {m' : Settings}
    → add_entry line e m ≡ ok m'
    → Extends m m'
unfolding add_entry
add_entry-Extends line none m e = λ k v h. cc
add_entry-Extends line (some (key, value)) m e = add_key-Extends line _ _ m e

load_line-Extends :
    (line : Text) (m : Settings) {m' : Settings} → load_line line m ≡ ok m' → Extends m m'
unfolding load_line add_entry
load_line-Extends line m e k v h = elim (Bool-cases (is_skipped line)) [
  | inl q ↦ ground arith
  | inr q ↦ add_entry-Extends line (cut_entry line) m (rw q at e) k v h
]

load_lines-Extends :
    (ls : List Text) (m : Settings) {m' : Settings} → load_lines ls m ≡ ok m' → Extends m m'
unfolding load_lines
load_lines-Extends [] m e k v h = ground arith
load_lines-Extends (l ∷ ls) m e k v h =
    let (m₁, e₁, e₂) = >>=-eq-ok (load_line (trim l) m) _ e in
    load_lines-Extends ls m₁ e₂ k v (load_line-Extends (trim l) m e₁ k v h)

-- Loading a file keeps every setting that is there: a key is never set again.
load_from_env_file-Extends :
    (filepath : Text) (contents : Option Text) (m : Settings) {m' : Settings}
    → load_from_env_file filepath contents m ≡ ok m'
    → Extends m m'
unfolding load_from_env_file
load_from_env_file-Extends filepath none m e = cc
load_from_env_file-Extends filepath (some c) m e = load_lines-Extends (lines c) m e

-- A line of a setting.
abbrev pub entry_line : Text × Text → Text
entry_line (k, v) = k ++ b'=' ∷ v

abbrev pub print : Settings → Text
print [] = []
print (e ∷ es) = entry_line e ++ 10 ∷ print es

-- No blank at an end.
pub record IsTrim (s : Text) : Type 0 where
  pub front : drop_blank s ≡ s
  pub back : drop_blank (reverse s) ≡ reverse s

abbrev pub IsKeyByte : ℕ → Type 0
IsKeyByte c = (c ≢ 10) × (c ≢ b'=') × (c ≢ b':')

abbrev pub IsValueByte : ℕ → Type 0
IsValueByte c = (c ≢ 10) × (c ≢ b'#')

-- A setting that a line can hold.
pub record IsPlain (e : Text × Text) : Type 0 where
  pub key_trim : IsTrim e.0
  pub value_trim : IsTrim e.1
  pub key_bytes : All IsKeyByte e.0
  pub value_bytes : All IsValueByte e.1
  pub key_start : is_skipped e.0 ≡ false

pub drop_blank-shorter : (s : Text) → length (drop_blank s) ≤ length s
unfolding drop_blank
drop_blank-shorter [] = omega arith
drop_blank-shorter (c ∷ s) = ground (arith, drop_blank-shorter s)

-- A text without a blank in front, before an equals sign.
drop_blank-append : (s t : Text) → drop_blank s ≡ s → drop_blank (s ++ b'=' ∷ t) ≡ s ++ b'=' ∷ t
unfolding drop_blank
drop_blank-append [] t h = refl
drop_blank-append (c ∷ s) t h = ground (arith, drop_blank-shorter s)

pub trim-IsTrim : (s : Text) → IsTrim s → trim s ≡ s
unfolding trim
trim-IsTrim s h = rw (h.front, h.back) (reverse-reverse s)

pub lines-append : (l rest : Text) → All (λ c. c ≢ 10) l → lines (l ++ 10 ∷ rest) ≡ l ∷ lines rest
unfolding lines
lines-append [] rest h = refl
lines-append (c ∷ l) rest (n, h) = ground (arith, lines-append l rest h)

cut_entry-append : (k v : Text) → All IsKeyByte k → cut_entry (k ++ b'=' ∷ v) ≡ some (k, v)
unfolding cut_entry
cut_entry-append [] v h = refl
cut_entry-append (c ∷ k) v (n, h) = ground (arith, cut_entry-append k v h)

strip-plain : (v : Text) → All IsValueByte v → strip_inline_comment v ≡ v
unfolding strip_inline_comment
strip-plain [] h = refl
strip-plain (c ∷ v) (n, h) = ground (arith, strip-plain v h)

reverse-entry : (k v : Text) → reverse (k ++ b'=' ∷ v) ≡ reverse v ++ b'=' ∷ reverse k
reverse-entry k v =
    reverse-append k (b'=' ∷ v)
    ∙ rw (reverse-cons b'=' v) (append_assoc (reverse v) (b'=' ∷ []) (reverse k))

entry_line-IsTrim : (k v : Text) → IsTrim k → IsTrim v → IsTrim (entry_line (k, v))
entry_line-IsTrim k v hk hv = record {
  front = drop_blank-append k v hk.front;
  back = rw (reverse-entry k v) (drop_blank-append (reverse v) (reverse k) hv.back);
}

-- Each key is new where its line is read.
abbrev pub IsFresh : Settings → List (Text × Text) → Type 0
IsFresh m [] = Unit
IsFresh m ((k, v) ∷ es) = (find k m ≡ none) × IsFresh (m ++ (k, v) ∷ []) es

put-new : (k v : Text) (m : Settings) → find k m ≡ none → put k v m ≡ m ++ (k, v) ∷ []
unfolding find put
put-new k v [] h = refl
put-new k v ((j, w) ∷ m) h = ground (arith, put-new k v m)

is_skipped-append : (k t : Text) → is_skipped k ≡ false → is_skipped (k ++ t) ≡ false
unfolding is_skipped
is_skipped-append [] t h = cc
is_skipped-append (c ∷ k) t h = h

add_key-new :
    (line k v : Text) (m : Settings)
    → is_skipped k ≡ false
    → find k m ≡ none
    → add_key line k v m ≡ ok (m ++ (k, v) ∷ [])
unfolding is_skipped
add_key-new line [] v m h new = cc
add_key-new line (c ∷ k) v m h new = rw (new, put-new (c ∷ k) v m new) refl

load_line-entry :
    (k v : Text) (m : Settings)
    → IsPlain (k, v)
    → find k m ≡ none
    → load_line (trim (entry_line (k, v))) m ≡ ok (m ++ (k, v) ∷ [])
unfolding load_line add_entry
load_line-entry k v m p new =
    rw
      (
        trim-IsTrim _ (entry_line-IsTrim k v p.key_trim p.value_trim),
        is_skipped-append k (b'=' ∷ v) p.key_start,
        cut_entry-append k v p.key_bytes,
        trim-IsTrim k p.key_trim,
        trim-IsTrim v p.value_trim,
        strip-plain v p.value_bytes,
        trim-IsTrim v p.value_trim,
      )
      (add_key-new _ k v m p.key_start new)

one_line : (k v : Text) → All IsKeyByte k → All IsValueByte v → All (λ c. c ≢ 10) (k ++ b'=' ∷ v)
one_line [] v hk hv = (λ e. cc, value_line v hv)
  where
    value_line : (v : Text) → All IsValueByte v → All (λ c. c ≢ 10) v
    value_line [] h = tt
    value_line (c ∷ v) ((n, _), h) = (n, value_line v h)
one_line (c ∷ k) v ((n, _, _), hk) hv = (n, one_line k v hk hv)

load_lines-print :
    (es : List (Text × Text)) (m : Settings)
    → All IsPlain es
    → IsFresh m es
    → load_lines (lines (print es)) m ≡ ok (m ++ es)
unfolding load_lines
load_lines-print [] m p f = unfold lines in ap ok (sym (append-nil m))
load_lines-print ((k, v) ∷ es) m (p, ps) (f, fs) =
    rw
      (
        lines-append (entry_line (k, v)) (print es) (one_line k v p.key_bytes p.value_bytes),
        load_line-entry k v m p f,
      )
      (load_lines-print es (m ++ (k, v) ∷ []) ps fs ∙ ap ok (append_assoc m ((k, v) ∷ []) es))

-- A file that prints settings with distinct keys, without blanks at the ends, without newlines,
-- with no separator in a key, no number sign in a value or in front of a key, is read back as these
-- settings.
pub load_from_env_file-print :
    (filepath : Text) (es : List (Text × Text))
    → All IsPlain es
    → IsFresh [] es
    → load_from_env_file filepath (some (print es)) [] ≡ ok es
unfolding load_from_env_file
load_from_env_file-print filepath es p f = load_lines-print es [] p f
