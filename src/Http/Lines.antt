-- ===== src/Http/Lines.antt =====
-- A message of HTTP as lines, for readHttpRequest of backend/main.cpp and gateway/main.cpp: where
-- its head ends, and the lines of the head.
use paid_server.Base.{
  ℕ, ◌≡◌, ◌≢◌, refl, sym, ap, ◌∙◌, Text, empty, false, List, [], ◌∷◌, ◌++◌, none, some, All, arith,
}
use mathlib.Core.List.{append_assoc, append-nil}
use paid_server.Settings.Load.{lines}
use paid_server.Settings.Keys.{lines-append}
use paid_server.Http.{after_end, cut_end, pop_cr}

abbrev pub IsLineByte : ℕ → Type 0
IsLineByte c = (c ≢ 13) × (c ≢ 10)

abbrev pub IsLine : Text → Type 0
IsLine l = All IsLineByte l × (empty l ≡ false)

-- What follows the first line: the lines ls, an empty line, and the body.
abbrev pub tail_of : List Text → Text → Text
tail_of [] body = 13 ∷ 10 ∷ 13 ∷ 10 ∷ body
tail_of (m ∷ ls) body = 13 ∷ 10 ∷ m ++ tail_of ls body

abbrev pub rest_of : List Text → Text
rest_of [] = []
rest_of (m ∷ ls) = 13 ∷ 10 ∷ m ++ rest_of ls

after_end-other : (c : ℕ) (s : Text) → c ≢ 13 → after_end (c ∷ s) ≡ none
unfolding after_end
after_end-other c [] n = refl
after_end-other c (a ∷ []) n = refl
after_end-other c (a ∷ b ∷ []) n = refl
after_end-other c (a ∷ b ∷ d ∷ s) n = ground (arith, n)

cut_end-line :
    (l s : Text) {h b : Text}
    → All IsLineByte l
    → cut_end s ≡ some (h, b)
    → cut_end (l ++ s) ≡ some (l ++ h, b)
unfolding cut_end
cut_end-line [] s k e = e
cut_end-line (c ∷ l) s ((n, _), k) e = rw (after_end-other c (l ++ s) n, cut_end-line l s k e) refl

-- The end of a line in front of another line.
cut_end-crlf :
    (l : Text) (s : Text) {h b : Text}
    → IsLine l
    → cut_end (l ++ s) ≡ some (h, b)
    → cut_end (13 ∷ 10 ∷ l ++ s) ≡ some (13 ∷ 10 ∷ h, b)
unfolding cut_end after_end
cut_end-crlf [] s (k, f) e = cc
cut_end-crlf (c ∷ l) s (((n, m), k), f) e =
    rw (no_end c (l ++ s) n, after_end-other 10 (c ∷ l ++ s) (λ h. omega (arith, h)), e) refl
  where
    no_end : (c : ℕ) (s : Text) → c ≢ 13 → after_end (13 ∷ 10 ∷ c ∷ s) ≡ none
    no_end c [] n = refl
    no_end c (a ∷ s) n = ground (arith, n)

cut_end-tail :
    (ls : List Text) (body : Text)
    → All IsLine ls
    → cut_end (tail_of ls body) ≡ some (rest_of ls, body)
unfolding cut_end after_end
cut_end-tail [] body ks = refl
cut_end-tail (m ∷ ls) body (i, ks) =
    cut_end-crlf m (tail_of ls body) i
      (cut_end-line m (tail_of ls body) i.0 (cut_end-tail ls body ks))

pub cut_end-message :
    (l : Text) (ls : List Text) (body : Text)
    → All IsLineByte l
    → All IsLine ls
    → cut_end (l ++ tail_of ls body) ≡ some (l ++ rest_of ls, body)
cut_end-message l ls body k ks = cut_end-line l (tail_of ls body) k (cut_end-tail ls body ks)

-- The lines that std::getline gives: all but the last keep their "\r".
abbrev pub got : Text → List Text → List Text
got l [] = l ∷ []
got l (m ∷ ls) = (l ++ 13 ∷ []) ∷ got m ls

lines-last : (l : Text) → IsLine l → lines l ≡ l ∷ []
unfolding lines
lines-last [] (k, f) = cc
lines-last (c ∷ []) (((n, m), k), f) = ground arith
lines-last (c ∷ d ∷ l) (((n, m), k), f) = ground (arith, lines-last (d ∷ l) (k, refl))

no_newline : (l : Text) → All IsLineByte l → All (λ c. c ≢ 10) (l ++ 13 ∷ [])
no_newline [] k = ((λ h. omega (arith, h)), tt)
no_newline (c ∷ l) ((n, m), k) = (m, no_newline l k)

pub lines-rest_of :
    (l : Text) (ls : List Text) → IsLine l → All IsLine ls → lines (l ++ rest_of ls) ≡ got l ls
lines-rest_of l [] i ks = ap lines (append-nil l) ∙ lines-last l i
lines-rest_of l (m ∷ ls) i (j, ks) =
    ap lines (sym (append_assoc l (13 ∷ []) (10 ∷ m ++ rest_of ls)))
    ∙ lines-append (l ++ 13 ∷ []) (m ++ rest_of ls) (no_newline l i.0)
    ∙ ap (λ r. (l ++ 13 ∷ []) ∷ r) (lines-rest_of m ls j ks)

pub pop_cr-end : (l : Text) → pop_cr (l ++ 13 ∷ []) ≡ l
unfolding pop_cr
pop_cr-end [] = refl
pop_cr-end (c ∷ []) = refl
pop_cr-end (c ∷ d ∷ l) = ap (λ r. c ∷ r) (pop_cr-end (d ∷ l))

pub pop_cr-IsLine : (l : Text) → All IsLineByte l → pop_cr l ≡ l
unfolding pop_cr
pop_cr-IsLine [] k = refl
pop_cr-IsLine (c ∷ []) ((n, m), k) = ground (arith, n)
pop_cr-IsLine (c ∷ d ∷ l) (nm, k) = ap (λ r. c ∷ r) (pop_cr-IsLine (d ∷ l) k)
