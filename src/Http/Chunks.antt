-- ===== src/Http/Chunks.antt =====
-- readHttpRequest of backend/main.cpp and gateway/main.cpp does not depend on how the bytes of a
-- request come in.
use paid_server.Base.{
  ℕ, zero, suc, ◌+◌, ◌≤◌, ◌≡◌, refl, ap, ◌∙◌, Text, empty, false, List, [], ◌∷◌, ◌++◌, Option, none,
  some, leb, if◌then◌else◌, length, length-append, take, All, arith, Option-cases, Bool-cases, inl,
  inr,
}
use mathlib.Core.List.{append_assoc, append-nil}
use paid_server.Database.Monad.{Result, ok, throws}
use paid_server.Http
use paid_server.Http.{
  Request, after_end, cut_end, onto_head, read_head, go_on, stops, Head, read_header, read_body,
  fill_body, unless_closed, with_body, finish_request, max_head, read_request,
}

abbrev pub IsFull : Text → Type 0
IsFull c = empty c ≡ false

abbrev pub join : List Text → Text
join [] = []
join (c ∷ cs) = c ++ join cs

abbrev onto_rest : Text → Option (Text × Text) → Option (Text × Text)
onto_rest t none = none
onto_rest t (some (head, rest)) = some (head, rest ++ t)

after_end-append :
    (s t : Text) {r : Text} → after_end s ≡ some r → after_end (s ++ t) ≡ some (r ++ t)
unfolding after_end
after_end-append [] t e = cc
after_end-append (a ∷ []) t e = cc
after_end-append (a ∷ b ∷ []) t e = cc
after_end-append (a ∷ b ∷ c ∷ []) t e = cc
after_end-append (a ∷ b ∷ c ∷ d ∷ s) t e = ground arith

-- Where an empty line follows later, there is text enough to see that it is not here.
after_end-none :
    (c : ℕ) (s t : Text) {p : Text × Text}
    → after_end (c ∷ s) ≡ none
    → cut_end s ≡ some p
    → after_end (c ∷ s ++ t) ≡ none
unfolding after_end cut_end
after_end-none c [] t e f = cc
after_end-none c (a ∷ []) t e f = cc
after_end-none c (a ∷ b ∷ []) t e f = cc
after_end-none c (a ∷ b ∷ d ∷ s) t e f = ground arith

impossible : {A X : Type 0} {a : A} → none ≡ some a → X
impossible e = cc

cut_end-append :
    (s t : Text) {p : Text × Text} → cut_end s ≡ some p → cut_end (s ++ t) ≡ onto_rest t (some p)
unfolding cut_end
cut_end-append [] t e = cc
cut_end-append (c ∷ s) t e = elim (Option-cases (after_end (c ∷ s))) [
  | inr (r, a) ↦ rw (after_end-append (c ∷ s) t a) (ap (onto_rest t) (rw a at e))
  | inl a ↦ elim (Option-cases (cut_end s)) [
    | inl m ↦ impossible (rw (a, m) at e)
    | inr (q, m) ↦
        rw (after_end-none c s t a m, cut_end-append s t m) (ap (onto_rest t) (rw (a, m) at e))
  ]
]

-- The head of the bytes read and to be read, with what follows it.
abbrev pub joined : Option Head → Option (Text × Text)
joined none = none
joined (some (head, rest, cs)) = some (head, rest ++ join cs)

stops-IsFull :
    (limit : ℕ) (raw c : Text) (n : ℕ)
    → IsFull c
    → length raw + (length c + n) ≤ limit
    → stops limit raw c ≡ false
stops-IsFull limit raw c n f b = ground (arith, f, length-append raw c)

unless_closed-IsFull : (c : Text) (later : Option Text) → IsFull c → unless_closed c later ≡ later
unless_closed-IsFull [] later f = cc
unless_closed-IsFull (d ∷ c) later f = refl

take-append : (n : ℕ) (s t : Text) → n ≤ length s → take n (s ++ t) ≡ take n s
take-append zero s t b = refl
take-append (suc n) [] t b = absurd (omega (arith, b))
take-append (suc n) (c ∷ s) t b = ap (λ r. c ∷ r) (take-append n s t (omega (arith, b)))

pub read_head-join :
    (limit : ℕ) (raw : Text) (cs : List Text)
    → All IsFull cs
    → length raw + length (join cs) ≤ limit
    → joined (read_head limit raw cs) ≡ cut_end (raw ++ join cs)
unfolding read_head
read_head-join limit raw [] full b = elim (Option-cases (cut_end raw)) [
  | inl e ↦ rw (append-nil raw, e) refl
  | inr ((h, r), e) ↦ rw (append-nil raw, e, append-nil r) refl
]
read_head-join limit raw (c ∷ cs) (f, full) b = elim (Option-cases (cut_end raw)) [
  | inl e ↦
      rw
        (
          e,
          stops-IsFull limit raw c (length (join cs)) f
              (omega (arith, b, length-append c (join cs))),
        )
        (read_head-join limit (raw ++ c) cs full
            (omega (arith, b, length-append c (join cs), length-append raw c))
          ∙ ap cut_end (append_assoc raw c (join cs)))
  | inr ((h, r), e) ↦ rw (e, cut_end-append raw (c ++ join cs) e) refl
]

abbrev pub RestIsFull : Option Head → Type 0
RestIsFull none = Unit
RestIsFull (some (head, rest, cs)) = All IsFull cs

pub read_head-RestIsFull :
    (limit : ℕ) (raw : Text) (cs : List Text) → All IsFull cs → RestIsFull (read_head limit raw cs)
unfolding read_head
read_head-RestIsFull limit raw [] full = elim (Option-cases (cut_end raw)) [
  | inl e ↦ rw e tt
  | inr (p, e) ↦ rw e tt
]
read_head-RestIsFull limit raw (c ∷ cs) (f, full) = elim (Option-cases (cut_end raw)) [
  | inr (p, e) ↦ rw e (f, full)
  | inl e ↦ elim (Bool-cases (stops limit raw c)) [
    | inl s ↦ rw (e, s) tt
    | inr s ↦ rw (e, s) (read_head-RestIsFull limit (raw ++ c) cs full)
  ]
]

pub read_body-join :
    (n : ℕ) (body : Text) (cs : List Text)
    → All IsFull cs
    → read_body n body cs
      ≡ (if leb n (length (body ++ join cs)) then some (take n (body ++ join cs)) else none)
unfolding read_body
read_body-join n body [] full = rw (append-nil body) (ground arith)
read_body-join n body (c ∷ cs) (f, full) = elim (Bool-cases (leb n (length body))) [
  | inl e ↦
      rw (e, take-append n body (c ++ join cs) (ground (arith, e)))
        (ground (arith, e, length-append body (c ++ join cs)))
  | inr e ↦
      rw
        (
          e,
          unless_closed-IsFull c (read_body n (body ++ c) cs) f,
          read_body-join n (body ++ c) cs full,
          append_assoc body c (join cs),
        )
        refl
]

unfoldable pub body_within : ℕ → Text → Option Text
body_within n s = if leb n (length s) then some (take n s) else none

-- What a request is, when its bytes are taken as one text.
abbrev pub request_at : Option (Text × Text) → Result (Option Request)
request_at none = ok none
request_at (some (head, rest)) = finish_request (λ n. body_within n rest) (read_header head)

unfoldable pub whole_request : Text → Result (Option Request)
unfolding body_within
whole_request s = request_at (cut_end s)

finish_request-body :
    (f g : ℕ → Option Text) (r : Result (Option (Request × ℕ)))
    → ((n : ℕ) → f n ≡ g n)
    → finish_request f r ≡ finish_request g r
finish_request-body f g (throws e) h = refl
finish_request-body f g (ok none) h = refl
finish_request-body f g (ok (some (request, n))) h = ap (λ b. ok (with_body request b)) (h n)

-- However the bytes of a request are split into reads, none of them empty, the request that is read
-- is the one of the whole text: the head up to the first empty line, and as many bytes behind it as
-- Content-Length says. The text is at most 1 MiB.
pub read_request-whole :
    (cs : List Text)
    → All IsFull cs
    → length (join cs) ≤ max_head
    → read_request cs ≡ whole_request (join cs)
unfolding read_request whole_request body_within
read_request-whole cs full b =
    go (read_head max_head [] cs) (read_head-RestIsFull max_head [] cs full)
      (read_head-join max_head [] cs full (omega (arith, b)))
  where
    go :
        (h : Option Head)
        → RestIsFull h
        → joined h ≡ cut_end (join cs)
        → Http.read_rest h ≡ request_at (cut_end (join cs))
    go none f e = rw⁻¹ e refl
    go (some (head, rest, cs')) f e =
        rw⁻¹ e (finish_request-body _ _ (read_header head) (λ n. read_body-join n rest cs' f))
