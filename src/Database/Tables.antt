-- ===== src/Database/Tables.antt =====
-- The SQL statements of backend/common/mysql_pool.hpp as functions on lists of rows: SELECT … LIMIT 1,
-- UPDATE … WHERE …, and the laws that the proofs use.
use paid_server.Base.{
  ℕ, ◌+◌, ◌≤◌, ◌≡◌, refl, Bool, true, false, List, [], ◌∷◌, Option, none, some, arith,
  if◌then◌else◌, Bool-cases, Option-cases, inl, inr,
}
use mathlib.Core.Option

module _ {A : Type 0} where
  -- SELECT … WHERE p LIMIT 1
  unfoldable pub first : (A → Bool) → List A → Option A
  first p [] = none
  first p (x ∷ xs) = if p x then some x else first p xs

  -- UPDATE … SET f WHERE p
  unfoldable pub update : (A → Bool) → (A → A) → List A → List A
  update p f [] = []
  update p f (x ∷ xs) = (if p x then f x else x) ∷ update p f xs

  -- The number of rows where p holds.
  unfoldable pub count : (A → Bool) → List A → ℕ
  count p [] = 0
  count p (x ∷ xs) = (if p x then 1 else 0) + count p xs

  -- No two rows satisfy p: what a UNIQUE key gives for one value of the key.
  abbrev pub AtMostOne : (A → Bool) → List A → Type 0
  AtMostOne p xs = count p xs ≤ 1

  pub first-holds : (p : A → Bool) (xs : List A) {x : A} → first p xs ≡ some x → p x ≡ true
  unfolding first
  first-holds p [] e = cc
  first-holds p (y ∷ xs) {x} e = elim (Bool-cases (p y)) [
    | inl h ↦ ground arith
    | inr h ↦ first-holds p xs (ground arith)
  ]

  -- A lookup by a test that the update does not disturb.
  pub first-update :
      (q p : A → Bool) (f : A → A) (xs : List A)
      → ((x : A) → q (f x) ≡ q x)
      → first q (update p f xs) ≡ Option.map (λ x. if p x then f x else x) (first q xs)
  unfolding first update
  first-update q p f [] keep = refl
  first-update q p f (x ∷ xs) keep = ground (arith, keep x, first-update q p f xs keep)

  pub count-none :
      (p q : A → Bool) (xs : List A)
      → ((x : A) → q x ≡ true → p x ≡ true)
      → first p xs ≡ none
      → count q xs ≡ 0
  unfolding count first
  count-none p q [] h e = refl
  count-none p q (x ∷ xs) h e = ground (arith, h x, count-none p q xs h)

  pub count_mono :
      (p q : A → Bool) (xs : List A) → ((x : A) → q x ≡ true → p x ≡ true) → count q xs ≤ count p xs
  unfolding count
  count_mono p q [] h = omega arith
  count_mono p q (x ∷ xs) h = ground (arith, h x, count_mono p q xs h)

  -- The one row with the key passes the stronger test q: exactly one row does.
  pub count_one :
      (p q : A → Bool) (xs : List A) {x : A}
      → ((y : A) → q y ≡ true → p y ≡ true)
      → AtMostOne p xs
      → first p xs ≡ some x
      → q x ≡ true
      → count q xs ≡ 1
  unfolding count first
  count_one p q [] h u e k = cc
  count_one p q (y ∷ xs) {x} h u e k = elim (Bool-cases (p y)) [
    | inl t ↦ ground (arith, count_mono p q xs h)
    | inr t ↦ ground (arith, h y, count_one p q xs {x = x} h)
  ]

  -- The one row with the key fails the stronger test q: no row passes it.
  count_zero :
      (p q : A → Bool) (xs : List A) {x : A}
      → ((y : A) → q y ≡ true → p y ≡ true)
      → AtMostOne p xs
      → first p xs ≡ some x
      → q x ≡ false
      → count q xs ≡ 0
  unfolding count first
  count_zero p q [] h u e k = refl
  count_zero p q (y ∷ xs) {x} h u e k = elim (Bool-cases (p y)) [
    | inl t ↦ ground (arith, count_mono p q xs h)
    | inr t ↦ ground (arith, h y, count_zero p q xs {x = x} h)
  ]

  -- If exactly one row passes q, the row with the key is the one.
  pub count_one-holds :
      (p q : A → Bool) (xs : List A) {x : A}
      → ((y : A) → q y ≡ true → p y ≡ true)
      → AtMostOne p xs
      → first p xs ≡ some x
      → count q xs ≡ 1
      → q x ≡ true
  count_one-holds p q xs {x} h u e k = elim (Bool-cases (q x)) [
    | inl t ↦ t
    | inr t ↦ absurd (omega (arith, count_zero p q xs {x = x} h u e t))
  ]

  -- A test that no row passes finds nothing to change.
  pub update_none : (p : A → Bool) (f : A → A) (xs : List A) → count p xs ≡ 0 → update p f xs ≡ xs
  unfolding count update
  update_none p f [] e = refl
  update_none p f (x ∷ xs) e = ground (arith, update_none p f xs)

  -- A lookup of a row that the update hits, and of one that it passes by.
  pub first-update_hit :
      (q p : A → Bool) (f : A → A) (xs : List A) {x : A}
      → ((y : A) → q (f y) ≡ q y)
      → first q xs ≡ some x
      → p x ≡ true
      → first q (update p f xs) ≡ some (f x)
  first-update_hit q p f xs keep e h = rw (first-update q p f xs keep, e, h)

  pub first-update_row :
      (q p : A → Bool) (f : A → A) (xs : List A) {x : A}
      → ((y : A) → q (f y) ≡ q y)
      → first q xs ≡ some x
      → p x ≡ false
      → first q (update p f xs) ≡ some x
  first-update_row q p f xs keep e h = rw (first-update q p f xs keep, e, h)

  pub first-update_miss :
      (q p : A → Bool) (f : A → A) (xs : List A)
      → ((y : A) → q (f y) ≡ q y)
      → ((y : A) → q y ≡ true → p y ≡ false)
      → first q (update p f xs) ≡ first q xs
  first-update_miss q p f xs keep h = elim (Option-cases (first q xs)) [
    | inl e ↦ rw (first-update q p f xs keep, e)
    | inr (x, e) ↦ rw (first-update q p f xs keep, e, h x (first-holds q xs e))
  ]
