-- ===== src/Settings/Bounds.antt =====
-- The numbers of the configuration: what std::stoi accepts, and that it reads back std::to_string.
use paid_server.Base.{
  text, ℕ, zero, suc, ◌+◌, ◌/◌, ◌%◌, ◌^◌, ◌<◌, ◌≡◌, refl, Text, Bool, true, false, [], ◌∷◌, Option,
  none, some, arith,
}
use paid_server.Database.Monad.{ok}
use paid_server.Results.{>>=-eq-ok, require}
use paid_server.Interfaces.{ℤ, pos, negsuc}
use paid_server.Strings.{to_string, digits_from}
use paid_server.Settings.Numbers.{
  stoi, signed, digits, more_digits, bounded, skip_spaces, is_positive,
}
use paid_server.Settings.Load.{Settings}
use paid_server.Settings.Values.{require_positive, require_int, int_or, whole, present, find_string}
use paid_server.Settings.Backend.{HttpServerConfig, http_server}

-- The values of an int.
abbrev pub IsInt : ℤ → Type 0
IsInt (pos n) = n < 2 ^ 31
IsInt (negsuc n) = n < 2 ^ 31

bounded-IsInt :
    (minus : Bool) (d : Option (ℕ × Text)) {z : ℤ} {rest : Text}
    → bounded minus d ≡ some (z, rest)
    → IsInt z
bounded-IsInt minus none h = cc
bounded-IsInt true (some (zero, t)) h = ground arith
bounded-IsInt true (some (suc n, t)) h = ground arith
bounded-IsInt false (some (n, t)) h = ground arith

signed-IsInt : (t : Text) {z : ℤ} {rest : Text} → signed t ≡ some (z, rest) → IsInt z
unfolding signed
signed-IsInt [] h = cc
signed-IsInt (c ∷ t) h = ground (
  arith,
  bounded-IsInt true (digits t),
  bounded-IsInt false (digits t),
  bounded-IsInt false (digits (c ∷ t)),
)

-- Whatever the text, a number that is accepted is within the bounds of an int.
stoi-IsInt : (s : Text) {z : ℤ} {rest : Text} → stoi s ≡ some (z, rest) → IsInt z
unfolding stoi
stoi-IsInt s h = signed-IsInt (skip_spaces s) h

pub digits-digits_from :
    (fuel n : ℕ) (acc : Text)
    → n < fuel
    → digits (digits_from fuel n acc) ≡ some (more_digits n acc)
unfolding digits digits_from more_digits
digits-digits_from zero n acc h = absurd (omega arith)
digits-digits_from (suc fuel) n acc h =
    ground (arith, digits-digits_from fuel (n / 10) ((b'0' + n % 10) ∷ acc))

signed-digits :
    (s : Text) {n : ℕ} {rest : Text}
    → digits s ≡ some (n, rest)
    → n < 2 ^ 31
    → stoi s ≡ some (pos n, rest)
unfolding stoi digits skip_spaces signed
signed-digits [] e h = cc
signed-digits (c ∷ s) e h = ground arith

-- The text of a number within the bounds of an int is read back as that number, to its end.
pub stoi-to_string : (n : ℕ) → n < 2 ^ 31 → stoi (to_string n) ≡ some (pos n, [])
unfolding to_string more_digits
stoi-to_string n h = signed-digits (to_string n) (digits-digits_from (suc n) n [] (omega arith)) h

-- A positive int.
pub record IsCount (z : ℤ) : Type 0 where
  pub positive : is_positive z ≡ true
  pub bounded_int : IsInt z

require-ok : (b : Bool) (e : Text) {u : Unit {0}} → require b e ≡ ok u → b ≡ true
require-ok true e h = refl
require-ok false e h = cc

require_positive-ok :
    (key : Text) (z : ℤ) {u : Unit {0}} → require_positive key z ≡ ok u → is_positive z ≡ true
unfolding require_positive
require_positive-ok key z h = require-ok (is_positive z) _ h

whole-IsInt :
    (key : Text) (r : Option (ℤ × Text)) {z : ℤ}
    → ((i : ℤ) (rest : Text) → r ≡ some (i, rest) → IsInt i)
    → whole key r ≡ ok z
    → IsInt z
whole-IsInt key none k h = cc
whole-IsInt key (some (i, [])) k h = ground (arith, k i [] refl)
whole-IsInt key (some (i, c ∷ rest)) k h = cc

require_int-IsInt : (m : Settings) (key : Text) {z : ℤ} → require_int m key ≡ ok z → IsInt z
unfolding require_int
require_int-IsInt m key h =
    let (v, _, w) = >>=-eq-ok (present key (find_string m key)) _ h in
    whole-IsInt key (stoi v) (λ i rest. stoi-IsInt v) w

int_or-IsInt :
    (m : Settings) (key : Text) (fallback : ℕ) {z : ℤ}
    → fallback < 2 ^ 31
    → int_or m key fallback ≡ ok z
    → IsInt z
unfolding int_or
int_or-IsInt m key fallback {z = z} small h = ground (arith, require_int-IsInt m key {z = z})

-- A configuration of the HTTP server that is accepted has four positive ints.
http_server-IsCount :
    (m : Settings) {c : HttpServerConfig}
    → http_server m ≡ ok c
    → IsCount c.worker_threads
      × IsCount c.listen_backlog
      × IsCount c.max_concurrent_connections
      × IsCount c.read_timeout_seconds
unfolding http_server
http_server-IsCount m h =
    let (w, ew, h₁) = >>=-eq-ok (int_or m (text "HTTP_WORKER_THREADS") 20) _ h in
    let (l, el, h₂) = >>=-eq-ok (int_or m (text "HTTP_LISTEN_BACKLOG") 128) _ h₁ in
    let (x, ex, h₃) = >>=-eq-ok (int_or m (text "HTTP_MAX_CONCURRENT_CONNECTIONS") 256) _ h₂ in
    let (r, er, h₄) = >>=-eq-ok (int_or m (text "HTTP_READ_TIMEOUT_SECONDS") 10) _ h₃ in
    let (_, pw, h₅) = >>=-eq-ok (require_positive (text "HTTP_WORKER_THREADS") w) _ h₄ in
    let (_, pl, h₆) = >>=-eq-ok (require_positive (text "HTTP_LISTEN_BACKLOG") l) _ h₅ in
    let (_, px, h₇) =
      >>=-eq-ok (require_positive (text "HTTP_MAX_CONCURRENT_CONNECTIONS") x) _ h₆ in
    let (_, pr, h₈) = >>=-eq-ok (require_positive (text "HTTP_READ_TIMEOUT_SECONDS") r) _ h₇ in
    ground (
      arith,
      require_positive-ok _ w pw,
      require_positive-ok _ l pl,
      require_positive-ok _ x px,
      require_positive-ok _ r pr,
      int_or-IsInt m _ 20 (omega arith) ew,
      int_or-IsInt m _ 128 (omega arith) el,
      int_or-IsInt m _ 256 (omega arith) ex,
      int_or-IsInt m _ 10 (omega arith) er,
    )
