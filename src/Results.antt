-- ===== src/Results.antt =====
-- Computations that may throw and have no state: a value, or the message of an exception.
use paid_server.Base.{◌≡◌, refl, Text, Bool, true, false}
use paid_server.Database.Monad.{Result, ok, throws}

infixl 5 ◌>>=◌ ◌>>◌
abbrev pub ◌>>=◌ {ℓ κ} : {X : Type ℓ} {Y : Type κ} → Result X → (X → Result Y) → Result Y
throws e >>= next = throws e
ok x >>= next = next x

abbrev pub ◌>>◌ {ℓ} : {Y : Type ℓ} → Result (Unit {0}) → Result Y → Result Y
check >> next = check >>= λ _. next

-- An exception or an early return with an error, unless the test holds.
abbrev pub require : Bool → Text → Result (Unit {0})
require true e = ok tt
require false e = throws e

pub >>=-eq-ok {ℓ κ} :
    {X : Type ℓ} {Y : Type κ} (r : Result X) (next : X → Result Y) {y : Y}
    → (r >>= next) ≡ ok y
    → (x : X) × (r ≡ ok x) × (next x ≡ ok y)
>>=-eq-ok (throws e) next h = cc
>>=-eq-ok (ok x) next h = (x, refl, h)
