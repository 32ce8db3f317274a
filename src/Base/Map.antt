-- ===== src/Base/Map.antt =====
-- std::map and std::unordered_map as association lists.
use mathlib.Core.Path.{◌≡◌, refl}
use mathlib.Core.Logic.{◌↔◌}
use mathlib.Core.Bool.{Bool, true}
use mathlib.Core.Option.{Option, none, some}
use mathlib.Core.List.{List, [], ◌∷◌}
use native.Mathlib.Omega.{arith}
use Prim.Native.Nat.{ℕ}
use paid_server.Base.Tests.{if◌then◌else◌, ==_iff}
use paid_server.Base.Tests.{◌==◌ as nat_same}
use paid_server.Base.Bytes.{Text, same, same_iff}

pub record Eq (K : Type 0) : Type 0 where
  pub eq : K → K → Bool
  pub eq_iff : (a b : K) → (eq a b ≡ true) ↔ (a ≡ b)

instance abbrev pub nat_eq : Eq ℕ
nat_eq = record { eq = nat_same; eq_iff = ==_iff }

instance abbrev pub text_eq : Eq Text
text_eq = record { eq = same; eq_iff = same_iff }

module _ {K : Type 0} ⦃e : Eq K⦄ {V : Type 0} where
  -- find()
  unfoldable pub find : K → List (K × V) → Option V
  find k [] = none
  find k ((j, v) ∷ m) = if e.eq j k then some v else find k m

  -- operator[] =
  unfoldable pub put : K → V → List (K × V) → List (K × V)
  put k v [] = (k, v) ∷ []
  put k v ((j, w) ∷ m) = if e.eq j k then (k, v) ∷ m else (j, w) ∷ put k v m

  -- erase(), of every entry with the key.
  unfoldable pub erase : K → List (K × V) → List (K × V)
  erase k [] = []
  erase k ((j, w) ∷ m) = if e.eq j k then erase k m else (j, w) ∷ erase k m

  pub find-put :
      (k j : K) (v : V) (m : List (K × V))
      → find j (put k v m) ≡ (if e.eq k j then some v else find j m)
  unfolding find put
  find-put k j v [] = refl
  find-put k j v ((i, w) ∷ m) =
      ground (arith, e.eq_iff k j, e.eq_iff i k, e.eq_iff i j, find-put k j v m)

  pub find-erase :
      (k j : K) (m : List (K × V)) → find j (erase k m) ≡ (if e.eq k j then none else find j m)
  unfolding find erase
  find-erase k j [] = ground arith
  find-erase k j ((i, w) ∷ m) =
      ground (arith, e.eq_iff k j, e.eq_iff i k, e.eq_iff i j, find-erase k j m)
