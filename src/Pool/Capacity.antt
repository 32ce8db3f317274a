-- ===== src/Pool/Capacity.antt =====
-- The pools of backend/common/mysql_pool.hpp, backend/common/redis_pool.hpp and
-- gateway/common/session_store.hpp: how many connections they keep.
use paid_server.Base.{
  ℕ, suc, ◌+◌, ◌<◌, ◌≡◌, refl, sym, ap, ◌∙◌, ◌⊎◌, inl, inr, List, [], ◌∷◌, Bool, true, false, Text,
  arith, length, Bool-cases, ◌||◌,
}
use paid_server.Database.Monad.{Result, ok, throws, continue}
use paid_server.Pool.{
  ConnectionPool, remove, is_empty, open_one, close, lose, take_front, init, lend,
}
use paid_server.Pool.Ledger.{count, length-remove, held-open_one}
use paid_server.Pool.Outcomes.{
  Created, made, refused, dropped, leaked, Checked, alive, forgotten, renewed, PoolClass, Service,
  class,
}
use paid_server.Pool.Steps.{
  Step, init_step, take_step, check_step, release_step, shutdown_step, acquire,
}

-- The connections that the pool can still lend, now or when they are given back.
unfoldable pub size : ConnectionPool → ℕ
size p = length p.connections + length p.lent

-- acquire() gives a connection and keeps the size; or throws, with the pool as it was or smaller by
-- one connection.
abbrev pub Acquired : ConnectionPool → Result ℕ × ConnectionPool → Type 0
Acquired p (ok n, q) = (size q ≡ size p) × (0 < count n q.lent)
Acquired p (throws e, q) = (q ≡ p) ⊎ (size p ≡ suc (size q))

Created-size :
    {l : Bool} {p : ConnectionPool} {r : Result ℕ × ConnectionPool}
    → Created l p r
    → (o : ConnectionPool) → size o ≡ suc (size p)
    → Acquired o r
unfolding size open_one close lose remove count
Created-size {p = p} made o h = (omega (arith, h), held-open_one p)
Created-size refused o h = inr h
Created-size {p = p} dropped o h = inr (ground (arith, h))
Created-size {p = p} (leaked e) o h = inr (ground (arith, h))

size-close : (n : ℕ) (p : ConnectionPool) → 0 < count n p.lent → size p ≡ suc (size (close n p))
unfolding size close
size-close n p held = omega (arith, length-remove n p.lent held)

size-lose : (n : ℕ) (p : ConnectionPool) → 0 < count n p.lent → size p ≡ suc (size (lose n p))
unfolding size lose
size-lose n p held = omega (arith, length-remove n p.lent held)

Checked-size :
    {l : Bool} {n : ℕ} {p : ConnectionPool} {r : Result ℕ × ConnectionPool}
    → Checked l n p r
    → 0 < count n p.lent
    → (o : ConnectionPool) → size o ≡ size p
    → Acquired o r
Checked-size alive held o h = (sym h, held)
Checked-size {n = n} {p = p} (forgotten e) held o h = inr (h ∙ size-lose n p held)
Checked-size {n = n} {p = p} (renewed m) held o h = Created-size m o (h ∙ size-close n p held)

lend-size :
    (c : PoolClass) (a : c.Answers) (t : Text) (ns : List ℕ) (p : ConnectionPool)
    → p.connections ≡ ns
    → Acquired p (continue (lend t ns p) (c.check a))
unfolding size count
lend-size c a t [] p e = inl refl
lend-size c a t (n ∷ ns) p e =
    Checked-size (c.check-Checked a n _) (ground arith) p (omega (arith, ap length e))

front_cases :
    (u t : Text) (p : ConnectionPool)
    → ((e : Text) × (take_front u t p ≡ (throws e, p)))
      ⊎ (take_front u t p ≡ lend t p.connections p)
unfolding take_front
front_cases u t p = elim (Bool-cases p.initialized) [
  | inr e ↦ inl (u, ground (arith, e))
  | inl i ↦ elim (Bool-cases (p.shutting_down || is_empty p.connections)) [
    | inl e ↦ inl (t, ground (arith, i, e))
    | inr e ↦ inr (ground (arith, i, e))
  ]
]

acquire-Acquired : (c : PoolClass) (a : c.Answers) (p : ConnectionPool) → Acquired p (acquire c a p)
unfolding acquire
acquire-Acquired c a p = elim (front_cases c.uninitialized c.timed_out p) [
  | inl (e, h) ↦ rw h (inl refl)
  | inr h ↦ rw h (lend-size c a c.timed_out p.connections p refl)
]

-- acquire() of each pool gives a connection that is lent from then on, with the pool's size kept, or
-- it throws; then the pool is as it was, or it has lost one connection.
pub pool_acquire-Acquired :
    (s : Service) (a : (class s).Answers) (p : ConnectionPool) → Acquired p (acquire (class s) a p)
pool_acquire-Acquired s = acquire-Acquired (class s)

-- Running, with no connection left.
unfoldable pub IsDrained : ConnectionPool → Type 0
IsDrained p =
    (p.initialized ≡ true) × (p.shutting_down ≡ false) × (p.connections ≡ []) × (p.lent ≡ [])

module _ (c : PoolClass) where
  drained_timeout :
      (a : c.Answers) (p : ConnectionPool) → IsDrained p → acquire c a p ≡ (throws c.timed_out, p)
  unfolding IsDrained acquire take_front
  drained_timeout a p (i, d, e, l) = rw (i, d, e) refl

  drained-Step : {p q : ConnectionPool} → Step c p q → IsDrained p → (q ≡ p) ⊎ (q ≡ c.shutdown p)
  unfolding IsDrained init take_front count
  drained-Step (init_step pool_size answers) (i, d, e, l) = inl (rw i refl)
  drained-Step take_step (i, d, e, l) = inl (rw (i, d, e) refl)
  drained-Step (check_step a n held) (i, d, e, l) = absurd (omega (arith, held, ap (count n) l))
  drained-Step (release_step n held) (i, d, e, l) = absurd (omega (arith, held, ap (count n) l))
  drained-Step shutdown_step h = inr refl

-- A running pool with no connection left answers each acquire() with the exception of the timeout,
-- and no method but shutdown() changes it.
pub drained_stays :
    (s : Service) {p q : ConnectionPool}
    → IsDrained p
    → Step (class s) p q
    → ((q ≡ p) ⊎ (q ≡ (class s).shutdown p))
      × ((a : (class s).Answers) → acquire (class s) a p ≡ (throws (class s).timed_out, p))
drained_stays s {p = p} h step =
    (drained-Step (class s) step h, λ a. drained_timeout (class s) a p h)
