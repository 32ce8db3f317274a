-- ===== src/Pool/Ledger.antt =====
-- The pools of backend/common/mysql_pool.hpp, backend/common/redis_pool.hpp and
-- gateway/common/session_store.hpp: where each connection is.
use paid_server.Base.{
  ℕ, suc, ◌+◌, ◌<◌, ltb, ◌==◌, ◌≡◌, refl, List, [], ◌∷◌, ◌++◌, Text, if◌then◌else◌, arith, ap,
  length,
}
use paid_server.Pool.{
  ConnectionPool, remove, open_one, close, lose, give_back, close_idle, take_front, release, start,
  lend,
}

unfoldable pub count : ℕ → List ℕ → ℕ
count n [] = 0
count n (m ∷ ms) = (if m == n then 1 else 0) + count n ms

-- In how many places a connection is.
abbrev pub places : ℕ → ConnectionPool → ℕ
places n p = count n p.connections + count n p.lent + count n p.closed + count n p.lost

-- Each connection that was opened is in one place, once, and no other number is anywhere.
unfoldable pub IsLedger : ConnectionPool → Type 0
IsLedger p = (n : ℕ) → places n p ≡ (if ltb n p.opened then 1 else 0)

pub count-append : (n : ℕ) (ms ks : List ℕ) → count n (ms ++ ks) ≡ count n ms + count n ks
unfolding count
count-append n [] ks = omega arith
count-append n (m ∷ ms) ks = omega (arith, count-append n ms ks)

pub count-remove :
    (n k : ℕ) (ms : List ℕ)
    → 0 < count k ms
    → count n ms ≡ (if k == n then 1 else 0) + count n (remove k ms)
unfolding count remove
count-remove n k [] h = omega arith
count-remove n k (m ∷ ms) h = ground (arith, count-remove n k ms)

pub length-remove : (k : ℕ) (ms : List ℕ) → 0 < count k ms → length ms ≡ suc (length (remove k ms))
unfolding count remove
length-remove k [] h = omega arith
length-remove k (m ∷ ms) h = ground (arith, length-remove k ms)

pub start-IsLedger : IsLedger start
unfolding IsLedger start count
start-IsLedger n = ground arith

pub open_one-IsLedger : (p : ConnectionPool) → IsLedger p → IsLedger (open_one p)
unfolding IsLedger open_one count
open_one-IsLedger p h n = ground (arith, h n)

module _ (k : ℕ) (p : ConnectionPool) (held : 0 < count k p.lent) (h : IsLedger p) where
  pub close-IsLedger : IsLedger (close k p)
  unfolding IsLedger close count
  close-IsLedger n = ground (arith, h n, count-remove n k p.lent held)

  pub lose-IsLedger : IsLedger (lose k p)
  unfolding IsLedger lose count
  lose-IsLedger n = ground (arith, h n, count-remove n k p.lent held)

  pub give_back-IsLedger : IsLedger (give_back k p)
  unfolding IsLedger give_back count
  give_back-IsLedger n =
      ground (arith, h n, count-remove n k p.lent held, count-append n p.connections (k ∷ []))

  pub release-IsLedger : IsLedger (release k p)
  unfolding release
  release-IsLedger = ground (arith, close-IsLedger, give_back-IsLedger)

pub close_idle-IsLedger : (p : ConnectionPool) → IsLedger p → IsLedger (close_idle p)
unfolding IsLedger close_idle count
close_idle-IsLedger p h n = ground (arith, h n, count-append n p.connections p.closed)

lend-IsLedger :
    (timed_out : Text) (ns : List ℕ) (p : ConnectionPool)
    → p.connections ≡ ns
    → IsLedger p
    → IsLedger (lend timed_out ns p).1
unfolding IsLedger count
lend-IsLedger timed_out [] p e h n = h n
lend-IsLedger timed_out (m ∷ ns) p e h n = ground (arith, h n, ap (count n) e)

pub take_front-IsLedger :
    (uninitialized timed_out : Text) (p : ConnectionPool)
    → IsLedger p
    → IsLedger (take_front uninitialized timed_out p).1
unfolding take_front
take_front-IsLedger uninitialized timed_out p h =
    ground (arith, lend-IsLedger timed_out p.connections p refl h, h)

pub held-open_one : (p : ConnectionPool) → 0 < count p.opened (open_one p).lent
unfolding count open_one
held-open_one p = ground arith
