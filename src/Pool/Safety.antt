-- ===== src/Pool/Safety.antt =====
-- The pools of backend/common/mysql_pool.hpp, backend/common/redis_pool.hpp and
-- gateway/common/session_store.hpp: no connection is used by two threads, used after it is closed,
-- or closed twice.
use paid_server.Base.{ℕ, zero, suc, ◌<◌, inl, inr, Bool, false, arith}
use paid_server.Database.Monad.{Result, ok, throws, continue}
use paid_server.Interfaces.{ℤ}
use paid_server.Pool.{ConnectionPool, open_one, give_back, fill, init, rounds}
use paid_server.Pool.Ledger.{
  count, IsLedger, start-IsLedger, open_one-IsLedger, close-IsLedger, lose-IsLedger,
  give_back-IsLedger, release-IsLedger, close_idle-IsLedger, take_front-IsLedger, held-open_one,
}
use paid_server.Pool.Outcomes.{
  Created, made, refused, dropped, leaked, Checked, alive, forgotten, renewed, PoolClass, Service,
  class,
}
use paid_server.Pool.Steps.{
  Step, Reach, init_step, take_step, check_step, release_step, shutdown_step, begin, next,
}

-- The caller gets a connection that the pool has lent.
abbrev pub Held : Result ℕ × ConnectionPool → Type 0
Held (throws e, q) = Unit
Held (ok n, q) = 0 < count n q.lent

pub Created-Held :
    {l : Bool} {p : ConnectionPool} {r : Result ℕ × ConnectionPool} → Created l p r → Held r
Created-Held {p = p} made = held-open_one p
Created-Held refused = tt
Created-Held dropped = tt
Created-Held (leaked e) = tt

Created-IsLedger :
    {l : Bool} {p : ConnectionPool} {r : Result ℕ × ConnectionPool}
    → Created l p r
    → IsLedger p
    → IsLedger r.1
Created-IsLedger {p = p} made h = open_one-IsLedger p h
Created-IsLedger refused h = h
Created-IsLedger {p = p} dropped h =
    close-IsLedger p.opened (open_one p) (held-open_one p) (open_one-IsLedger p h)
Created-IsLedger {p = p} (leaked e) h =
    lose-IsLedger p.opened (open_one p) (held-open_one p) (open_one-IsLedger p h)

Checked-IsLedger :
    {l : Bool} {n : ℕ} {p : ConnectionPool} {r : Result ℕ × ConnectionPool}
    → Checked l n p r
    → 0 < count n p.lent
    → IsLedger p
    → IsLedger r.1
Checked-IsLedger alive held h = h
Checked-IsLedger {n = n} {p = p} (forgotten e) held h = lose-IsLedger n p held h
Checked-IsLedger {n = n} {p = p} (renewed m) held h = Created-IsLedger m (close-IsLedger n p held h)

module _ (c : PoolClass) where
  fill-IsLedger :
      (n : ℕ) (answers : ℕ → c.Answers) (p : ConnectionPool)
      → IsLedger p
      → IsLedger (fill c.create n answers p).1
  unfolding fill
  fill-IsLedger zero answers p h = h
  fill-IsLedger (suc n) answers p h =
      go (c.create-Created (answers n) p) (λ k q hq. fill-IsLedger n answers (give_back k q) hq)
    where
      go :
          {r : Result ℕ × ConnectionPool}
          → Created c.leaks p r
          → ((k : ℕ) (q : ConnectionPool)
              → IsLedger (give_back k q)
              → IsLedger (fill c.create n answers (give_back k q)).1)
          → IsLedger (continue r (λ k q. fill c.create n answers (give_back k q))).1
      go made rest =
          rest p.opened (open_one p)
            (give_back-IsLedger p.opened (open_one p) (held-open_one p) (open_one-IsLedger p h))
      go refused rest = h
      go (dropped {e = m}) rest = Created-IsLedger {l = c.leaks} (dropped {e = m}) h
      go (leaked {e = m} e) rest = Created-IsLedger (leaked {e = m} e) h

  init-IsLedger :
      (pool_size : ℤ) (answers : ℕ → c.Answers) (p : ConnectionPool)
      → IsLedger p
      → IsLedger (init c.create pool_size answers p).1
  unfolding init IsLedger
  init-IsLedger pool_size answers p h =
      ground
        (arith, fill-IsLedger (rounds pool_size) answers (record p { shutting_down = false }) h, h)

  Step-IsLedger : {p q : ConnectionPool} → Step c p q → IsLedger p → IsLedger q
  Step-IsLedger {p = p} (init_step pool_size answers) h = init-IsLedger pool_size answers p h
  Step-IsLedger {p = p} take_step h = take_front-IsLedger c.uninitialized c.timed_out p h
  Step-IsLedger {p = p} (check_step a n held) h = Checked-IsLedger (c.check-Checked a n p) held h
  Step-IsLedger {p = p} (release_step n held) h = release-IsLedger n p held h
  Step-IsLedger {p = p} shutdown_step h = elim (c.shutdown_cases p) [
    | inl e ↦ rw e (close_idle-IsLedger p h)
    | inr (e, _) ↦ rw e h
  ]

  Reach-IsLedger : {p : ConnectionPool} → Reach c p → IsLedger p
  Reach-IsLedger begin = start-IsLedger
  Reach-IsLedger (next r s) = Step-IsLedger s (Reach-IsLedger r)

-- In each pool, whatever the servers answer and in whatever order the threads take, test and release
-- connections, also around shutdown() and init(): every connection that was opened is in one place,
-- once, and no other is anywhere. So none is lent twice, lent while it waits in the queue, or closed
-- while it is lent or for a second time.
pub pool-IsLedger : (s : Service) {p : ConnectionPool} → Reach (class s) p → IsLedger p
pool-IsLedger s r = Reach-IsLedger (class s) r
