-- ===== src/Pool/Losses.antt =====
-- The pools of backend/common/mysql_pool.hpp and gateway/common/session_store.hpp: each connection
-- is closed in the end.
use paid_server.Base.{
  ℕ, zero, suc, ◌<◌, ◌≡◌, refl, ap, ◌∙◌, inl, inr, List, [], ◌∷◌, Bool, false, Text, arith,
}
use paid_server.Database.Monad.{Result, ok, throws, continue}
use paid_server.Interfaces.{ℤ}
use paid_server.Pool.{
  ConnectionPool, open_one, close, give_back, close_idle, take_front, release, start, fill, init,
  rounds, lend,
}
use paid_server.Pool.Ledger.{count, IsLedger}
use paid_server.Pool.Outcomes.{
  Created, made, refused, dropped, leaked, Checked, alive, forgotten, renewed, PoolClass, Service,
  class,
}
use paid_server.Pool.Steps.{
  Step, Reach, init_step, take_step, check_step, release_step, shutdown_step, begin, next,
}
use paid_server.Pool.Safety.{pool-IsLedger}

lend_lost : (t : Text) (ns : List ℕ) (p : ConnectionPool) → (lend t ns p).1.lost ≡ p.lost
lend_lost t [] p = refl
lend_lost t (n ∷ ns) p = refl

take_front_lost : (u t : Text) (p : ConnectionPool) → (take_front u t p).1.lost ≡ p.lost
unfolding take_front
take_front_lost u t p = ground (arith, lend_lost t p.connections p)

release_lost : (n : ℕ) (p : ConnectionPool) → (release n p).lost ≡ p.lost
unfolding release close give_back
release_lost n p = ground arith

Created-lost :
    {l : Bool} {p : ConnectionPool} {r : Result ℕ × ConnectionPool}
    → Created l p r
    → l ≡ false
    → r.1.lost ≡ p.lost
unfolding open_one close
Created-lost made e = refl
Created-lost refused e = refl
Created-lost dropped e = refl
Created-lost (leaked h) e = cc

Checked-lost :
    {l : Bool} {n : ℕ} {p : ConnectionPool} {r : Result ℕ × ConnectionPool}
    → Checked l n p r
    → l ≡ false
    → r.1.lost ≡ p.lost
unfolding close
Checked-lost alive e = refl
Checked-lost (forgotten h) e = cc
Checked-lost (renewed m) e = Created-lost m e

continue_lost :
    (p : ConnectionPool) (r : Result ℕ × ConnectionPool)
    (k : ℕ → ConnectionPool → Result (Unit {0}) × ConnectionPool)
    → r.1.lost ≡ p.lost
    → ((n : ℕ) (q : ConnectionPool) → (k n q).1.lost ≡ q.lost)
    → (continue r k).1.lost ≡ p.lost
continue_lost p (ok n, q) k h rest = rest n q ∙ h
continue_lost p (throws e, q) k h rest = h

module _ (c : PoolClass) (e : c.leaks ≡ false) where
  fill_lost :
      (n : ℕ) (answers : ℕ → c.Answers) (p : ConnectionPool)
      → (fill c.create n answers p).1.lost ≡ p.lost
  unfolding fill give_back
  fill_lost zero answers p = refl
  fill_lost (suc n) answers p =
      continue_lost p (c.create (answers n) p) _ (Created-lost (c.create-Created (answers n) p) e)
        (λ k q. fill_lost n answers (give_back k q))

  init_lost :
      (pool_size : ℤ) (answers : ℕ → c.Answers) (p : ConnectionPool)
      → (init c.create pool_size answers p).1.lost ≡ p.lost
  unfolding init
  init_lost pool_size answers p =
      ground (arith, fill_lost (rounds pool_size) answers (record p { shutting_down = false }))

  Step-lost : {p q : ConnectionPool} → Step c p q → q.lost ≡ p.lost
  unfolding close_idle
  Step-lost {p = p} (init_step pool_size answers) = init_lost pool_size answers p
  Step-lost {p = p} take_step = take_front_lost c.uninitialized c.timed_out p
  Step-lost {p = p} (check_step a n held) = Checked-lost (c.check-Checked a n p) e
  Step-lost {p = p} (release_step n held) = release_lost n p
  Step-lost {p = p} shutdown_step = elim (c.shutdown_cases p) [
    | inl h ↦ ap (λ q. q.lost) h
    | inr (h, _) ↦ ap (λ q. q.lost) h
  ]

  Reach-lost : {p : ConnectionPool} → Reach c p → p.lost ≡ []
  unfolding start
  Reach-lost begin = refl
  Reach-lost (next r s) = Step-lost s ∙ Reach-lost r

-- What shutdown() leaves.
shutdown_rest :
    (c : PoolClass) (p : ConnectionPool)
    → ((c.shutdown p).connections ≡ [])
      × ((c.shutdown p).lent ≡ p.lent)
      × ((c.shutdown p).opened ≡ p.opened)
unfolding close_idle
shutdown_rest c p = elim (c.shutdown_cases p) [
  | inl h ↦ rw h (refl, refl, refl)
  | inr (h, e) ↦ rw h (e, refl, refl)
]

-- When no thread holds a connection of MySqlPool or SessionStore, shutdown() leaves each connection
-- that was ever opened closed, once.
pub shutdown_closes :
    (s : Service) {p : ConnectionPool} (n : ℕ)
    → (class s).leaks ≡ false
    → Reach (class s) p
    → p.lent ≡ []
    → n < p.opened
    → count n ((class s).shutdown p).closed ≡ 1
unfolding IsLedger count
shutdown_closes s {p = p} n e r l b =
    let (no_idle, same_lent, same_opened) = shutdown_rest (class s) p in
    ground (
      arith,
      pool-IsLedger s (next r shutdown_step) n,
      ap (count n) no_idle,
      ap (count n) (same_lent ∙ l),
      ap (count n) (Reach-lost (class s) e (next r shutdown_step)),
      same_opened,
      b,
    )
