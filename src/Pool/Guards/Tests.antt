-- ===== src/Pool/Guards/Tests.antt =====
-- A thread with two guards.
use paid_server.Base.{ℕ, ◌≡◌, length, List, [], ◌∷◌, true, false, some, arith}
use paid_server.Pool.{ConnectionPool}
use paid_server.Pool.Ledger.{IsLedger, count}
use paid_server.Pool.Guards.{Guards, Use, moves_in, assigns, use_guards, end_guards}
use paid_server.Pool.Guards.Owned.{IsHeld, end_guards-returns}

-- Of three connections that are lent, one is in the hands of another thread.
abbrev three_lent : ConnectionPool
three_lent = record {
  connections = [];
  initialized = true;
  shutting_down = false;
  opened = 3;
  lent = 2 ∷ 1 ∷ 0 ∷ [];
  closed = [];
  lost = [];
}

abbrev two_guards : Guards
two_guards = record { pool = three_lent; guards = some 0 ∷ some 1 ∷ [] }

-- The first guard takes over what the second one owns, which is moved on into a third.
abbrev moves : List Use
moves = assigns 0 1 ∷ moves_in 0 ∷ []

two_guards-IsHeld : IsHeld (2 ∷ []) two_guards
unfolding count
two_guards-IsHeld n = omega arith

three_lent-IsLedger : IsLedger three_lent
unfolding IsLedger count
three_lent-IsLedger n = ground arith

end_guards-returns_example :
    (let t = use_guards moves two_guards in
      let e = end_guards (length t.guards) t in
      ((n : ℕ) → count n e.pool.lent ≡ count n (2 ∷ [])) × IsLedger e.pool)
end_guards-returns_example =
    end_guards-returns (2 ∷ []) moves two_guards (omega arith, (tt, tt)) two_guards-IsHeld
      three_lent-IsLedger
