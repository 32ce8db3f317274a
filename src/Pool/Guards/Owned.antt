-- ===== src/Pool/Guards/Owned.antt =====
-- backend/common/mysql_pool.hpp: the guards own each connection that was lent to their thread, and
-- give it back once.
use paid_server.Base.{
  ℕ, zero, suc, ◌+◌, ◌<◌, ◌≡◌, refl, ap, false, List, [], ◌∷◌, ◌++◌, Option, none, some, ◌==◌,
  if◌then◌else◌, arith, length, drop, Option-cases, Bool-cases, inl, inr,
}
use paid_server.Pool.{ConnectionPool, remove, release, close, give_back}
use paid_server.Pool.Ledger.{count, IsLedger, release-IsLedger, count-remove}
use paid_server.Pool.Guards.{
  Guards, conn_at, with_conn, construct, reset, move_construct, take_over, move_assign, Use,
  moves_in, ends, assigns, use_guard, use_guards, end_guards,
}

-- The connections that the guards own.
abbrev pub held : List (Option ℕ) → List ℕ
held [] = []
held (none ∷ gs) = held gs
held (some conn ∷ gs) = conn ∷ held gs

-- Each lent connection is owned by one guard, or is in other hands, which hold rest.
abbrev pub IsHeld : List ℕ → Guards → Type 0
IsHeld rest s = (n : ℕ) → count n s.pool.lent ≡ count n (held s.guards) + count n rest

abbrev own : ℕ → Option ℕ → ℕ
own n none = 0
own n (some conn) = if conn == n then 1 else 0

held-append :
    (n : ℕ) (gs : List (Option ℕ)) (g : Option ℕ)
    → count n (held (gs ++ g ∷ [])) ≡ count n (held gs) + own n g
unfolding count
held-append n [] none = refl
held-append n [] (some conn) = omega arith
held-append n (none ∷ gs) g = held-append n gs g
held-append n (some conn ∷ gs) g = omega (arith, held-append n gs g)

-- A guard gives up what it owns.
held-without :
    (n i : ℕ) (gs : List (Option ℕ))
    → count n (held (with_conn i none gs)) + own n (conn_at i gs) ≡ count n (held gs)
unfolding count
held-without n i [] = refl
held-without n zero (none ∷ gs) = omega arith
held-without n zero (some conn ∷ gs) = omega arith
held-without n (suc i) (none ∷ gs) = held-without n i gs
held-without n (suc i) (some conn ∷ gs) = omega (arith, held-without n i gs)

held-with :
    (n i : ℕ) (c : Option ℕ) (gs : List (Option ℕ))
    → i < length gs
    → count n (held (with_conn i c gs)) + own n (conn_at i gs) ≡ count n (held gs) + own n c
unfolding count
held-with n i c [] h = absurd (omega (arith, h))
held-with n zero none (none ∷ gs) h = refl
held-with n zero none (some conn ∷ gs) h = omega arith
held-with n zero (some d) (none ∷ gs) h = omega arith
held-with n zero (some d) (some conn ∷ gs) h = omega arith
held-with n (suc i) c (none ∷ gs) h = held-with n i c gs (omega (arith, h))
held-with n (suc i) c (some conn ∷ gs) h = omega (arith, held-with n i c gs (omega (arith, h)))

conn_at-without : (i : ℕ) (gs : List (Option ℕ)) → conn_at i (with_conn i none gs) ≡ none
conn_at-without i [] = refl
conn_at-without zero (g ∷ gs) = refl
conn_at-without (suc i) (g ∷ gs) = conn_at-without i gs

conn_at-other :
    (i j : ℕ) (c : Option ℕ) (gs : List (Option ℕ))
    → (i == j) ≡ false
    → conn_at j (with_conn i c gs) ≡ conn_at j gs
conn_at-other i j c [] h = refl
conn_at-other zero zero c (g ∷ gs) h = cc
conn_at-other zero (suc j) c (g ∷ gs) h = refl
conn_at-other (suc i) zero c (g ∷ gs) h = refl
conn_at-other (suc i) (suc j) c (g ∷ gs) h = conn_at-other i j c gs (ground (arith, h))

with_conn-length :
    (i : ℕ) (c : Option ℕ) (gs : List (Option ℕ)) → length (with_conn i c gs) ≡ length gs
with_conn-length i c [] = refl
with_conn-length zero c (g ∷ gs) = refl
with_conn-length (suc i) c (g ∷ gs) = ap suc (with_conn-length i c gs)

release-lent : (c : ℕ) (p : ConnectionPool) → (release c p).lent ≡ remove c p.lent
unfolding release close give_back
release-lent c p = ground arith

own_self : (conn : ℕ) → own conn (some conn) ≡ 1
own_self conn = ground arith

own-at :
    (i : ℕ) (gs : List (Option ℕ)) (conn : ℕ) → conn_at i gs ≡ some conn → 0 < count conn (held gs)
own-at i gs conn e = omega (arith, held-without conn i gs, ap (own conn) e, own_self conn)

reset-none : (i : ℕ) (s : Guards) → conn_at i (reset i s).guards ≡ none
unfolding reset
reset-none i s = conn_at-without i s.guards

reset-length : (i : ℕ) (s : Guards) → i < length s.guards → i < length (reset i s).guards
unfolding reset
reset-length i s b = omega (arith, b, with_conn-length i none s.guards)

module _ (rest : List ℕ) where
  construct-IsHeld :
      (conn : ℕ) (s : Guards) → IsHeld (conn ∷ rest) s → IsHeld rest (construct conn s)
  unfolding construct count
  construct-IsHeld conn s h n = omega (arith, h n, held-append n s.guards (some conn))

  lent_at :
      (i : ℕ) (s : Guards) (conn : ℕ)
      → IsHeld rest s
      → conn_at i s.guards ≡ some conn
      → 0 < count conn s.pool.lent
  lent_at i s conn h e = omega (arith, h conn, own-at i s.guards conn e)

  reset-IsHeld : (i : ℕ) (s : Guards) → IsHeld rest s → IsHeld rest (reset i s)
  unfolding reset
  reset-IsHeld i s h n = elim (Option-cases (conn_at i s.guards)) [
    | inl e ↦ rw e (omega (arith, h n, held-without n i s.guards, ap (own n) e))
    | inr (conn, e) ↦ rw e (
        omega (
          arith,
          h n,
          held-without n i s.guards,
          ap (own n) e,
          ap (count n) (release-lent conn s.pool),
          count-remove n conn s.pool.lent (lent_at i s conn h e),
        ))
  ]

  move_construct-IsHeld : (i : ℕ) (s : Guards) → IsHeld rest s → IsHeld rest (move_construct i s)
  unfolding move_construct
  move_construct-IsHeld i s h n = omega (
    arith,
    h n,
    held-append n (with_conn i none s.guards) (conn_at i s.guards),
    held-without n i s.guards,
  )

  take_over-IsHeld :
      (i other : ℕ) (s : Guards)
      → (i == other) ≡ false
      → i < length s.guards
      → conn_at i s.guards ≡ none
      → IsHeld rest s
      → IsHeld rest (take_over i other s)
  take_over-IsHeld i other s d b e h n = omega (
    arith,
    h n,
    held-with n i (conn_at other s.guards) s.guards b,
    held-without n other (with_conn i (conn_at other s.guards) s.guards),
    ap (own n) (conn_at-other i other (conn_at other s.guards) s.guards d),
    ap (own n) e,
  )

  -- The guard that is assigned to is one of the thread's.
  abbrev pub IsUse : Use → Guards → Type 0
  IsUse (assigns i other) s = i < length s.guards
  IsUse u s = Unit

  abbrev pub AllUse : List Use → Guards → Type 0
  AllUse [] s = Unit
  AllUse (u ∷ us) s = IsUse u s × AllUse us (use_guard u s)

  use_guard-IsHeld :
      (u : Use) (s : Guards) → IsUse u s → IsHeld rest s → IsHeld rest (use_guard u s)
  unfolding use_guard move_assign
  use_guard-IsHeld (moves_in other) s b h = move_construct-IsHeld other s h
  use_guard-IsHeld (ends i) s b h = reset-IsHeld i s h
  use_guard-IsHeld (assigns i other) s b h = elim (Bool-cases (i == other)) [
    | inl e ↦ rw e h
    | inr e ↦ rw e (
        take_over-IsHeld i other (reset i s) e (reset-length i s b) (reset-none i s)
          (reset-IsHeld i s h))
  ]

  -- Whatever a thread does with its guards, each lent connection stays owned by one of them, or in
  -- the other hands that hold it.
  pub use_guards-IsHeld :
      (us : List Use) (s : Guards) → AllUse us s → IsHeld rest s → IsHeld rest (use_guards us s)
  unfolding use_guards
  use_guards-IsHeld [] s b h = h
  use_guards-IsHeld (u ∷ us) s (b, bs) h =
      use_guards-IsHeld us (use_guard u s) bs (use_guard-IsHeld u s b h)

  reset-IsLedger :
      (i : ℕ) (s : Guards) → IsHeld rest s → IsLedger s.pool → IsLedger (reset i s).pool
  unfolding reset
  reset-IsLedger i s h l = elim (Option-cases (conn_at i s.guards)) [
    | inl e ↦ rw e l
    | inr (conn, e) ↦ rw e (release-IsLedger conn s.pool (lent_at i s conn h e) l)
  ]

  use_guard-IsLedger :
      (u : Use) (s : Guards) → IsHeld rest s → IsLedger s.pool → IsLedger (use_guard u s).pool
  unfolding use_guard move_construct move_assign
  use_guard-IsLedger (moves_in other) s h l = l
  use_guard-IsLedger (ends i) s h l = reset-IsLedger i s h l
  use_guard-IsLedger (assigns i other) s h l = elim (Bool-cases (i == other)) [
    | inl e ↦ rw e l
    | inr e ↦ rw e (reset-IsLedger i s h l)
  ]

  use_guards-IsLedger :
      (us : List Use) (s : Guards)
      → AllUse us s
      → IsHeld rest s
      → IsLedger s.pool
      → IsLedger (use_guards us s).pool
  unfolding use_guards
  use_guards-IsLedger [] s b h l = l
  use_guards-IsLedger (u ∷ us) s (b, bs) h l =
      use_guards-IsLedger us (use_guard u s) bs (use_guard-IsHeld u s b h)
        (use_guard-IsLedger u s h l)

  end_guards-IsHeld : (n : ℕ) (s : Guards) → IsHeld rest s → IsHeld rest (end_guards n s)
  unfolding end_guards
  end_guards-IsHeld zero s h = h
  end_guards-IsHeld (suc n) s h = end_guards-IsHeld n (reset n s) (reset-IsHeld n s h)

  end_guards-IsLedger :
      (n : ℕ) (s : Guards) → IsHeld rest s → IsLedger s.pool → IsLedger (end_guards n s).pool
  unfolding end_guards
  end_guards-IsLedger zero s h l = l
  end_guards-IsLedger (suc n) s h l =
      end_guards-IsLedger n (reset n s) (reset-IsHeld n s h) (reset-IsLedger n s h l)

count-nil : (n : ℕ) → count n [] ≡ 0
unfolding count
count-nil n = refl

-- The guards behind the first n own nothing.
abbrev IsEndedFrom : ℕ → Guards → Type 0
IsEndedFrom n s = held (drop n s.guards) ≡ []

drop-without :
    (n : ℕ) (gs : List (Option ℕ))
    → held (drop (suc n) gs) ≡ []
    → held (drop n (with_conn n none gs)) ≡ []
drop-without zero [] h = h
drop-without (suc n) [] h = h
drop-without zero (g ∷ gs) h = h
drop-without (suc n) (g ∷ gs) h = drop-without n gs h

end_guards-none : (n : ℕ) (s : Guards) → IsEndedFrom n s → held (end_guards n s).guards ≡ []
unfolding end_guards reset
end_guards-none zero s h = h
end_guards-none (suc n) s h = end_guards-none n (reset n s) (drop-without n s.guards h)

drop_all : (gs : List (Option ℕ)) → held (drop (length gs) gs) ≡ []
drop_all [] = refl
drop_all (none ∷ gs) = drop_all gs
drop_all (some conn ∷ gs) = drop_all gs

-- A thread owns what was lent to it by its guards, other hands hold rest, and each connection of the
-- pool is in one place, once. Whatever the thread does with the guards, where it assigns to guards
-- that there are: once they have ended, exactly what the other hands hold is lent, and each connection
-- is still in one place, once.
pub end_guards-returns :
    (rest : List ℕ) (us : List Use) (s : Guards)
    → AllUse rest us s
    → IsHeld rest s
    → IsLedger s.pool
    → (let t = use_guards us s in
        let e = end_guards (length t.guards) t in
        ((n : ℕ) → count n e.pool.lent ≡ count n rest) × IsLedger e.pool)
end_guards-returns rest us s b h l =
    let t = use_guards us s in
    let k = use_guards-IsHeld rest us s b h in
    (
      (λ n. omega (
        arith,
        end_guards-IsHeld rest (length t.guards) t k n,
        ap (count n) (end_guards-none (length t.guards) t (drop_all t.guards)),
        count-nil n,
      )),
      end_guards-IsLedger rest (length t.guards) t k (use_guards-IsLedger rest us s b h l),
    )
