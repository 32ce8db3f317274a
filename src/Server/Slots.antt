-- ===== src/Server/Slots.antt =====
-- backend/common/http_server.hpp: the bound on the connections that are served at once.
use paid_server.Base.{ℕ, ◌+◌, ◌-◌, ◌≤◌, ◌<◌, ◌≡◌, if◌then◌else◌, arith}
use paid_server.Server.{claim_connection_slot, release_connection_slot}

-- The connections that wait in the queue of tasks and those that a worker serves. `refused` is one
-- while the loop of run() is about to undo the count of a connection that it refuses.
pub record Slots : Type 0 where
  pub active : ℕ
  pub waiting : ℕ
  pub served : ℕ
  pub refused : ℕ

unfoldable pub start : Slots
start = record { active = 0; waiting = 0; served = 0; refused = 0 }

-- tryAcquireConnectionSlot() up to its test; where it succeeds, the connection is submitted.
unfoldable pub accept : ℕ → Slots → Slots
unfolding claim_connection_slot
accept max s =
    let (within, active) = claim_connection_slot max s.active in
    if within
    then record s { active = active; waiting = s.waiting + 1 }
    else record s { active = active; refused = 1 }

-- The steps of the loop of run() and of the workers.
pub data Step (max : ℕ) : Slots → Slots → Type 0 where
  accept_step : {s : Slots} → s.refused ≡ 0 → Step max s (accept max s)
  undo_step :
      {s : Slots}
      → s.refused ≡ 1
      → Step max s (record s { active = release_connection_slot s.active; refused = 0 })
  serve_step :
      {s : Slots}
      → 0 < s.waiting
      → Step max s (record s { waiting = s.waiting - 1; served = s.served + 1 })
  finish_step :
      {s : Slots}
      → 0 < s.served
      → Step max s (record s { active = release_connection_slot s.active; served = s.served - 1 })

pub data Reach (max : ℕ) : Slots → Type 0 where
  begin : Reach max start
  next : {s t : Slots} → Reach max s → Step max s t → Reach max t

-- The count is right, and the bound holds.
pub record IsBounded (max : ℕ) (s : Slots) : Type 0 where
  pub counted : s.active ≡ s.waiting + s.served + s.refused
  pub bounded : s.waiting + s.served ≤ max

accept-IsBounded :
    (max : ℕ) (s : Slots) → s.refused ≡ 0 → IsBounded max s → IsBounded max (accept max s)
unfolding accept claim_connection_slot
accept-IsBounded max s e h = record {
  counted = ground (arith, e, h.counted);
  bounded = ground (arith, e, h.counted, h.bounded);
}

Step-IsBounded : {max : ℕ} {s t : Slots} → Step max s t → IsBounded max s → IsBounded max t
unfolding release_connection_slot
Step-IsBounded {max = max} {s = s} (accept_step e) h = accept-IsBounded max s e h
Step-IsBounded (undo_step e) h = record {
  counted = omega (arith, e, h.counted);
  bounded = h.bounded;
}
Step-IsBounded (serve_step w) h = record {
  counted = omega (arith, w, h.counted);
  bounded = omega (arith, w, h.bounded);
}
Step-IsBounded (finish_step w) h = record {
  counted = omega (arith, w, h.counted);
  bounded = omega (arith, w, h.bounded);
}

-- However the loop that accepts and the workers interleave, active_connections_ is the number of
-- connections that wait or are served, with the one that is being refused, and no more than
-- max_concurrent_connections wait or are served.
pub slots-IsBounded : {max : ℕ} {s : Slots} → Reach max s → IsBounded max s
unfolding start
slots-IsBounded begin = record { counted = omega arith; bounded = omega arith }
slots-IsBounded (next r st) = Step-IsBounded st (slots-IsBounded r)
