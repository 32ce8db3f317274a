-- ===== src/Server.antt =====
-- backend/common/http_server.hpp: Server, and backend/common/thread_pool.hpp: WorkerPool. The files
-- of the gateway have the same text but for the address of the client.
pub mod Workers
pub mod Slots
pub mod WebSockets
pub mod Listen
pub mod Stopped
mod Tests
use paid_server.Base.{
  ℕ, zero, suc, ◌+◌, ◌-◌, Text, text, Bool, true, false, not, ◌||◌, ◌&&◌, List, [], ◌∷◌, ◌++◌, ltb,
  leb, if◌then◌else◌,
}
use paid_server.Database.Monad.{Result, ok, throws}
use paid_server.Interfaces.{ℤ, pos, negsuc}

pub record WorkerPool (Task : Type 0) : Type 0 where
  pub worker_count : ℕ
  pub initialized : Bool
  pub stop : Bool
  -- The queue, its front first.
  pub tasks : List Task

-- At least four workers.
unfoldable pub worker_count_of : ℤ → ℕ
worker_count_of (pos n) = if ltb n 4 then 4 else n
worker_count_of (negsuc n) = 4

module _ {Task : Type 0} where
  unfoldable pub start : WorkerPool Task
  start = record { worker_count = 0; initialized = false; stop = false; tasks = [] }

  unfoldable pub init : ℤ → WorkerPool Task → WorkerPool Task
  init worker_count p =
      if p.initialized
      then p
      else record p { worker_count = worker_count_of worker_count; initialized = true }

  unfoldable pub submit : Task → WorkerPool Task → Result (Unit {0}) × WorkerPool Task
  submit task p =
      if not p.initialized
      then (throws (text "payment_http::WorkerPool 未初始化"), p)
      else if p.stop
      then (ok tt, p)
      else (ok tt, record p { tasks = p.tasks ++ task ∷ [] })

  -- The destructor, before it joins the workers.
  unfoldable pub stop_workers : WorkerPool Task → WorkerPool Task
  stop_workers p = record p { stop = true }

-- What a worker does when it has the mutex: it waits on, leaves its loop, or runs a task.
pub data Turn (Task : Type 0) : Type 0 where
  waits returns : Turn Task
  runs : Task → Turn Task

module _ {Task : Type 0} where
  abbrev pub turn : Bool → List Task → WorkerPool Task → Turn Task × WorkerPool Task
  turn true [] p = (returns, p)
  turn false [] p = (waits, p)
  turn stop (task ∷ tasks) p = (runs task, record p { tasks = tasks })

  -- workerLoop(): the part under the mutex.
  unfoldable pub worker_turn : WorkerPool Task → Turn Task × WorkerPool Task
  worker_turn p = turn p.stop p.tasks p

-- active_connections_, with the count that fetch_add leaves.
unfoldable pub release_connection_slot : ℕ → ℕ
release_connection_slot active = active - 1

-- The first half of tryAcquireConnectionSlot(): the new count, and whether it is within the bound.
unfoldable pub claim_connection_slot : ℕ → ℕ → Bool × ℕ
claim_connection_slot max active = (leb (active + 1) max, active + 1)
