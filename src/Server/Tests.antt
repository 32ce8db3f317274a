-- ===== src/Server/Tests.antt =====
-- The pool of workers, the slots and the WebSocket connections on short runs.
use paid_server.Base.{ℕ, ◌≡◌, refl, List, [], ◌∷◌, true, false, arith}
use paid_server.Interfaces.{pos}
use paid_server.Server.{WorkerPool, start, init, submit, worker_turn, worker_count_of}
use paid_server.Server.Workers.{Reach, begin, init_step, submit_step, turn_step, Reach-tasks}
use paid_server.Server.Stopped.{end_pool, end_pool-ends}
use paid_server.Server.Slots.{IsBounded, slots-IsBounded}
use paid_server.Server.Slots
use paid_server.Server.WebSockets.{ws_unbounded}
use paid_server.Server.WebSockets

abbrev both : List ℕ
both = 1 ∷ 2 ∷ []

-- Two tasks are submitted, and one is started.
abbrev one_started : WorkerPool ℕ
one_started = record { worker_count = 8; initialized = true; stop = false; tasks = 2 ∷ [] }

one_started-Reach : Reach one_started (1 ∷ 2 ∷ []) (1 ∷ [])
unfolding start init submit worker_turn worker_count_of
one_started-Reach = turn_step (submit_step 2 (submit_step 1 (init_step (pos 8) begin)))

Reach-tasks_example : 1 ∷ one_started.tasks ≡ 1 ∷ 2 ∷ []
Reach-tasks_example = Reach-tasks one_started-Reach

end_pool-ends_example :
    (let (tasks, workers, q) = end_pool 9 one_started in
      (workers ≡ 0) × (1 ∷ tasks ≡ 1 ∷ 2 ∷ []) × (q.tasks ≡ []))
end_pool-ends_example = end_pool-ends one_started-Reach refl

abbrev one_served : Slots.Slots
one_served = record { active = 2; waiting = 0; served = 1; refused = 1 }

one_served-Reach : Slots.Reach 1 one_served
unfolding Slots.start Slots.accept
one_served-Reach =
    Slots.next
      (Slots.next (Slots.next Slots.begin (Slots.accept_step refl))
        (Slots.serve_step (omega arith)))
      (Slots.accept_step refl)

slots-IsBounded_example : IsBounded 1 one_served
slots-IsBounded_example = slots-IsBounded one_served-Reach

ws_unbounded_example : WebSockets.Reach 2 (record { active = 100; spawned = 0; serving = 100 })
ws_unbounded_example = ws_unbounded 2 100 (omega arith)
