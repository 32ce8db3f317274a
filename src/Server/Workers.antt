-- ===== src/Server/Workers.antt =====
-- backend/common/thread_pool.hpp: the tasks of a WorkerPool are run in the order of submit(), and
-- none is left when a worker ends.
use paid_server.Base.{
  ◌≡◌, refl, sym, ap, ◌∙◌, Bool, true, false, List, [], ◌∷◌, ◌++◌, if◌then◌else◌, arith, Bool-cases,
  inl, inr,
}
use mathlib.Core.List.{append_assoc, append-nil}
use paid_server.Interfaces.{ℤ}
use paid_server.Server.{
  WorkerPool, start, init, submit, stop_workers, Turn, returns, runs, turn, worker_turn,
}

-- Whether submit() puts the task in the queue.
abbrev pub takes : {Task : Type 0} → WorkerPool Task → Task → List Task
takes p task = if p.initialized then (if p.stop then [] else task ∷ []) else []

abbrev pub started : {Task : Type 0} → Turn Task → List Task
started (runs task) = task ∷ []
started t = []

-- The states of a pool, with the tasks that submit() has taken and those that workers have started,
-- in order.
pub data Reach {Task : Type 0} : WorkerPool Task → List Task → List Task → Type 0 where
  begin : Reach start [] []
  init_step :
      {p : WorkerPool Task} {taken run : List Task} (n : ℤ)
      → Reach p taken run
      → Reach (init n p) taken run
  submit_step :
      {p : WorkerPool Task} {taken run : List Task} (task : Task)
      → Reach p taken run
      → Reach (submit task p).1 (taken ++ takes p task) run
  stop_step :
      {p : WorkerPool Task} {taken run : List Task}
      → Reach p taken run
      → Reach (stop_workers p) taken run
  turn_step :
      {p : WorkerPool Task} {taken run : List Task}
      → Reach p taken run
      → Reach (worker_turn p).1 taken (run ++ started (worker_turn p).0)

module _ {Task : Type 0} where
  init_tasks : (n : ℤ) (p : WorkerPool Task) → (init n p).tasks ≡ p.tasks
  unfolding init
  init_tasks n p = ground arith

  submit_tasks :
      (task : Task) (p : WorkerPool Task) → (submit task p).1.tasks ≡ p.tasks ++ takes p task
  unfolding submit
  submit_tasks task p = elim (Bool-cases p.initialized) [
    | inr e ↦ rw e (sym (append-nil p.tasks))
    | inl e ↦ elim (Bool-cases p.stop) [
      | inl s ↦ rw (e, s) (sym (append-nil p.tasks))
      | inr s ↦ rw (e, s) refl
    ]
  ]

  turn_tasks :
      (stop : Bool) (tasks : List Task) (p : WorkerPool Task)
      → p.tasks ≡ tasks
      → started (turn stop tasks p).0 ++ (turn stop tasks p).1.tasks ≡ tasks
  turn_tasks true [] p e = e
  turn_tasks false [] p e = e
  turn_tasks true (t ∷ ts) p e = refl
  turn_tasks false (t ∷ ts) p e = refl

  -- However the threads interleave, the workers have started the tasks that submit() took in the
  -- order in which it took them, and the queue holds the others, in that order.
  pub Reach-tasks :
      {p : WorkerPool Task} {taken run : List Task} → Reach p taken run → run ++ p.tasks ≡ taken
  unfolding start stop_workers worker_turn
  Reach-tasks begin = refl
  Reach-tasks (init_step {p = p} {run = run} n r) =
      ap (λ ts. run ++ ts) (init_tasks n p) ∙ Reach-tasks r
  Reach-tasks (submit_step {p = p} {run = run} task r) =
      ap (λ ts. run ++ ts) (submit_tasks task p)
      ∙ sym (append_assoc run p.tasks (takes p task))
      ∙ ap (λ ts. ts ++ takes p task) (Reach-tasks r)
  Reach-tasks (stop_step r) = Reach-tasks r
  Reach-tasks (turn_step {p = p} {run = run} r) =
      append_assoc run _ _ ∙ ap (λ ts. run ++ ts) (turn_tasks p.stop p.tasks p refl) ∙ Reach-tasks r

  returns_empty :
      (stop : Bool) (tasks : List Task) (p : WorkerPool Task)
      → (turn stop tasks p).0 ≡ returns
      → (stop ≡ true) × (tasks ≡ [])
  returns_empty true [] p e = (refl, refl)
  returns_empty false [] p e = cc
  returns_empty true (t ∷ ts) p e = cc
  returns_empty false (t ∷ ts) p e = cc

  -- A worker leaves its loop only when the pool is stopped and each task that submit() took has been
  -- started.
  worker_returns :
      {p : WorkerPool Task} {taken run : List Task}
      → Reach p taken run
      → (worker_turn p).0 ≡ returns
      → (p.stop ≡ true) × (run ≡ taken)
  unfolding worker_turn
  worker_returns {p = p} {run = run} r e =
      let (s, n) = returns_empty p.stop p.tasks p e in
      (s, sym (append-nil run) ∙ sym (ap (λ ts. run ++ ts) n) ∙ Reach-tasks r)
