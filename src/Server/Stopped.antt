-- ===== src/Server/Stopped.antt =====
-- backend/common/thread_pool.hpp: ~WorkerPool(), which joins the workers, and workerLoop() until then.
use paid_server.Base.{
  ℕ, zero, suc, ◌+◌, ◌<◌, ◌≡◌, refl, sym, ap, ◌∙◌, Bool, true, false, List, [], ◌∷◌, ◌++◌, arith,
  length, Bool-cases, inl, inr,
}
use paid_server.Interfaces.{pos, negsuc}
use paid_server.Server.{
  WorkerPool, start, init, submit, worker_count_of, stop_workers, Turn, returns, turn, worker_turn,
}
use paid_server.Server.Workers.{
  Reach, begin, init_step, submit_step, stop_step, turn_step, started, Reach-tasks,
}

module _ {Task : Type 0} where
  -- The workers in the loop after a turn of one of them.
  abbrev still_working : Turn Task → ℕ → ℕ
  still_working returns zero = zero
  still_working returns (suc n) = n
  still_working t n = n

  -- The turns of the workers that are joined, in whatever order they take them: the tasks that they
  -- start, the workers that have not left the loop, and the pool.
  unfoldable pub join_workers : ℕ → ℕ → WorkerPool Task → List Task × ℕ × WorkerPool Task
  unfolding worker_turn
  join_workers zero workers p = ([], workers, p)
  join_workers (suc turns) zero p = ([], zero, p)
  join_workers (suc turns) (suc n) p =
      let (t, q) = worker_turn p in
      let (tasks, workers, r) = join_workers turns (still_working t (suc n)) q in
      (started t ++ tasks, workers, r)

  unfoldable pub end_pool : ℕ → WorkerPool Task → List Task × ℕ × WorkerPool Task
  unfolding stop_workers join_workers
  end_pool turns p = join_workers turns p.worker_count (stop_workers p)

  -- A pool whose destructor runs.
  abbrev stopped : ℕ → Bool → List Task → WorkerPool Task
  stopped worker_count initialized tasks = record {
    worker_count = worker_count;
    initialized = initialized;
    stop = true;
    tasks = tasks;
  }

  module _ (w : ℕ) (i : Bool) where
    join_workers-empty :
        (workers : ℕ) → join_workers workers workers (stopped w i []) ≡ ([], zero, stopped w i [])
    unfolding join_workers worker_turn
    join_workers-empty zero = refl
    join_workers-empty (suc n) = join_workers-empty n

    join_workers-tasks :
        (tasks : List Task) (turns workers : ℕ)
        → 0 < workers
        → turns ≡ length tasks + workers
        → join_workers turns workers (stopped w i tasks) ≡ (tasks, zero, stopped w i [])
    unfolding join_workers worker_turn
    join_workers-tasks tasks turns zero b e = absurd (omega (arith, b))
    join_workers-tasks [] turns (suc n) b e =
        ap (λ k. join_workers k (suc n) (stopped w i [])) {y = suc n} (omega (arith, e))
        ∙ join_workers-empty (suc n)
    join_workers-tasks (t ∷ ts) zero (suc n) b e = absurd (omega (arith, e))
    join_workers-tasks (t ∷ ts) (suc turns) (suc n) b e =
        ap (λ (tasks, workers, p). (t ∷ tasks, workers, p))
          (join_workers-tasks ts turns (suc n) b (omega (arith, e)))

  turn_kept :
      (stop : Bool) (tasks : List Task) (p : WorkerPool Task)
      → ((turn stop tasks p).1.initialized ≡ p.initialized)
        × ((turn stop tasks p).1.worker_count ≡ p.worker_count)
  turn_kept true [] p = (refl, refl)
  turn_kept false [] p = (refl, refl)
  turn_kept true (t ∷ ts) p = (refl, refl)
  turn_kept false (t ∷ ts) p = (refl, refl)

  submit_kept :
      (task : Task) (p : WorkerPool Task)
      → ((submit task p).1.initialized ≡ p.initialized)
        × ((submit task p).1.worker_count ≡ p.worker_count)
  unfolding submit
  submit_kept task p = elim (Bool-cases p.initialized) [
    | inr e ↦ rw e (refl, refl)
    | inl e ↦ elim (Bool-cases p.stop) [
      | inl s ↦ rw (e, s) (refl, refl)
      | inr s ↦ rw (e, s) (refl, refl)
    ]
  ]

  -- A pool that is initialized has a worker.
  Reach-worker :
      {p : WorkerPool Task} {taken run : List Task}
      → Reach p taken run
      → p.initialized ≡ true
      → 0 < p.worker_count
  unfolding start init submit stop_workers worker_turn worker_count_of
  Reach-worker begin i = cc
  Reach-worker (init_step {p = p} (pos n) r) i = elim (Bool-cases p.initialized) [
    | inl e ↦ rw e (Reach-worker r e)
    | inr e ↦ rw e (ground arith)
  ]
  Reach-worker (init_step {p = p} (negsuc n) r) i = elim (Bool-cases p.initialized) [
    | inl e ↦ rw e (Reach-worker r e)
    | inr e ↦ rw e (omega arith)
  ]
  Reach-worker (submit_step {p = p} task r) i =
      let (e, c) = submit_kept task p in rw c (Reach-worker r (sym e ∙ i))
  Reach-worker (stop_step r) i = Reach-worker r i
  Reach-worker (turn_step {p = p} r) i =
      let (e, c) = turn_kept p.stop p.tasks p in rw c (Reach-worker r (sym e ∙ i))

  -- However the threads have interleaved until the destructor of an initialized pool runs: all
  -- workers leave their loops after as many turns as there are workers and tasks in the queue, and
  -- each task that submit() took has then been started, once, in the order of submit().
  pub end_pool-ends :
      {p : WorkerPool Task} {taken run : List Task}
      → Reach p taken run
      → p.initialized ≡ true
      → (let (tasks, workers, q) = end_pool (length p.tasks + p.worker_count) p in
          (workers ≡ 0) × (run ++ tasks ≡ taken) × (q.tasks ≡ []))
  unfolding end_pool stop_workers
  end_pool-ends {p = p} {run = run} r i =
      let e =
        join_workers-tasks p.worker_count p.initialized p.tasks (length p.tasks + p.worker_count)
          p.worker_count (Reach-worker r i) refl in
      (ap (λ t. t.1) e, ap (λ t. run ++ t.0) e ∙ Reach-tasks r, ap (λ t. t.2.tasks) e)
