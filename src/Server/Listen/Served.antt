-- ===== src/Server/Listen/Served.antt =====
-- gateway/common/http_server.hpp: each connection that the server accepts is closed once, and no more
-- than the bound are open, however the loop of run() and the workers take turns.
use paid_server.Base.{
  ℕ, ◌+◌, ◌-◌, ◌≤◌, ◌≡◌, refl, ap, Text, Bool, true, false, List, [], ◌∷◌, ◌++◌, arith, ◌==◌,
  if◌then◌else◌, length, length-append, Bool-cases, inl, inr,
}
use paid_server.Database.Monad.{Result, ok}
use paid_server.Interfaces.{ℤ, pos, negsuc}
use paid_server.Server
use paid_server.Server.{WorkerPool, init, Turn, runs, turn, worker_turn}
use paid_server.Server.Listen.{
  Options, Task, Listener, close, submit, set_read_timeout, release_connection_slot,
  try_acquire_connection_slot, within, take_connection, run_task,
}

abbrev pub count : ℕ → List ℕ → ℕ
count fd [] = 0
count fd (x ∷ xs) = (if x == fd then 1 else 0) + count fd xs

abbrev pub fds : List Task → List ℕ
fds [] = []
fds (t ∷ ts) = t.client_fd ∷ fds ts

-- The server before it accepts anything.
abbrev pub ready : ℤ → Listener
ready worker_count = record {
  active = 0;
  pool = init worker_count Server.start;
  closed = [];
  timeouts = [];
}

-- The descriptors that ::accept gave, the state of the handler and of the server, and the tasks that
-- workers run. The pool is stopped only after run() has returned.
pub data Reach {W : Type 0} (options : Options) (handler : ℕ → Text → W → Result (Unit {0}) × W)
    : List ℕ → W × Listener → List Task → Type 0 where
  begin : (worker_count : ℤ) (w : W) → Reach options handler [] (w, ready worker_count) []
  take_step :
      {given : List ℕ} {w : W} {l : Listener} {serving : List Task} (fd : ℕ) (ip : Text)
      → Reach options handler given (w, l) serving
      → Reach options handler (fd ∷ given) (w, (take_connection options fd ip l).1) serving
  start_step :
      {given : List ℕ} {w : W} {l : Listener} {serving : List Task} {task : Task}
      → (worker_turn l.pool).0 ≡ runs task
      → Reach options handler given (w, l) serving
      → Reach options handler given (w, record l { pool = (worker_turn l.pool).1 }) (task ∷ serving)
  finish_step :
      {given : List ℕ} {s : W × Listener} (before later : List Task) (task : Task)
      → Reach options handler given s (before ++ task ∷ later)
      → Reach options handler given (run_task handler task s) (before ++ later)

abbrev pub bound_of : ℤ → ℕ
bound_of (pos max) = max
bound_of (negsuc n) = 0

-- Each descriptor that was accepted waits for a worker, is served, or was closed, as often as it was
-- accepted; the count of connections is that of those that are open, and within the bound.
pub record IsServed (options : Options) (given : List ℕ) (l : Listener) (serving : List Task)
    : Type 0 where
  pub once :
      (fd : ℕ)
      → count fd given ≡ count fd (fds l.pool.tasks) + count fd (fds serving) + count fd l.closed
  pub counted : l.active ≡ length l.pool.tasks + length serving
  pub bounded : l.active ≤ bound_of options.max_concurrent_connections
  pub initialized : l.pool.initialized ≡ true
  pub going : l.pool.stop ≡ false

count-append :
    (fd : ℕ) (xs ys : List Task) → count fd (fds (xs ++ ys)) ≡ count fd (fds xs) + count fd (fds ys)
count-append fd [] ys = omega arith
count-append fd (x ∷ xs) ys = omega (arith, count-append fd xs ys)

ready-IsServed : (options : Options) (n : ℤ) → IsServed options [] (ready n) []
unfolding init Server.start
ready-IsServed options n = record {
  once = λ fd. refl;
  counted = refl;
  bounded = omega arith;
  initialized = refl;
  going = refl;
}

less_one : (n : ℕ) → n + 1 - 1 ≡ n
less_one n = omega arith

within-bound_of : (max : ℤ) (n : ℕ) → within max n ≡ true → n ≤ bound_of max
within-bound_of (pos m) n e = ground arith
within-bound_of (negsuc m) n e = cc

module _ (options : Options) (fd : ℕ) (ip : Text) where
  abbrev new_task : Task
  new_task = record { client_fd = fd; peer_ip = ip }

  submit-going :
      (task : Task) (p : WorkerPool Task)
      → p.initialized ≡ true
      → p.stop ≡ false
      → submit task p ≡ (ok tt, record p { tasks = p.tasks ++ task ∷ [] })
  unfolding submit
  submit-going task p i g = rw (i, g) refl

  -- The loop refuses the connection, or hands it over.
  take_refused :
      (l : Listener)
      → within options.max_concurrent_connections (l.active + 1) ≡ false
      → take_connection options fd ip l ≡ (ok tt, close fd l)
  unfolding take_connection try_acquire_connection_slot release_connection_slot
  take_refused l e =
      rw e (ap (λ n. (ok tt, close fd (record l { active = n }))) (less_one l.active))

  take_handed :
      (l : Listener)
      → within options.max_concurrent_connections (l.active + 1) ≡ true
      → l.pool.initialized ≡ true
      → l.pool.stop ≡ false
      → take_connection options fd ip l ≡ (
        ok tt,
        record (set_read_timeout options fd (record l { active = l.active + 1 })) {
          pool = record l.pool { tasks = l.pool.tasks ++ new_task ∷ [] };
        },
      )
  unfolding take_connection try_acquire_connection_slot
  take_handed l e i g = rw (e, submit-going new_task l.pool i g) refl

  set_read_timeout-keeps :
      (l : Listener)
      → ((set_read_timeout options fd l).active ≡ l.active)
        × ((set_read_timeout options fd l).closed ≡ l.closed)
  unfolding set_read_timeout
  set_read_timeout-keeps l = ground arith

  refused-IsServed :
      {given : List ℕ} {l : Listener} {serving : List Task}
      → IsServed options given l serving
      → IsServed options (fd ∷ given) (close fd l) serving
  unfolding close
  refused-IsServed h = record {
    once = λ f. omega (arith, h.once f);
    counted = h.counted;
    bounded = h.bounded;
    initialized = h.initialized;
    going = h.going;
  }

  -- The server once the connection is handed over.
  abbrev handed : Listener → Listener
  handed l = record (set_read_timeout options fd (record l { active = l.active + 1 })) {
    pool = record l.pool { tasks = l.pool.tasks ++ new_task ∷ [] };
  }

  handed-IsServed :
      {given : List ℕ} {l : Listener} {serving : List Task}
      → within options.max_concurrent_connections (l.active + 1) ≡ true
      → IsServed options given l serving
      → IsServed options (fd ∷ given) (handed l) serving
  handed-IsServed {l = l} e h =
      let (active, closed) = set_read_timeout-keeps (record l { active = l.active + 1 }) in
      record {
        once =
            λ f. rw closed (omega (arith, h.once f, count-append f l.pool.tasks (new_task ∷ [])));
        counted = rw active (omega (arith, h.counted, length-append l.pool.tasks (new_task ∷ [])));
        bounded = rw active (within-bound_of options.max_concurrent_connections (l.active + 1) e);
        initialized = h.initialized;
        going = h.going;
      }

  pub take_connection-IsServed :
      {given : List ℕ} {l : Listener} {serving : List Task}
      → IsServed options given l serving
      → ((take_connection options fd ip l).0 ≡ ok tt)
        × IsServed options (fd ∷ given) (take_connection options fd ip l).1 serving
  take_connection-IsServed {l = l} h =
      elim (Bool-cases (within options.max_concurrent_connections (l.active + 1))) [
        | inr e ↦ rw (take_refused l e) (refl, refused-IsServed h)
        | inl e ↦ rw (take_handed l e h.initialized h.going) (refl, handed-IsServed e h)
      ]

-- A worker that runs a task took it from the front of the queue.
turn_runs :
    (task : Task) (stop : Bool) (ts : List Task) (p : WorkerPool Task)
    → (turn stop ts p).0 ≡ runs task
    → (rest : List Task) × (ts ≡ task ∷ rest) × ((turn stop ts p).1 ≡ record p { tasks = rest })
turn_runs task true [] p e = cc
turn_runs task false [] p e = cc
turn_runs task true (t ∷ ts) p e = (ts, cc, refl)
turn_runs task false (t ∷ ts) p e = (ts, cc, refl)

module _ {options : Options} {given : List ℕ} where
  start_step-IsServed :
      {l : Listener} {serving : List Task} {task : Task}
      → (worker_turn l.pool).0 ≡ runs task
      → IsServed options given l serving
      → IsServed options given (record l { pool = (worker_turn l.pool).1 }) (task ∷ serving)
  unfolding worker_turn
  start_step-IsServed {l = l} {task = task} e h =
      let (rest, front, left) = turn_runs task l.pool.stop l.pool.tasks l.pool e in
      rw left (record {
        once = λ f. omega (arith, h.once f, ap (λ ts. count f (fds ts)) front);
        counted = omega (arith, h.counted, ap length front);
        bounded = h.bounded;
        initialized = h.initialized;
        going = h.going;
      })

  finish_step-IsServed :
      {W : Type 0} (handler : ℕ → Text → W → Result (Unit {0}) × W) (w : W) (l : Listener)
      (before later : List Task) (task : Task)
      → IsServed options given l (before ++ task ∷ later)
      → IsServed options given (run_task handler task (w, l)).1 (before ++ later)
  unfolding run_task close release_connection_slot
  finish_step-IsServed handler w l before later task h = record {
    once = λ f.
        omega (arith, h.once f, count-append f before (task ∷ later), count-append f before later);
    counted =
        omega (arith, h.counted, length-append before (task ∷ later), length-append before later);
    bounded = omega (arith, h.bounded);
    initialized = h.initialized;
    going = h.going;
  }

every-IsServed :
    {W : Type 0} {options : Options} {handler : ℕ → Text → W → Result (Unit {0}) × W}
    {given : List ℕ} {s : W × Listener} {serving : List Task}
    → Reach options handler given s serving
    → IsServed options given s.1 serving
every-IsServed {options = options} (begin n w) = ready-IsServed options n
every-IsServed {options = options} (take_step fd ip r) =
    (take_connection-IsServed options fd ip (every-IsServed r)).1
every-IsServed (start_step e r) = start_step-IsServed e (every-IsServed r)
every-IsServed {handler = handler} (finish_step {s = (w, l)} before later task r) =
    finish_step-IsServed handler w l before later task (every-IsServed r)

-- However the loop of run() and the workers take turns, from a pool of any size and with whatever the
-- handler does: each descriptor that was accepted is in the queue, is being served, or was given to
-- ::close, as often as it was accepted; the count of connections is the number of those that are
-- queued or served, and is within the bound; and the next connection throws nothing in run().
pub Reach-IsServed :
    {W : Type 0} {options : Options} {handler : ℕ → Text → W → Result (Unit {0}) × W}
    {given : List ℕ} {s : W × Listener} {serving : List Task}
    → Reach options handler given s serving
    → IsServed options given s.1 serving
      × ((fd : ℕ) (ip : Text) → (take_connection options fd ip s.1).0 ≡ ok tt)
Reach-IsServed {options = options} r =
    (every-IsServed r, λ fd ip. (take_connection-IsServed options fd ip (every-IsServed r)).0)

-- Once the queue is empty and no worker has a task, each connection is closed as often as it was
-- accepted, and the count of connections is zero.
pub Reach-closed :
    {W : Type 0} {options : Options} {handler : ℕ → Text → W → Result (Unit {0}) × W}
    {given : List ℕ} {w : W} {l : Listener}
    → Reach options handler given (w, l) []
    → l.pool.tasks ≡ []
    → ((fd : ℕ) → count fd l.closed ≡ count fd given) × (l.active ≡ 0)
Reach-closed r e =
    let h = every-IsServed r in
    (
      (λ fd. omega (arith, h.once fd, ap (λ ts. count fd (fds ts)) e)),
      omega (arith, h.counted, ap length e),
    )
