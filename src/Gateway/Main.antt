-- ===== src/Gateway/Main.antt =====
-- gateway/main.cpp: resolveEnvPath and main, in the order of its calls. What the calls do is given.
pub mod Ends
use paid_server.Base.{
  ℕ, ◌≡◌, refl, inl, inr, Text, text, empty, Bool, true, false, List, [], ◌∷◌, if◌then◌else◌,
  Bool-cases,
}

-- What is thrown: a std::exception, with its text, or something else.
pub data Thrown : Type 0 where
  exception : Text → Thrown
  unknown : Thrown

-- How a call ends. The process may end in it by std::terminate.
pub data Ending (A : Type 0) : Type 0 where
  done : A → Ending A
  raises : Thrown → Ending A
  terminated : Ending A

-- An action on the state of main: whether ws_thread is joinable.
abbrev pub Action : Type 0 → Type 0
Action A = Bool → Ending A × Bool

-- What follows a call is run where the call is done.
abbrev pub after : {A B : Type 0} → Ending A × Bool → (A → Action B) → Ending B × Bool
after (done a, joinable) next = next a joinable
after (raises x, joinable) next = (raises x, joinable)
after (terminated, joinable) next = (terminated, joinable)

infixl 5 ◌>>=◌ ◌>>◌
abbrev pub ◌>>=◌ : {A B : Type 0} → Action A → (A → Action B) → Action B
◌>>=◌ m next joinable = after (m joinable) next

abbrev pub ◌>>◌ : {A B : Type 0} → Action A → Action B → Action B
m >> k = m >>= λ _. k

-- A call that leaves the thread as it is.
abbrev pub call : {A : Type 0} → Ending A → Action A
call r b = (r, b)

-- The argument vector: its first element is the name of the program.
unfoldable pub resolve_env_path : List Text → Ending Text
resolve_env_path (name ∷ env_path ∷ args) =
    if empty env_path then raises (exception (text "环境变量文件路径为空")) else done env_path
resolve_env_path args = raises (exception (text "未指定环境变量文件路径"))

-- How the calls end.
pub record Calls : Type 0 where
  -- loadFromEnvFile, of the file named.
  pub load : Text → Ending (Unit {0})
  -- Logger::init, and the first messages.
  pub log : Ending (Unit {0})
  -- SessionStore::initFromConfig.
  pub session_store : Ending (Unit {0})
  -- paymentGateway(), httpServer() and wsMaxConnections(), and the options made of them.
  pub options : Ending (Unit {0})
  -- WorkerPool::init.
  pub workers : Ending (Unit {0})
  -- installShutdownHandlers, and the message that the servers start.
  pub handlers : Ending (Unit {0})
  -- The constructor of std::thread.
  pub thread : Ending (Unit {0})
  -- runWebSocketServer, in that thread.
  pub web_socket : Ending (Unit {0})
  -- Server::run.
  pub http : Ending (Unit {0})
  -- The message that the servers have stopped.
  pub stopped : Ending (Unit {0})

abbrev started : Ending (Unit {0}) → Action (Unit {0})
started (done u) b = (done u, true)
started (raises x) b = (raises x, b)
started terminated b = (terminated, b)

-- An exception that leaves the function of a thread calls std::terminate.
abbrev thread_ends : Ending (Unit {0}) → Ending (Unit {0})
thread_ends (done u) = done u
thread_ends (raises x) = terminated
thread_ends terminated = terminated

-- if (ws_thread.joinable()) { ws_thread.join(); }, which waits for the end of the thread.
abbrev join_thread : Ending (Unit {0}) → Action (Unit {0})
join_thread web_socket false = (done tt, false)
join_thread web_socket true = (thread_ends web_socket, false)

-- What comes before the thread of the WebSocket server is started.
unfoldable pub prepare : List Text → Calls → Action (Unit {0})
unfolding resolve_env_path
prepare argv calls = do
  env_path ← call (resolve_env_path argv)
  call (calls.load env_path)
  call calls.log
  call calls.session_store
  call calls.options
  call calls.workers
  call calls.handlers

-- g_running.store(false), which ends the thread once Server::run has returned, is between the two calls
-- that are given for the servers.
unfoldable pub run_servers : Calls → Action (Unit {0})
run_servers calls = do
  started calls.thread
  call calls.http
  join_thread calls.web_socket
  call calls.stopped

-- The end of the block of try: the destructor of ws_thread calls std::terminate if it is joinable.
abbrev leave_block : {A : Type 0} → Ending A × Bool → Ending A
leave_block (r, false) = r
leave_block (r, true) = terminated

pub data Exit : Type 0 where
  returns : ℕ → Exit
  terminates : Exit

-- The two handlers, and the return behind them.
abbrev caught : Ending (Unit {0}) → Exit
caught (done u) = returns 0
caught (raises (exception what)) = returns 1
caught (raises unknown) = returns 2
caught terminated = terminates

unfoldable pub main : List Text → Calls → Exit
unfolding prepare run_servers
main argv calls = caught (leave_block ((prepare argv calls >> run_servers calls) false))
