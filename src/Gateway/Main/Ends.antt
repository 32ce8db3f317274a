-- ===== src/Gateway/Main/Ends.antt =====
-- gateway/main.cpp: how main ends, as a table of its calls.
use paid_server.Base.{
  ◌≡◌, refl, inl, inr, Text, text, empty, Bool, true, false, List, [], ◌∷◌, if◌then◌else◌,
  Bool-cases,
}
use paid_server.Gateway.Main.{
  Thrown, exception, unknown, Ending, done, raises, terminated, Action, ◌>>◌, call,
  resolve_env_path, Calls, started, join_thread, prepare, run_servers, leave_block, Exit, returns,
  terminates, caught, main,
}

-- What a call that fails means for the process, as a table: outside of the time in which ws_thread is
-- joinable what it raises is caught, within that time it is not.
abbrev verdict_of : Bool → Thrown → Exit
verdict_of false (exception what) = returns 1
verdict_of false unknown = returns 2
verdict_of true x = terminates

-- The first call that fails decides.
abbrev pub verdict : List (Bool × Ending (Unit {0})) → Exit
verdict [] = returns 0
verdict ((joinable, done u) ∷ cs) = verdict cs
verdict ((joinable, raises x) ∷ cs) = verdict_of joinable x
verdict ((joinable, terminated) ∷ cs) = terminates

-- The calls with a file of settings, and whether ws_thread is joinable while they run.
abbrev pub timeline : Calls → Text → List (Bool × Ending (Unit {0}))
timeline calls env_path =
    (false, calls.load env_path)
    ∷ (false, calls.log)
    ∷ (false, calls.session_store)
    ∷ (false, calls.options)
    ∷ (false, calls.workers)
    ∷ (false, calls.handlers)
    ∷ (false, calls.thread)
    ∷ (true, calls.http)
    ∷ (true, calls.web_socket)
    ∷ (false, calls.stopped)
    ∷ []

-- The argument vector names the file.
abbrev pub timeline_of : Calls → List Text → List (Bool × Ending (Unit {0}))
timeline_of calls (name ∷ env_path ∷ args) =
    if empty env_path
    then (false, raises (exception (text "环境变量文件路径为空"))) ∷ []
    else timeline calls env_path
timeline_of calls args = (false, raises (exception (text "未指定环境变量文件路径"))) ∷ []

-- How the process ends when the rest of the block runs from a state.
abbrev ends : Action (Unit {0}) → Bool → Exit
ends m b = caught (leave_block (m b))

module _ (k : Action (Unit {0})) (cs : List (Bool × Ending (Unit {0}))) where
  call_before :
      (m : Action (Unit {0})) (c : Ending (Unit {0}))
      → ends (m >> k) false ≡ verdict cs
      → ends ((call c >> m) >> k) false ≡ verdict ((false, c) ∷ cs)
  call_before m (done u) e = e
  call_before m (raises (exception what)) e = refl
  call_before m (raises unknown) e = refl
  call_before m terminated e = refl

  call_outside :
      (c : Ending (Unit {0}))
      → ends k false ≡ verdict cs
      → ends (call c >> k) false ≡ verdict ((false, c) ∷ cs)
  call_outside (done u) e = e
  call_outside (raises (exception what)) e = refl
  call_outside (raises unknown) e = refl
  call_outside terminated e = refl

  thread_started :
      (c : Ending (Unit {0}))
      → ends k true ≡ verdict cs
      → ends (started c >> k) false ≡ verdict ((false, c) ∷ cs)
  thread_started (done u) e = e
  thread_started (raises (exception what)) e = refl
  thread_started (raises unknown) e = refl
  thread_started terminated e = refl

  call_within :
      (c : Ending (Unit {0}))
      → ends k true ≡ verdict cs
      → ends (call c >> k) true ≡ verdict ((true, c) ∷ cs)
  call_within (done u) e = e
  call_within (raises x) e = refl
  call_within terminated e = refl

  thread_joined :
      (c : Ending (Unit {0}))
      → ends k false ≡ verdict cs
      → ends (join_thread c >> k) true ≡ verdict ((true, c) ∷ cs)
  thread_joined (done u) e = e
  thread_joined (raises x) e = refl
  thread_joined terminated e = refl

call_last : (c : Ending (Unit {0})) → ends (call c) false ≡ verdict ((false, c) ∷ [])
call_last (done u) = refl
call_last (raises (exception what)) = refl
call_last (raises unknown) = refl
call_last terminated = refl

run_servers-ends :
    (calls : Calls)
    → ends (run_servers calls) false
      ≡ verdict (
          (false, calls.thread)
          ∷ (true, calls.http)
          ∷ (true, calls.web_socket)
          ∷ (false, calls.stopped)
          ∷ [])
unfolding run_servers
run_servers-ends calls =
    let last = call calls.stopped in
    let joined = join_thread calls.web_socket >> last in
    thread_started (call calls.http >> joined) _ calls.thread (
      call_within joined _ calls.http
        (thread_joined last _ calls.web_socket (call_last calls.stopped)))

-- The process ends as the first call that fails says. Outside of the time in which the thread of the
-- WebSocket server is joinable, which is between its start and its join, a std::exception gives the
-- exit status 1 and anything else that is thrown gives 2; within that time both end in
-- std::terminate, whichever of the two servers throws. Where no call fails the status is 0.
pub main-ends :
    (argv : List Text) (calls : Calls) → main argv calls ≡ verdict (timeline_of calls argv)
unfolding main prepare resolve_env_path
main-ends [] calls = refl
main-ends (name ∷ []) calls = refl
main-ends (name ∷ env_path ∷ args) calls = elim (Bool-cases (empty env_path)) [
  | inl e ↦ rw e refl
  | inr e ↦ rw e (
      let run = run_servers calls in
      let last = call calls.handlers in
      let workers = call calls.workers >> last in
      let options = call calls.options >> workers in
      let store = call calls.session_store >> options in
      call_before run _ (call calls.log >> store) (calls.load env_path) (
        call_before run _ store calls.log (
          call_before run _ options calls.session_store (
            call_before run _ workers calls.options (
              call_before run _ last calls.workers
                (call_outside run _ calls.handlers (run_servers-ends calls)))))))
]
