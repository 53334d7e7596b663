-- ===== src/Runtime/Server/Operations.antt =====
-- Start, Stop, Recover and Status of a llama-server (core/runtime/llama_server_runtime.go).
use llamarig.Common.{
  ℕ, zero, suc, ◌+◌, Bool, true, false, Option, none, some, [], ◌++◌, ltb, ◌==◌, if◌then◌else◌,
}
use llamarig.Common.Text.{Text, codes, decimal}
use llamarig.Common.Results.{Result, ok, err}
use llamarig.Runtime.{
  RunState, ErrorKind, Failure, plain, new_error, Status, ServerConfig, Command, command, env_list,
  pid_file,
}
use llamarig.Runtime.Machine.{Os, M, LlamaServer, pure, ◌>>=◌, ◌>>◌, call, look, change}
use llamarig.Runtime.PidFile
use llamarig.Runtime.Server.{
  Ending, finished, endless, Reply, reply, show_error, record_process, set_error, is_running,
  stop_process, remove_pid_file, probe_ready,
}

-- `fmt.Errorf("%w; cleanup failed: %w", err, cleanupErr)`, whose kind is the first one's that has one.
abbrev pub joined_kind : Option ErrorKind → Option ErrorKind → Option ErrorKind
joined_kind none k = k
joined_kind (some k) _ = some k

abbrev pub with_cleanup : Failure → Option Failure → Failure
with_cleanup f none = f
with_cleanup f (some e) = record {
  kind = joined_kind f.kind e.kind;
  message = f.message ++ codes "; cleanup failed: " ++ e.message;
}

abbrev pub is_ok : Option Failure → Bool
is_ok none = true
is_ok (some _) = false

abbrev pub failed_start : Text → Failure → Reply
failed_start action f = reply action 1 [] (some f)

module _ {W : Type 0} (os : Os W) (cfg : ServerConfig) where
  abbrev pub exited_early : LlamaServer → Failure
  exited_early r = plain (cfg.name ++ codes " exited before readiness: " ++ show_error r.error)

  -- A round of waitReady, with what follows it.
  abbrev pub paused : M W Ending → Bool → M W Ending
  paused next true = pure (finished (some (plain (codes "context canceled"))))
  paused next false = next

  abbrev pub in_time : M W Ending → Bool → M W Ending
  in_time next false = pure (finished (some (plain (cfg.name ++ codes " readiness timed out"))))
  in_time next true = do done ← call os.pause; paused next done

  abbrev pub probed : M W Ending → ℕ → Option Failure → M W Ending
  probed next deadline none = do change (λ r. record r { ready = true }); pure (finished none)
  probed next deadline (some _) = do now ← call os.now; in_time next (ltb now deadline)

  abbrev pub waited : M W Ending → ℕ → Bool → M W Ending
  waited next deadline false = do r ← look; pure (finished (some (exited_early r)))
  waited next deadline true = do e ← probe_ready os cfg; probed next deadline e

  -- The loop of waitReady, with its deadline.
  unfoldable pub wait_ready_until : ℕ → ℕ → M W Ending
  wait_ready_until zero deadline = pure endless
  wait_ready_until (suc fuel) deadline = do
    there ← is_running os cfg
    waited (wait_ready_until fuel deadline) deadline there

  unfoldable pub wait_ready : ℕ → M W Ending
  unfolding wait_ready_until is_running probe_ready
  wait_ready fuel = do now ← call os.now; wait_ready_until fuel (now + cfg.readiness_timeout)

  -- `rollbackStart`; `none` is a loop that does not end.
  abbrev pub rolled_back : Text → Failure → Ending → Option Reply
  rolled_back action f endless = none
  rolled_back action f (finished e) = some (failed_start action (with_cleanup f e))

  unfoldable pub rollback_start : ℕ → Text → Failure → M W (Option Reply)
  unfolding stop_process
  rollback_start fuel action f = do
    ending ← stop_process os cfg fuel
    pure (rolled_back action f ending)

  abbrev pub after_ready : ℕ → Text → Text → Ending → M W (Option Reply)
  after_ready fuel action display endless = pure none
  after_ready fuel action display (finished none) = pure (some (reply action 0 display none))
  after_ready fuel action display (finished (some e)) = do
    set_error os cfg (some e)
    rollback_start fuel action (new_error ErrorKind.runtime_error e.message)

  abbrev pub after_write : ℕ → Text → Text → Option Text → M W (Option Reply)
  after_write fuel action display (some e) =
      rollback_start fuel action
        (new_error ErrorKind.runtime_error (codes "write llama-server PID file failed"))
  after_write fuel action display none = do
    ending ← wait_ready fuel
    after_ready fuel action display ending

  abbrev pub after_spawn : ℕ → Text → Text → Result Text ℕ → M W (Option Reply)
  after_spawn fuel action display (err e) = pure (
      some (
        failed_start action
          (new_error ErrorKind.runtime_error (codes "start llama-server failed"))))
  after_spawn fuel action display (ok pid) = do
    record_process os cfg true pid
    e ← PidFile.write os pid
    after_write fuel action display e

  abbrev pub spawn_command : ℕ → Text → Command → M W (Option Reply)
  spawn_command fuel action c = do
    spawned ← call (os.spawn c.executable c.argv (env_list cfg.env))
    after_spawn fuel action c.display spawned

  abbrev pub prepare :
      ℕ → Text → Result Failure Command → Result Failure (Unit {0}) → M W (Option Reply)
  prepare fuel action (err f) file = pure (some (failed_start action f))
  prepare fuel action (ok c) (err f) = pure (some (failed_start action f))
  prepare fuel action (ok c) (ok _) = spawn_command fuel action c

  abbrev pub already_running : Failure
  already_running = new_error ErrorKind.runtime_error (codes "llama-server is already running")

  abbrev pub start_if : ℕ → Text → Bool → M W (Option Reply)
  start_if fuel action true = pure (some (failed_start action already_running))
  start_if fuel action false = prepare fuel action (command cfg) (pid_file cfg)

  -- `startLocked`.
  unfoldable pub start_locked : ℕ → Text → M W (Option Reply)
  unfolding is_running record_process PidFile.write wait_ready rollback_start command pid_file
  start_locked fuel action = do there ← is_running os cfg; start_if fuel action there

  abbrev pub stopped_reply : Text → Ending → Option Reply
  stopped_reply action endless = none
  stopped_reply action (finished none) = some (reply action 0 [] none)
  stopped_reply action (finished (some e)) = some (failed_start action e)

  abbrev pub stop_if : ℕ → Text → Bool → M W (Option Reply)
  stop_if fuel action false = pure (some (reply action 0 [] none))
  stop_if fuel action true = do
    ending ← stop_process os cfg fuel
    pure (stopped_reply action ending)

  -- `stopLocked`.
  unfoldable pub stop_locked : ℕ → Text → M W (Option Reply)
  unfolding is_running stop_process
  stop_locked fuel action = do there ← is_running os cfg; stop_if fuel action there

  -- `Recover`.
  abbrev pub adopt_matching : ℕ → Bool → M W (Result Failure Bool)
  adopt_matching pid false = do e ← PidFile.remove os pid; pure (ok false)
  adopt_matching pid true = do
    record_process os cfg false pid
    e ← probe_ready os cfg
    change (λ r. record r { ready = is_ok e })
    pure (ok true)

  abbrev pub recover_found : Command → Result Text (Option ℕ) → M W (Result Failure Bool)
  recover_found c (err e) = pure (err (plain e))
  recover_found c (ok none) = pure (ok false)
  recover_found c (ok (some pid)) = do
    same ← PidFile.executable_matches os pid c.executable
    adopt_matching pid same

  abbrev pub recover_command :
      Result Failure Command → Result Failure (Unit {0}) → M W (Result Failure Bool)
  recover_command (err f) file = pure (err f)
  recover_command (ok c) (err f) = pure (err f)
  recover_command (ok c) (ok _) = do found ← PidFile.running os; recover_found c found

  unfoldable pub recover : M W (Result Failure Bool)
  unfolding PidFile.running PidFile.executable_matches PidFile.remove record_process probe_ready
      command pid_file
  recover = recover_command (command cfg) (pid_file cfg)

  -- `statusLocked`.
  abbrev pub status_detail : ℕ → Option Failure → Text
  status_detail pid e = if ltb 0 pid then cfg.name ++ codes " pid=" ++ decimal pid else elim e [
    | none ↦ cfg.name ++ codes " stopped"
    | some f ↦ cfg.name ++ codes " stopped: " ++ f.message
  ]

  abbrev pub status_of : RunState → ℕ → LlamaServer → Status
  status_of state pid r = record {
    state = state;
    detail = status_detail pid r.error;
    process = record {
      name = cfg.name;
      state = state;
      pid = pid;
      host = cfg.host;
      port = cfg.port;
      ready = r.ready;
      last_error = elim r.error [ none ↦ [] | some f ↦ f.message ];
    };
  }

  abbrev pub status_if : Bool → LlamaServer → M W Status
  status_if true r =
      pure (status_of (if r.ready then RunState.running else RunState.starting) r.pid r)
  status_if false r = do
    if r.pid == 0 then pure tt else remove_pid_file os cfg r.pid
    pure (status_of RunState.stopped 0 r)

  unfoldable pub status_locked : M W Status
  unfolding is_running decimal pid_file
  status_locked = do there ← is_running os cfg; r ← look; status_if there r
