-- ===== src/Runtime/Server.antt =====
-- core/runtime/llama_server_runtime.go: the operations of a llama-server under its lock. Every
-- loop is on fuel; `endless` is one that runs out.
pub mod Operations
pub mod Waiting
pub mod Stopping
pub mod Starting
pub mod Ends
pub mod Answers
pub mod Stale
use llamarig.Common.{
  ℕ, zero, suc, ◌+◌, Bool, true, false, ◌&&◌, Option, none, some, List, [], ◌∷◌, ◌++◌, ltb, leb,
  ◌==◌, if◌then◌else◌, not,
}
use llamarig.Common.Text.{Text, codes, decimal}
use llamarig.Common.Results.{Result, ok, err}
use llamarig.Runtime.{
  RunState, ErrorKind, Failure, plain, new_error, ProcessStatus, Status, CommandResult,
  ServerConfig, Command, command, env_list, readiness_host, join_host_port, pid_file,
}
use llamarig.Runtime.Machine.{
  Os, M, Exit, Target, Signal, LlamaServer, Machine, pure, ◌>>=◌, ◌>>◌, call, look, change,
}
use llamarig.Runtime.PidFile

-- A loop that ends with an error or none, or does not end.
pub data Ending : Type 0 where
  finished : Option Failure → Ending
  endless : Ending

-- What an operation answers.
pub record Reply : Type 0 where
  pub result : CommandResult
  pub error : Option Failure

-- `%v` of an error, which may be nil.
abbrev pub show_error : Option Failure → Text
show_error none = codes "<nil>"
show_error (some f) = f.message

abbrev pub exit_error : Exit → Option Failure
exit_error none = none
exit_error (some message) = some (plain message)

abbrev pub reply : Text → ℕ → Text → Option Failure → Reply
reply action exit_code stdout error = record {
  result = record {
    action = action;
    exit_code = exit_code;
    stdout = stdout;
    stderr = elim error [ none ↦ [] | some f ↦ f.message ];
  };
  error = error;
}

abbrev pub is_none : Option Text → Bool
is_none none = true
is_none (some _) = false

module _ {W : Type 0} (os : Os W) (cfg : ServerConfig) where
  -- `started` and `adopt`: whether there is a command.
  unfoldable pub record_process : Bool → ℕ → M W (Unit {0})
  record_process cmd pid = do
    group ← call (os.group_of pid)
    change (λ _. record { cmd = cmd; error = none; ready = false; pid = pid; pgid = group })

  abbrev pub set_error : Option Failure → M W (Unit {0})
  set_error e = change (λ r. record r { error = e })

  -- `isRunning`: the error of a command that has ended is received.
  abbrev pub running_exited : ℕ → Option Exit → M W Bool
  running_exited pid none = PidFile.alive os pid
  running_exited pid (some exit) = do
    change (λ r. record r { error = exit_error exit; ready = false })
    pure false

  abbrev pub running_pid : LlamaServer → M W Bool
  running_pid r =
      if r.cmd
      then (do exit ← call os.exited; running_exited r.pid exit)
      else PidFile.alive os r.pid

  unfoldable pub is_running : M W Bool
  is_running = do r ← look; if r.pid == 0 then pure false else running_pid r

  -- `interruptProcessGroup`.
  abbrev pub interrupt_process : ℕ → Option Text → M W (Option Text)
  interrupt_process pid none = pure none
  interrupt_process pid (some _) = call (os.signal Signal.interrupt (Target.process pid))

  unfoldable pub interrupt_process_group : ℕ → ℕ → M W (Option Text)
  interrupt_process_group pid group = do
    e ← call (os.signal Signal.interrupt (Target.group group))
    interrupt_process pid e

  unfoldable pub kill_process_group : ℕ → ℕ → M W (Unit {0})
  kill_process_group pid group = do
    e ← call (os.signal Signal.kill (Target.group group))
    f ← call (os.signal Signal.kill (Target.process pid))
    pure tt

  abbrev pub timed_out : Failure
  timed_out = plain (cfg.name ++ codes " stop timed out")

  -- `waitStartedProcess`.
  abbrev pub killed_exit : Option Exit → M W Ending
  killed_exit none = pure (finished (some timed_out))
  killed_exit (some exit) = do set_error (exit_error exit); pure (finished (some timed_out))

  abbrev pub stopped_exit : ℕ → ℕ → Option Exit → M W Ending
  stopped_exit pid group (some exit) = do set_error (exit_error exit); pure (finished none)
  stopped_exit pid group none = do
    kill_process_group pid group
    exit ← call os.wait_killed
    killed_exit exit

  unfoldable pub wait_started_process : ℕ → ℕ → M W Ending
  unfolding kill_process_group
  wait_started_process pid group = do exit ← call os.wait_exit; stopped_exit pid group exit

  -- `waitPIDExit`: a process that is still there when the context is done.
  unfoldable pub wait_pid_exit : ℕ → ℕ → M W Ending
  wait_pid_exit zero pid = pure endless
  wait_pid_exit (suc fuel) pid = do
    there ← PidFile.alive os pid
    elim there [
      | false ↦ pure (finished none)
      | true ↦ do
        done ← call os.pause
        elim done [
          | true ↦ pure (finished (some (plain (codes "context deadline exceeded"))))
          | false ↦ wait_pid_exit fuel pid
        ]
    ]

  abbrev pub adopted_exit : ℕ → ℕ → Ending → M W Ending
  adopted_exit pid group endless = pure endless
  adopted_exit pid group (finished none) = pure (finished none)
  adopted_exit pid group (finished (some e)) = do
    kill_process_group pid group
    set_error (some e)
    pure (finished (some timed_out))

  abbrev pub wait_stopped : ℕ → ℕ → ℕ → LlamaServer → M W Ending
  wait_stopped fuel pid group r =
      if r.cmd
      then wait_started_process pid group
      else (do ending ← wait_pid_exit fuel pid; adopted_exit pid group ending)

  abbrev pub interrupted : ℕ → ℕ → ℕ → Option Text → M W Ending
  interrupted fuel pid group (some e) =
      pure (finished (some (plain (cfg.name ++ codes " interrupt: " ++ e))))
  interrupted fuel pid group none = do r ← look; wait_stopped fuel pid group r

  abbrev pub stop_running : ℕ → ℕ → ℕ → Bool → M W Ending
  stop_running fuel pid group false = pure (finished none)
  stop_running fuel pid group true = do
    e ← interrupt_process_group pid group
    interrupted fuel pid group e

  -- What stopProcess defers.
  abbrev pub remove_pid_file : ℕ → M W (Unit {0})
  remove_pid_file pid = elim (pid_file cfg) [
    | err _ ↦ pure tt
    | ok _ ↦ do e ← PidFile.remove os pid; pure tt
  ]

  unfoldable pub forget_process : ℕ → M W (Unit {0})
  unfolding pid_file
  forget_process pid = do
    remove_pid_file pid
    change (λ r. record r { pid = 0; pgid = 0; ready = false })

  unfoldable pub stop_process : ℕ → M W Ending
  unfolding is_running interrupt_process_group kill_process_group wait_started_process wait_pid_exit
      forget_process
  stop_process fuel = do
    r ← look
    there ← is_running
    ending ← stop_running fuel r.pid (if r.pgid == 0 then r.pid else r.pgid) there
    forget_process r.pid
    pure ending

  -- `probeReady`.
  abbrev pub answer_status : Result Text ℕ → Option Failure
  answer_status (err e) = some (plain e)
  answer_status (ok code) =
      if leb 200 code && ltb code 500
      then none
      else some (plain (codes "readiness status " ++ decimal code))

  abbrev pub probe_at : Text → Text → M W (Option Failure)
  probe_at addr [] = do e ← call (os.dial addr); pure (exit_error e)
  probe_at addr (c ∷ path) = do
    answer ← call (os.get (codes "http://" ++ addr ++ c ∷ path))
    pure (answer_status answer)

  unfoldable pub probe_ready : M W (Option Failure)
  unfolding decimal join_host_port readiness_host
  probe_ready = probe_at (join_host_port (readiness_host cfg.host) cfg.port) cfg.readiness_path
