-- ===== src/Runtime/Server/Starting.antt =====
-- What starting leaves of the server.
use llamarig.Common.{ℕ, ◌≡◌, refl, ◌∙◌, ◌<◌, ◌⊎◌, inl, inr, Bool, true, false, Option, none, some}
use llamarig.Common.Text.{Text}
use llamarig.Common.Results.{Result, ok, err}
use llamarig.Runtime.{Failure, ServerConfig, Command, command, pid_file}
use llamarig.Runtime.Machine.{Os, M, LlamaServer, Machine}
use llamarig.Runtime.PidFile
use llamarig.Runtime.Server.{
  Ending, finished, endless, Reply, is_running, record_process, stop_process,
}
use llamarig.Runtime.Server.Operations.{
  rolled_back, rollback_start, after_ready, after_write, after_spawn, prepare, start_if,
  start_locked,
}
use llamarig.Runtime.Server.Waiting.{Waited, wait_ready-Waits}
use llamarig.Runtime.Server.Stopping.{IsForgotten, stop_process-IsForgotten}

-- A process of the server's own is there and ready.
pub record IsStarted (r : LlamaServer) : Type 0 where
  pub own : r.cmd ≡ true
  pub ready : r.ready ≡ true
  pub some_pid : 0 < r.pid

-- After an error nothing is remembered of a process, or the server is as it was.
abbrev pub Answers : LlamaServer → Option Failure → LlamaServer → Type 0
Answers r none r' = IsStarted r'
Answers r (some f) r' = IsForgotten r' ⊎ (r' ≡ r)

abbrev pub Outcome : LlamaServer → Option Reply → LlamaServer → Type 0
Outcome r none r' = Unit
Outcome r (some answer) r' = Answers r answer.error r'

module _ {W : Type 0} (os : Os W) (cfg : ServerConfig) (r : LlamaServer) where
  abbrev Ends : M W (Option Reply) → Machine W → Type 0
  Ends op m = Outcome r (op m).0 (op m).1.server

  rolled_back-Outcome :
      (action : Text) (f : Failure) (ending : Ending) (r' : LlamaServer)
      → IsForgotten r'
      → Outcome r (rolled_back os cfg action f ending) r'
  rolled_back-Outcome action f endless r' h = tt
  rolled_back-Outcome action f (finished e) r' h = inl h

  rollback_start-Ends :
      (fuel : ℕ) (action : Text) (f : Failure) (m : Machine W)
      → Ends (rollback_start os cfg fuel action f) m
  unfolding rollback_start
  rollback_start-Ends fuel action f m =
      rolled_back-Outcome action f (stop_process os cfg fuel m).0 _
        (stop_process-IsForgotten os cfg fuel m)

  after_ready-Ends :
      (fuel : ℕ) (action display : Text) (ending : Ending) (s : LlamaServer) (m : Machine W)
      → s.cmd ≡ true
      → Waited s ending m.server
      → Ends (after_ready os cfg fuel action display ending) m
  after_ready-Ends fuel action display endless s m own h = tt
  after_ready-Ends fuel action display (finished none) s m own (ready, some_pid, same) = record {
    own = same.0 ∙ own;
    ready = ready;
    some_pid = some_pid;
  }
  after_ready-Ends fuel action display (finished (some e)) s m own h =
      rollback_start-Ends fuel action _ _

  after_write-Ends :
      (fuel : ℕ) (action display : Text) (e : Option Text) (m : Machine W)
      → m.server.cmd ≡ true
      → Ends (after_write os cfg fuel action display e) m
  after_write-Ends fuel action display (some e) m own = rollback_start-Ends fuel action _ m
  after_write-Ends fuel action display none m own =
      after_ready-Ends fuel action display _ m.server _ own
        (wait_ready-Waits os cfg m.server fuel m (refl, refl, refl))

  after_spawn-Ends :
      (fuel : ℕ) (action display : Text) (spawned : Result Text ℕ) (m : Machine W)
      → m.server ≡ r
      → Ends (after_spawn os cfg fuel action display spawned) m
  unfolding record_process PidFile.write
  after_spawn-Ends fuel action display (err e) m same = inr same
  after_spawn-Ends fuel action display (ok pid) m same =
      after_write-Ends fuel action display _ _ refl

  prepare-Ends :
      (fuel : ℕ) (action : Text) (c : Result Failure Command) (file : Result Failure (Unit {0}))
      (m : Machine W)
      → m.server ≡ r
      → Ends (prepare os cfg fuel action c file) m
  prepare-Ends fuel action (err f) file m same = inr same
  prepare-Ends fuel action (ok c) (err f) m same = inr same
  prepare-Ends fuel action (ok c) (ok _) m same = after_spawn-Ends fuel action c.display _ _ same

  start_if-Ends :
      (fuel : ℕ) (action : Text) (there : Bool) (m : Machine W)
      → m.server ≡ r
      → Ends (start_if os cfg fuel action there) m
  start_if-Ends fuel action true m same = inr same
  start_if-Ends fuel action false m same =
      prepare-Ends fuel action (command cfg) (pid_file cfg) m same

module _ {W : Type 0} (os : Os W) (cfg : ServerConfig) where
  -- Whatever the system answers, a `Start` that answers no error leaves a process of the server's
  -- own that is ready, and one that answers an error remembers no process, or leaves the server as
  -- its test for a running process left it.
  pub start_locked-Outcome :
      (fuel : ℕ) (action : Text) (m : Machine W)
      → Outcome
          (is_running os cfg m).1.server
          (start_locked os cfg fuel action m).0
          (start_locked os cfg fuel action m).1.server
  unfolding start_locked
  start_locked-Outcome fuel action m =
      start_if-Ends os cfg (is_running os cfg m).1.server fuel action (is_running os cfg m).0
        (is_running os cfg m).1 refl
