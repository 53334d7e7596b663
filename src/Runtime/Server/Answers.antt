-- ===== src/Runtime/Server/Answers.antt =====
-- Start answers, if the clock goes on.
use llamarig.Common.{ℕ, ◌+◌, ◌≤◌, ◌≡◌, refl, ◌∙◌, ap, Bool, true, false, Option, none, some, arith}
use llamarig.Common.Text.{Text}
use llamarig.Common.Results.{Result, ok, err}
use llamarig.Runtime.{Failure, ServerConfig, Command, command, pid_file}
use llamarig.Runtime.Machine.{Os, Exit, LlamaServer, Machine}
use llamarig.Runtime.PidFile
use llamarig.Runtime.Server.{
  Ending, finished, endless, Reply, is_running, record_process, interrupt_process_group,
  stopped_exit, killed_exit, wait_started_process, wait_stopped, interrupted, stop_running,
  stop_process,
}
use llamarig.Runtime.Server.Operations.{
  rolled_back, rollback_start, after_ready, after_write, after_spawn, prepare, start_if,
  start_locked,
}
use llamarig.Runtime.Server.Waiting.{Waited, running_process, wait_ready-Waits}
use llamarig.Runtime.Server.Ends.{IsClock, IsFinished, wait_ready-IsFinished}

abbrev pub IsAnswered : Option Reply → Type 0
IsAnswered out = (answer : Reply) × (out ≡ some answer)

-- Stopping a process of the server's own ends, whatever the system answers.
module _ {W : Type 0} (os : Os W) (cfg : ServerConfig) where
  killed_exit-IsFinished :
      (exit : Option Exit) (m : Machine W) → IsFinished (killed_exit os cfg exit m).0
  killed_exit-IsFinished none m = tt
  killed_exit-IsFinished (some exit) m = tt

  stopped_exit-IsFinished :
      (pid group : ℕ) (exit : Option Exit) (m : Machine W)
      → IsFinished (stopped_exit os cfg pid group exit m).0
  stopped_exit-IsFinished pid group (some exit) m = tt
  stopped_exit-IsFinished pid group none m = killed_exit-IsFinished _ _

  wait_stopped-IsFinished :
      (fuel pid group : ℕ) (r : LlamaServer) (m : Machine W)
      → r.cmd ≡ true
      → IsFinished (wait_stopped os cfg fuel pid group r m).0
  unfolding wait_started_process
  wait_stopped-IsFinished fuel pid group r m own = rw own (stopped_exit-IsFinished pid group _ _)

  interrupted-IsFinished :
      (fuel pid group : ℕ) (e : Option Text) (m : Machine W)
      → m.server.cmd ≡ true
      → IsFinished (interrupted os cfg fuel pid group e m).0
  interrupted-IsFinished fuel pid group (some e) m own = tt
  interrupted-IsFinished fuel pid group none m own =
      wait_stopped-IsFinished fuel pid group m.server m own

  interrupt_same :
      (pid group : ℕ) (m : Machine W)
      → (interrupt_process_group os cfg pid group m).1.server ≡ m.server
  unfolding interrupt_process_group
  interrupt_same pid group m = ground arith

  stop_running-IsFinished :
      (fuel pid group : ℕ) (there : Bool) (m : Machine W)
      → m.server.cmd ≡ true
      → IsFinished (stop_running os cfg fuel pid group there m).0
  stop_running-IsFinished fuel pid group false m own = tt
  stop_running-IsFinished fuel pid group true m own =
      interrupted-IsFinished fuel pid group _ _
        (ap (λ (r : LlamaServer). r.cmd) (interrupt_same pid group m) ∙ own)

  stop_process-IsFinished :
      (fuel : ℕ) (m : Machine W) → m.server.cmd ≡ true → IsFinished (stop_process os cfg fuel m).0
  unfolding stop_process
  stop_process-IsFinished fuel m own =
      stop_running-IsFinished fuel _ _ _ (is_running os cfg m).1
        ((running_process os cfg m).0 ∙ own)

  rolled_back-IsAnswered :
      (action : Text) (f : Failure) (ending : Ending)
      → IsFinished ending
      → IsAnswered (rolled_back os cfg action f ending)
  rolled_back-IsAnswered action f endless h = absurd h
  rolled_back-IsAnswered action f (finished e) h = (_, refl)

  rollback_start-IsAnswered :
      (fuel : ℕ) (action : Text) (f : Failure) (m : Machine W)
      → m.server.cmd ≡ true
      → IsAnswered (rollback_start os cfg fuel action f m).0
  unfolding rollback_start
  rollback_start-IsAnswered fuel action f m own =
      rolled_back-IsAnswered action f _ (stop_process-IsFinished fuel m own)

  after_ready-IsAnswered :
      (fuel : ℕ) (action display : Text) (ending : Ending) (s : LlamaServer) (m : Machine W)
      → IsFinished ending
      → s.cmd ≡ true
      → Waited s ending m.server
      → IsAnswered (after_ready os cfg fuel action display ending m).0
  after_ready-IsAnswered fuel action display endless s m h own same = absurd h
  after_ready-IsAnswered fuel action display (finished none) s m h own same = (_, refl)
  after_ready-IsAnswered fuel action display (finished (some e)) s m h own same =
      rollback_start-IsAnswered fuel action _ _ (same.0 ∙ own)

module _ {W : Type 0} (os : Os W) (cfg : ServerConfig) (time : W → ℕ) (clock : IsClock os time)
    (fuel : ℕ) (enough : cfg.readiness_timeout + 2 ≤ fuel) where
  after_write-IsAnswered :
      (action display : Text) (e : Option Text) (m : Machine W)
      → m.server.cmd ≡ true
      → IsAnswered (after_write os cfg fuel action display e m).0
  after_write-IsAnswered action display (some e) m own =
      rollback_start-IsAnswered os cfg fuel action _ m own
  after_write-IsAnswered action display none m own =
      after_ready-IsAnswered os cfg fuel action display _ m.server _
        (wait_ready-IsFinished os cfg time clock fuel m enough) own
        (wait_ready-Waits os cfg m.server fuel m (refl, refl, refl))

  after_spawn-IsAnswered :
      (action display : Text) (spawned : Result Text ℕ) (m : Machine W)
      → IsAnswered (after_spawn os cfg fuel action display spawned m).0
  unfolding record_process PidFile.write
  after_spawn-IsAnswered action display (err e) m = (_, refl)
  after_spawn-IsAnswered action display (ok pid) m = after_write-IsAnswered action display _ _ refl

  prepare-IsAnswered :
      (action : Text) (c : Result Failure Command) (file : Result Failure (Unit {0}))
      (m : Machine W)
      → IsAnswered (prepare os cfg fuel action c file m).0
  prepare-IsAnswered action (err f) file m = (_, refl)
  prepare-IsAnswered action (ok c) (err f) m = (_, refl)
  prepare-IsAnswered action (ok c) (ok _) m = after_spawn-IsAnswered action c.display _ _

  start_if-IsAnswered :
      (action : Text) (there : Bool) (m : Machine W)
      → IsAnswered (start_if os cfg fuel action there m).0
  start_if-IsAnswered action true m = (_, refl)
  start_if-IsAnswered action false m = prepare-IsAnswered action (command cfg) (pid_file cfg) m

  -- `Start` ends within as many rounds of waitReady as its timeout has nanoseconds, and two, if the
  -- clock is never turned back and every pause moves it on or finds the context done.
  pub start_locked-IsAnswered :
      (action : Text) (m : Machine W) → IsAnswered (start_locked os cfg fuel action m).0
  unfolding start_locked
  start_locked-IsAnswered action m =
      start_if-IsAnswered action (is_running os cfg m).0 (is_running os cfg m).1
