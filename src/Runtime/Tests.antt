-- ===== src/Runtime/Tests.antt =====
-- Runs of a llama-server on a small system, and the theorems at concrete inputs.
use llamarig.Common.{
  ℕ, ◌+◌, ◌≡◌, refl, inr, true, false, none, some, [], ◌∷◌, arith, ltb, if◌then◌else◌,
}
use llamarig.Common.Text.{codes, ◌=ₜ◌}
use llamarig.Common.Int.{negsuc}
use llamarig.Common.Results.{ok}
use llamarig.Runtime.{RunState, ServerConfig}
use llamarig.Runtime.Machine.{Os, Machine}
use llamarig.Runtime.PidFile.{atoi}
use llamarig.Runtime.Server.{is_running}
use llamarig.Runtime.Server.Operations.{start_locked, status_locked, recover}
use llamarig.Runtime.Server.Starting.{Outcome, start_locked-Outcome}
use llamarig.Runtime.Server.Ends.{IsClock}
use llamarig.Runtime.Server.Answers.{IsAnswered, start_locked-IsAnswered}
use llamarig.Runtime.Server.Stale.{status_locked-stale}

-- A system whose state is its time: a server answers from the time 3 on, and every process is there.
abbrev clockwork : Os ℕ
clockwork = record {
  now = λ w. (w, w);
  spawn = λ executable argv env w. (ok 42, w);
  group_of = λ pid w. (pid, w);
  exited = λ w. (none, w);
  wait_exit = λ w. (some none, w);
  wait_killed = λ w. (some none, w);
  signal = λ s t w. (none, w);
  pause = λ w. (false, w + 1);
  dial = λ addr w. (if ltb w 3 then some (codes "connection refused") else none, w);
  get = λ url w. (ok 200, w);
  read_file = λ w. (ok (some (codes "42\n")), w);
  write_file = λ text w. (none, w);
  remove_file = λ w. (none, w);
  executable = λ pid w. (ok (codes "/usr/bin/llama-server"), w);
  look_path = λ name w. (codes "/usr/bin/llama-server", w);
}

-- The same, where no process is there any more.
abbrev empty_system : Os ℕ
empty_system = record clockwork { signal = λ s t w. (some (codes "no such process"), w) }

abbrev config : ServerConfig
config = record {
  name = codes "router";
  executable = codes "llama-server";
  argv = codes "--port" ∷ codes "8080" ∷ [];
  host = codes "0.0.0.0";
  port = 8080;
  env = [];
  timeout = 5;
  readiness_path = [];
  readiness_timeout = 9;
  readiness_interval = 1;
  pid_dir = codes "/run/llama";
}

abbrev idle : Machine ℕ
idle = record {
  server = record { cmd = false; error = none; ready = false; pid = 0; pgid = 0 };
  world = 0;
}

started :
    (start_locked clockwork config 11 (codes "start") idle).1.server
    ≡ record { cmd = true; error = none; ready = true; pid = 42; pgid = 42 }
unfolding start_locked ◌=ₜ◌
started = refl

-- The server answers after its deadline.
too_late :
    (start_locked clockwork
      (record config { readiness_timeout = 2 })
      11
      (codes "start")
      idle).1.server.pid
    ≡ 0
unfolding start_locked ◌=ₜ◌
too_late = refl

recovered : (recover clockwork config (record idle { world = 3 })).0 ≡ ok true
unfolding recover ◌=ₜ◌
recovered = refl

signed : atoi (codes "-12") ≡ some (negsuc 11)
unfolding atoi
signed = refl

start_locked-Outcome_example :
    Outcome
      (is_running clockwork config idle).1.server
      (start_locked clockwork config 11 (codes "start") idle).0
      (start_locked clockwork config 11 (codes "start") idle).1.server
start_locked-Outcome_example = start_locked-Outcome clockwork config 11 (codes "start") idle

clockwork-IsClock : IsClock clockwork (λ w. w)
clockwork-IsClock = record {
  told = λ w. refl;
  now_later = λ w. omega arith;
  pause_later = λ w. inr (omega arith);
  exited_later = λ w. omega arith;
  signal_later = λ s t w. omega arith;
  dial_later = λ addr w. omega arith;
  get_later = λ url w. omega arith;
}

start_locked-IsAnswered_example :
    IsAnswered (start_locked clockwork config 11 (codes "start") idle).0
start_locked-IsAnswered_example =
    start_locked-IsAnswered clockwork config (λ w. w) clockwork-IsClock 11 (omega arith)
      (codes "start") idle

-- Adopted, ready, and gone.
abbrev orphan : Machine ℕ
orphan = record {
  server = record { cmd = false; error = none; ready = true; pid = 42; pgid = 42 };
  world = 0;
}

status_locked-stale_example :
    ((status_locked empty_system config orphan).0.state ≡ RunState.stopped)
    × ((status_locked empty_system config orphan).0.process.ready ≡ true)
status_locked-stale_example =
    status_locked-stale empty_system config orphan (codes "no such process") refl refl
      (λ h. omega arith) refl
