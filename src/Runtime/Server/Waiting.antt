-- ===== src/Runtime/Server/Waiting.antt =====
-- What isRunning and waitReady leave of the server, and that waitReady ends.
use llamarig.Common.{
  ℕ, zero, suc, ◌+◌, ◌<◌, ◌≡◌, refl, sym, subst, ◌∙◌, inl, inr, Bool, true, false, Option, none,
  some, [], ◌∷◌, arith, ltb, Bool-cases,
}
use llamarig.Common.Text.{Text}
use llamarig.Runtime.{Failure, ServerConfig}
use llamarig.Runtime.Machine.{Os, M, LlamaServer, Machine}
use llamarig.Runtime.Server.{Ending, finished, endless, is_running, probe_at, probe_ready}
use llamarig.Runtime.Server.Operations.{in_time, probed, waited, wait_ready_until, wait_ready}

module _ {W : Type 0} (os : Os W) (cfg : ServerConfig) where
  -- A server that is running is left as it was, and has a process.
  pub running_same :
      (m : Machine W)
      → (is_running os cfg m).0 ≡ true
      → ((is_running os cfg m).1.server ≡ m.server) × (0 < m.server.pid)
  unfolding is_running
  running_same m h = ground arith

  -- isRunning never changes the process.
  pub running_process :
      (m : Machine W)
      → ((is_running os cfg m).1.server.cmd ≡ m.server.cmd)
        × ((is_running os cfg m).1.server.pid ≡ m.server.pid)
        × ((is_running os cfg m).1.server.pgid ≡ m.server.pgid)
  unfolding is_running
  running_process m = ground arith

  probe_at_same :
      (addr path : Text) (m : Machine W) → (probe_at os cfg addr path m).1.server ≡ m.server
  probe_at_same addr [] m = refl
  probe_at_same addr (c ∷ path) m = refl

  -- A probe changes nothing of the server.
  pub probe_ready_same : (m : Machine W) → (probe_ready os cfg m).1.server ≡ m.server
  unfolding probe_ready
  probe_ready_same m = probe_at_same _ cfg.readiness_path m

abbrev pub SameProcess : LlamaServer → LlamaServer → Type 0
SameProcess r r' = (r'.cmd ≡ r.cmd) × (r'.pid ≡ r.pid) × (r'.pgid ≡ r.pgid)

-- A wait that succeeds leaves the process ready, any other its process.
abbrev pub Waited : LlamaServer → Ending → LlamaServer → Type 0
Waited r endless r' = Unit
Waited r (finished none) r' = (r'.ready ≡ true) × (0 < r'.pid) × SameProcess r r'
Waited r (finished (some e)) r' = SameProcess r r'

module _ {W : Type 0} (os : Os W) (cfg : ServerConfig) (r : LlamaServer) where
  -- What is to hold of a wait from a server with the same process.
  abbrev Waits : M W Ending → Machine W → Type 0
  Waits next m = Waited r (next m).0 (next m).1.server

  in_time-Waits :
      (next : M W Ending) (b : Bool) (m : Machine W)
      → ((m' : Machine W) → SameProcess r m'.server → Waits next m')
      → SameProcess r m.server
      → Waits (in_time os cfg next b) m
  in_time-Waits next false m h same = same
  in_time-Waits next true m h same = elim (Bool-cases (os.pause m.world).0) [
    | inl done ↦ rw done same
    | inr not_done ↦ rw not_done (h (record m { world = (os.pause m.world).1 }) same)
  ]

  probed-Waits :
      (next : M W Ending) (deadline : ℕ) (e : Option Failure) (m : Machine W)
      → ((m' : Machine W) → SameProcess r m'.server → Waits next m')
      → SameProcess r m.server
      → 0 < m.server.pid
      → Waits (probed os cfg next deadline e) m
  probed-Waits next deadline none m h same some_pid = (refl, some_pid, same)
  probed-Waits next deadline (some _) m h same some_pid =
      let (now, w) = os.now m.world in
      in_time-Waits next (ltb now deadline) (record m { world = w }) h same

  waited-Waits :
      (next : M W Ending) (deadline : ℕ) (there : Bool) (m : Machine W)
      → ((m' : Machine W) → SameProcess r m'.server → Waits next m')
      → SameProcess r m.server
      → (there ≡ true → 0 < m.server.pid)
      → Waits (waited os cfg next deadline there) m
  waited-Waits next deadline false m h same some_pid = same
  waited-Waits next deadline true m h same some_pid =
      let kept = probe_ready_same os cfg m in
      let (e, m') = probe_ready os cfg m in
      probed-Waits next deadline e m' h (subst (SameProcess r) (sym kept) same)
        (subst (λ s. 0 < s.pid) (sym kept) (some_pid refl))

  wait_ready_until-Waits :
      (fuel deadline : ℕ) (m : Machine W)
      → SameProcess r m.server
      → Waits (wait_ready_until os cfg fuel deadline) m
  unfolding wait_ready_until
  wait_ready_until-Waits zero deadline m same = tt
  wait_ready_until-Waits (suc fuel) deadline m (cmd, pid, pgid) =
      let (cmd', pid', pgid') = running_process os cfg m in
      let (there, m') = is_running os cfg m in
      waited-Waits (wait_ready_until os cfg fuel deadline) deadline there m'
        (wait_ready_until-Waits fuel deadline) (cmd' ∙ cmd, pid' ∙ pid, pgid' ∙ pgid)
        (λ h. omega (arith, running_same os cfg m h, pid'))

  -- waitReady leaves the process as it is, and ready where it answers no error.
  pub wait_ready-Waits :
      (fuel : ℕ) (m : Machine W) → SameProcess r m.server → Waits (wait_ready os cfg fuel) m
  unfolding wait_ready
  wait_ready-Waits fuel m same =
      let (now, w) = os.now m.world in
      wait_ready_until-Waits fuel (now + cfg.readiness_timeout) (record m { world = w }) same
