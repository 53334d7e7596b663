-- ===== src/Runtime/Server/Stale.antt =====
-- An adopted process that has died.
use llamarig.Common.{◌≡◌, ◌≢◌, refl, ap, ◌∙◌, Bool, true, false, some, arith}
use llamarig.Common.Text.{Text}
use llamarig.Runtime.{RunState, ServerConfig}
use llamarig.Runtime.Machine.{Os, Signal, Target, LlamaServer, Machine}
use llamarig.Runtime.Server.{is_running}
use llamarig.Runtime.Server.Operations.{status_if, status_locked}

module _ {W : Type 0} (os : Os W) (cfg : ServerConfig) where
  gone_seen :
      (m : Machine W) (e : Text)
      → m.server.cmd ≡ false
      → m.server.pid ≢ 0
      → (os.signal Signal.probe (Target.process m.server.pid) m.world).0 ≡ some e
      → ((is_running os cfg m).0 ≡ false) × ((is_running os cfg m).1.server ≡ m.server)
  unfolding is_running
  gone_seen m e adopted some_pid gone = ground arith

  status_if_stopped :
      (there : Bool) (r : LlamaServer) (m : Machine W)
      → there ≡ false
      → ((status_if os cfg there r m).0.state ≡ RunState.stopped)
        × ((status_if os cfg there r m).0.process.ready ≡ r.ready)
  status_if_stopped true r m h = cc
  status_if_stopped false r m h = (refl, refl)

  -- A process that was adopted, was ready and is gone is reported as stopped and as ready.
  pub status_locked-stale :
      (m : Machine W) (e : Text)
      → m.server.cmd ≡ false
      → m.server.ready ≡ true
      → m.server.pid ≢ 0
      → (os.signal Signal.probe (Target.process m.server.pid) m.world).0 ≡ some e
      → ((status_locked os cfg m).0.state ≡ RunState.stopped)
        × ((status_locked os cfg m).0.process.ready ≡ true)
  unfolding status_locked
  status_locked-stale m e adopted ready some_pid gone =
      let (not_there, same) = gone_seen m e adopted some_pid gone in
      let (stopped, shown) =
        status_if_stopped (is_running os cfg m).0 (is_running os cfg m).1.server
          (is_running os cfg m).1 not_there in
      (stopped, shown ∙ ap (λ (r : LlamaServer). r.ready) same ∙ ready)
