-- ===== src/Runtime/Server/Stopping.antt =====
-- What stopping leaves of the server.
use llamarig.Common.{ℕ, ◌≡◌, refl, false}
use llamarig.Runtime.{ServerConfig}
use llamarig.Runtime.Machine.{Os, LlamaServer, Machine}
use llamarig.Runtime.Server.{forget_process, stop_process}

-- No process is remembered.
pub record IsForgotten (r : LlamaServer) : Type 0 where
  pub no_pid : r.pid ≡ 0
  pub no_group : r.pgid ≡ 0
  pub not_ready : r.ready ≡ false

module _ {W : Type 0} (os : Os W) (cfg : ServerConfig) where
  pub forget_process-IsForgotten :
      (pid : ℕ) (m : Machine W) → IsForgotten (forget_process os cfg pid m).1.server
  unfolding forget_process
  forget_process-IsForgotten pid m = record { no_pid = refl; no_group = refl; not_ready = refl }

  -- Whatever comes of it, stopProcess forgets the process.
  pub stop_process-IsForgotten :
      (fuel : ℕ) (m : Machine W) → IsForgotten (stop_process os cfg fuel m).1.server
  unfolding stop_process
  stop_process-IsForgotten fuel m = forget_process-IsForgotten m.server.pid _
