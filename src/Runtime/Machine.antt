-- ===== src/Runtime/Machine.antt =====
-- The server's state and the operating system behind it, and operations on both.
use llamarig.Common.{ℕ, Bool, Option, List}
use llamarig.Common.Text.{Text}
use llamarig.Common.Results.{Result}
use llamarig.Runtime.{Failure}

-- How a process ended: the error that `cmd.Wait` returns, if any.
abbrev pub Exit : Type 0
Exit = Option Text

-- Whom a signal is sent to.
pub data Target : Type 0 where
  process : ℕ → Target
  group : ℕ → Target

pub data Signal : Type 0 where
  interrupt kill probe : Signal

-- The calls of the system, on a state of the world of any type. The goroutine that waits for a
-- process, takes its PID file away and sends its error is a part of the world: `exited` receives
-- that error where it is there, `wait_exit` waits for it until the context is done, `wait_killed`
-- for at most a second.
pub record Os (W : Type 0) : Type 0 where
  pub now : W → ℕ × W
  pub spawn : Text → List Text → List Text → W → Result Text ℕ × W
  pub group_of : ℕ → W → ℕ × W
  pub exited : W → Option Exit × W
  pub wait_exit : W → Option Exit × W
  pub wait_killed : W → Option Exit × W
  pub signal : Signal → Target → W → Option Text × W
  -- `time.NewTimer` against `ctx.Done()`: whether the context is done.
  pub pause : W → Bool × W
  pub dial : Text → W → Option Text × W
  pub get : Text → W → Result Text ℕ × W
  -- The PID file: `none` where it is not there.
  pub read_file : W → Result Text (Option Text) × W
  pub write_file : Text → W → Option Text × W
  pub remove_file : W → Option Text × W
  pub executable : ℕ → W → Result Text Text × W
  pub look_path : Text → W → Text × W

-- LlamaServer: `cmd != nil`, and what it remembers. A pid of zero is no process.
pub record LlamaServer : Type 0 where
  pub cmd : Bool
  pub error : Option Failure
  pub ready : Bool
  pub pid : ℕ
  pub pgid : ℕ

pub record Machine (W : Type 0) : Type 0 where
  pub server : LlamaServer
  pub world : W

-- An operation of the server, under its lock.
abbrev pub M : Type 0 → Type 0 → Type 0
M W A = Machine W → A × Machine W

abbrev pub pure : {W A : Type 0} → A → M W A
pure a m = (a, m)

infixl 5 ◌>>=◌ ◌>>◌
abbrev pub ◌>>=◌ : {W A B : Type 0} → M W A → (A → M W B) → M W B
◌>>=◌ first next m = let (a, m') = first m in next a m'

abbrev pub ◌>>◌ : {W B : Type 0} → M W (Unit {0}) → M W B → M W B
first >> next = first >>= λ _. next

-- A call of the system.
abbrev pub call : {W A : Type 0} → (W → A × W) → M W A
call f m = let (a, w) = f m.world in (a, record m { world = w })

abbrev pub look : {W : Type 0} → M W LlamaServer
look m = (m.server, m)

abbrev pub change : {W : Type 0} → (LlamaServer → LlamaServer) → M W (Unit {0})
change f m = (tt, record m { server = f m.server })
