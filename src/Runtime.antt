-- ===== src/Runtime.antt =====
-- core/runtime/types.go, and what llama_server_runtime.go is given: its configuration, and the
-- operating system that it calls.
pub mod Machine
pub mod PidFile
pub mod Server
mod Tests
use llamarig.Common.{
  ℕ, ◌*◌, Bool, true, false, ◌&&◌, ◌||◌, Option, none, some, List, [], ◌∷◌, ◌++◌, ◌==◌,
  if◌then◌else◌, not, any,
}
use llamarig.Common.Text.{Text, codes, ◌=ₜ◌, contains, decimal}
use llamarig.Common.Results.{Result, ok, err}

pub data RunState : Type 0 where
  running stopped starting stopping failed : RunState

pub data ErrorKind : Type 0 where
  invalid_input runtime_error timeout : ErrorKind

-- An error: a `*Error` has a kind, any other error none.
pub record Failure : Type 0 where
  pub kind : Option ErrorKind
  pub message : Text

-- `fmt.Errorf`, and an error of the system.
abbrev pub plain : Text → Failure
plain message = record { kind = none; message = message }

-- `NewError`, `Errorf`.
abbrev pub new_error : ErrorKind → Text → Failure
new_error kind message = record { kind = some kind; message = message }

pub record ProcessStatus : Type 0 where
  pub name : Text
  pub state : RunState
  pub pid : ℕ
  pub host : Text
  pub port : ℕ
  pub ready : Bool
  pub last_error : Text

-- Status has one process; the time of the check is left out.
pub record Status : Type 0 where
  pub state : RunState
  pub detail : Text
  pub process : ProcessStatus

-- The duration is left out.
pub record CommandResult : Type 0 where
  pub action : Text
  pub exit_code : ℕ
  pub stdout : Text
  pub stderr : Text

-- Durations are nanoseconds.
pub record ServerConfig : Type 0 where
  pub name : Text
  pub executable : Text
  pub argv : List Text
  pub host : Text
  pub port : ℕ
  pub env : List (Text × Text)
  pub timeout : ℕ
  pub readiness_path : Text
  pub readiness_timeout : ℕ
  pub readiness_interval : ℕ
  pub pid_dir : Text

-- `cmp.Or`.
abbrev pub or_text : Text → Text → Text
or_text [] default = default
or_text (c ∷ s) default = c ∷ s

abbrev pub or_number : ℕ → ℕ → ℕ
or_number n default = if n == 0 then default else n

abbrev default_pid_dir : Text → Result Text Text → Text
default_pid_dir (c ∷ s) home = c ∷ s
default_pid_dir [] (err _) = []
default_pid_dir [] (ok home) = home ++ codes "/run/llama"

-- `applyDefaults`, with what `LlamaRigHome` returns.
unfoldable pub apply_defaults : Result Text Text → ServerConfig → ServerConfig
apply_defaults home c = record c {
  name = or_text c.name (codes "llama-server");
  executable = or_text c.executable (codes "llama-server");
  host = or_text c.host (codes "127.0.0.1");
  port = or_number c.port 8080;
  timeout = or_number c.timeout 10000000000;
  readiness_timeout = or_number c.readiness_timeout 60000000000;
  readiness_interval = or_number c.readiness_interval 500000000;
  pid_dir = default_pid_dir c.pid_dir home;
}

pub record Command : Type 0 where
  pub executable : Text
  pub argv : List Text
  pub display : Text

abbrev pub join_words : List Text → Text
join_words [] = []
join_words (a ∷ []) = a
join_words (a ∷ b ∷ words) = a ++ b' ' ∷ join_words (b ∷ words)

unfoldable pub command : ServerConfig → Result Failure Command
command c = elim c.executable [
  | [] ↦ err (new_error ErrorKind.invalid_input (c.name ++ codes " executable is required"))
  | x ∷ s ↦
      ok (record { executable = x ∷ s; argv = c.argv; display = join_words ((x ∷ s) ∷ c.argv) })
]

abbrev pub env_list : List (Text × Text) → List Text
env_list [] = []
env_list ((key, value) ∷ env) = (key ++ b'=' ∷ value) ∷ env_list env

-- `readinessHost`.
unfoldable pub readiness_host : Text → Text
readiness_host host =
    if host =ₜ [] || host =ₜ codes "0.0.0.0" || host =ₜ codes "::" then codes "127.0.0.1" else host

-- `net.JoinHostPort`.
unfoldable pub join_host_port : Text → ℕ → Text
unfolding decimal
join_host_port host port =
    if contains b':' host
    then b'[' ∷ host ++ codes "]:" ++ decimal port
    else host ++ b':' ∷ decimal port

-- `name == "" || name == "." || name == ".." || filepath.Base(name) != name`.
unfoldable pub is_bad_name : Text → Bool
is_bad_name name =
    name =ₜ []
    || name =ₜ codes "."
    || name =ₜ codes ".."
    || (contains b'/' name && not (name =ₜ codes "/"))

-- `pidFile`, without the path that it makes; `%q` of a name without special characters.
unfoldable pub pid_file : ServerConfig → Result Failure (Unit {0})
unfolding is_bad_name
pid_file c =
    if c.pid_dir =ₜ []
    then err (plain (codes "llama PID directory is not configured"))
    else if is_bad_name c.name
    then err (plain (codes "invalid llama process name " ++ b'"' ∷ c.name ++ b'"' ∷ []))
    else ok tt
