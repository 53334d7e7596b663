-- ===== src/Control/LlamaHelp/Cached.antt =====
-- core/control/llama_help.go: what was read of an executable is kept for ten minutes
-- (helpParamsCache, Manager.GetLlamaServerParams). Each use of the cache is under its mutex; the
-- command runs outside it. Times count nanoseconds.
use llamarig.Common.{
  ℕ, ◌+◌, ◌*◌, ◌&&◌, Option, none, some, List, [], ◌∷◌, ◌++◌, ltb, ◌==◌, if◌then◌else◌, length,
}
use llamarig.Common.Text.{Text, codes, ◌=ₜ◌}
use llamarig.Common.Results.{Result, ok, err}
use llamarig.Control.{Failure, core_error, invalid_input}
use llamarig.Control.LlamaHelp.Parser.{LlamaServerParam, parse_llama_server_help}

-- `helpParamsTTL`
abbrev pub help_params_ttl : ℕ
help_params_ttl = 10 * 60 * 1000000000

-- `helpParamsCache`, without its mutex.
pub record HelpParamsCache : Type 0 where
  pub executable : Text
  pub params : List LlamaServerParam
  pub expires : ℕ

-- The zero value; the zero time is before every time of the clock.
abbrev pub no_cache : HelpParamsCache
no_cache = record { executable = []; params = []; expires = 0 }

-- An error of the command that runs: `exec.ErrNotFound`, or one with a text.
pub data RunError : Type 0 where
  not_there : RunError
  run_failed : Text → RunError

-- The executable that is asked.
unfoldable pub help_executable : Text → Text
help_executable configured = if length configured == 0 then codes "llama-server" else configured

-- The first use of the cache.
unfoldable pub cached_params : HelpParamsCache → Text → ℕ → Option (List LlamaServerParam)
unfolding ◌=ₜ◌
cached_params c executable now =
    if (c.executable =ₜ executable) && ltb now c.expires then some c.params else none

-- An output with no flag is an error.
unfoldable pub some_params : Text → List LlamaServerParam → Result Failure (List LlamaServerParam)
some_params executable [] = err (
    core_error invalid_input
      (codes "no flags parsed from " ++ executable ++ codes " --help output"))
some_params executable (p ∷ ps) = ok (p ∷ ps)

-- What a run of the command gives.
unfoldable pub read_params : Text → Result RunError Text → Result Failure (List LlamaServerParam)
read_params executable (err not_there) =
    err (core_error invalid_input (executable ++ codes " not found; cannot read flag help"))
read_params executable (err (run_failed why)) =
    err (core_error invalid_input (executable ++ codes " --help failed: " ++ why))
read_params executable (ok out) = some_params executable (parse_llama_server_help out)

-- The second use of the cache, which replaces it.
unfoldable pub keep_params :
    Text → ℕ → Result Failure (List LlamaServerParam) → HelpParamsCache → HelpParamsCache
keep_params executable now (err e) c = c
keep_params executable now (ok params) c = record {
  executable = executable;
  params = params;
  expires = now + help_params_ttl;
}

-- What follows the first use of the cache: its answer, or a run of the command.
unfoldable pub answer_or_run :
    Option (List LlamaServerParam)
    → Text
    → Result RunError Text
    → ℕ
    → HelpParamsCache
    → Result Failure (List LlamaServerParam) × HelpParamsCache
answer_or_run (some params) executable out ended c = (ok params, c)
answer_or_run none executable out ended c =
    let answer = read_params executable out in (answer, keep_params executable ended answer c)

-- `GetLlamaServerParams`: `first` is the cache at its first use, at the time `asked`, `second` the
-- cache when the command, which answers `out`, has ended, at the time `ended`.
unfoldable pub get_llama_server_params :
    Text
    → ℕ
    → HelpParamsCache
    → Result RunError Text
    → ℕ
    → HelpParamsCache
    → Result Failure (List LlamaServerParam) × HelpParamsCache
get_llama_server_params configured asked first out ended second =
    let executable = help_executable configured in
    answer_or_run (cached_params first executable asked) executable out ended second
