-- ===== src/Control/LlamaHelp/Tests.antt =====
-- Runs of the help parser, and its theorems at concrete inputs.
use llamarig.Common.{All, ◌<◌, ◌≡◌, refl, ◌⊎◌, List, [], ◌∷◌, length}
use llamarig.Common.Text.{Text, codes, trim_space, split_at}
use llamarig.Common.Results.{ok, err}
use llamarig.Control.LlamaHelp.Flags
use llamarig.Control.LlamaHelp.Parser.{LlamaServerParam, parse_llama_server_help}
use llamarig.Control.LlamaHelp.Cached.{
  HelpParamsCache, no_cache, not_there, get_llama_server_params, answer_or_run, cached_params,
  help_executable, keep_params, read_params, some_params,
}
use llamarig.Control.LlamaHelp.Names.{HasKeys, parse_llama_server_help-HasKeys}
use llamarig.Control.LlamaHelp.Runs.{Reach, start, called, HelpRun, Some}
use llamarig.Control.LlamaHelp.Fresh.{IsRecent, IsPrinted, get_llama_server_params-IsFresh}

abbrev threads : LlamaServerParam
threads = record {
  key = codes "threads";
  aliases = codes "t" ∷ [];
  value_hint = codes "N";
  default = codes "-1";
  description = codes "number of threads (default: -1)";
}

abbrev help : Text
help = codes "----- common -----\n-t,    --threads N    number of threads\n   (default: -1)\n"

-- The description goes on in the next line, and states the default.
reads_help : parse_llama_server_help help ≡ threads ∷ []
unfolding parse_llama_server_help trim_space split_at Flags.parse_flag_column
    Flags.consume_placeholder
reads_help = refl

-- A flag that the description names ends the column of the flags.
reads_named_flag :
    parse_llama_server_help (codes "--mlock    see --no-mmap")
    ≡ record {
      key = codes "mlock    see --no-mmap";
      aliases = [];
      value_hint = [];
      default = [];
      description = [];
    }
      ∷ []
unfolding parse_llama_server_help trim_space split_at Flags.parse_flag_column
    Flags.consume_placeholder
reads_named_flag = refl

-- The cache behind a first call, which ran the command.
abbrev first_cache : HelpParamsCache
first_cache = (get_llama_server_params (codes "x") 5 no_cache (ok help) 7 no_cache).1

abbrev first_runs : List HelpRun
first_runs = record { executable = codes "x"; output = help; ended = 7 } ∷ []

first_call-Reach : Reach first_runs first_cache
unfolding get_llama_server_params cached_params help_executable
first_call-Reach = called start start (codes "x") 5 (ok help) 7

get_llama_server_params-IsFresh_example :
    (0 < length (threads ∷ []))
    × (Some (IsRecent (codes "x") 9 (threads ∷ [])) first_runs
        ⊎ IsPrinted (err not_there) (threads ∷ []))
unfolding get_llama_server_params answer_or_run cached_params help_executable keep_params
    read_params some_params parse_llama_server_help trim_space split_at Flags.parse_flag_column
    Flags.consume_placeholder
get_llama_server_params-IsFresh_example =
    get_llama_server_params-IsFresh first_runs first_cache first_cache (codes "x") 9 10
      (err not_there) (threads ∷ []) first_call-Reach refl

parse_llama_server_help-HasKeys_example : All HasKeys (parse_llama_server_help help)
parse_llama_server_help-HasKeys_example = parse_llama_server_help-HasKeys help
