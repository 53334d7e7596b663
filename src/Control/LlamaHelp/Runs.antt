-- ===== src/Control/LlamaHelp/Runs.antt =====
-- core/control/llama_help.go: the caches that overlapping calls of GetLlamaServerParams leave, with
-- the runs of the command.
use llamarig.Common.{
  ℕ, ◌+◌, ◌<◌, ◌≡◌, refl, ◌⊎◌, inl, inr, Option, none, some, List, [], ◌∷◌, ◌++◌, arith, length,
}
use llamarig.Common.Text.{Text}
use llamarig.Common.Results.{Result, ok, err}
use llamarig.Control.LlamaHelp.Parser.{LlamaServerParam, parse_llama_server_help}
use llamarig.Control.LlamaHelp.Cached.{
  help_params_ttl, HelpParamsCache, no_cache, RunError, help_executable, cached_params, read_params,
  some_params, keep_params, answer_or_run, get_llama_server_params,
}

-- A run of the command that printed its help, with the time at which it had ended.
pub record HelpRun : Type 0 where
  pub executable : Text
  pub output : Text
  pub ended : ℕ

-- Some run of a list has a property.
abbrev pub Some : (HelpRun → Type 0) → List HelpRun → Type 0
Some P [] = ⊥
Some P (r ∷ rs) = P r ⊎ Some P rs

pub Some-map :
    (P Q : HelpRun → Type 0) (rs : List HelpRun)
    → ((r : HelpRun) → P r → Q r)
    → Some P rs
    → Some Q rs
Some-map P Q [] f s = s
Some-map P Q (r ∷ rs) f (inl p) = inl (f r p)
Some-map P Q (r ∷ rs) f (inr s) = inr (Some-map P Q rs f s)

-- The run of a command with this answer.
abbrev pub run_of : Text → Result RunError Text → ℕ → List HelpRun
run_of executable (err e) ended = []
run_of executable (ok text) ended =
    record { executable = executable; output = text; ended = ended } ∷ []

-- The runs of a call: none where the cache answers.
abbrev runs_with : Option (List LlamaServerParam) → Text → Result RunError Text → ℕ → List HelpRun
runs_with (some params) executable out ended = []
runs_with none executable out ended = run_of executable out ended

abbrev pub runs_of : Text → ℕ → HelpParamsCache → Result RunError Text → ℕ → List HelpRun
runs_of configured asked first out ended =
    let executable = help_executable configured in
    runs_with (cached_params first executable asked) executable out ended

-- The caches that calls leave, with the runs there were, the latest first. A call may have read
-- any cache that there has been, since the mutex is free while the command runs.
pub data Reach : List HelpRun → HelpParamsCache → Type 0 where
  start : Reach [] no_cache
  called :
      {old runs : List HelpRun} {first second : HelpParamsCache}
      → Reach old first
      → Reach runs second
      → (configured : Text) (asked : ℕ) (out : Result RunError Text) (ended : ℕ)
      → Reach
          (runs_of configured asked first out ended ++ runs)
          (get_llama_server_params configured asked first out ended second).1

-- The run whose output the cache holds.
abbrev pub Holds : HelpParamsCache → HelpRun → Type 0
Holds c r =
    (r.executable ≡ c.executable)
    × (r.ended + help_params_ttl ≡ c.expires)
    × (parse_llama_server_help r.output ≡ c.params)
    × (0 < length c.params)

-- Nothing is kept, or what a run printed.
abbrev pub Backed : List HelpRun → HelpParamsCache → Type 0
Backed runs c = (c.expires ≡ 0) ⊎ Some (Holds c) runs

some_params_ok :
    (executable : Text) (qs ps : List LlamaServerParam)
    → some_params executable qs ≡ ok ps
    → (qs ≡ ps) × (0 < length ps)
unfolding some_params
some_params_ok executable [] ps h = cc
some_params_ok executable (q ∷ qs) (p ∷ ps) h = (cc, omega arith)
some_params_ok executable (q ∷ qs) [] h = cc

pub read_params_ok :
    (executable : Text) (out : Result RunError Text) (ps : List LlamaServerParam)
    → read_params executable out ≡ ok ps
    → (text : Text) × (out ≡ ok text) × (parse_llama_server_help text ≡ ps) × (0 < length ps)
unfolding read_params
read_params_ok executable (err RunError.not_there) ps h = cc
read_params_ok executable (err (RunError.run_failed why)) ps h = cc
read_params_ok executable (ok text) ps h =
    let (same, more) = some_params_ok executable (parse_llama_server_help text) ps h in
    (text, refl, same, more)

keep_read :
    (runs : List HelpRun) (executable text : Text) (ended : ℕ) (c : HelpParamsCache)
    (qs : List LlamaServerParam)
    → Backed runs c
    → parse_llama_server_help text ≡ qs
    → Backed
        (record { executable = executable; output = text; ended = ended } ∷ runs)
        (keep_params executable ended (some_params executable qs) c)
unfolding some_params keep_params
keep_read runs executable text ended c [] (inl empty) h = inl empty
keep_read runs executable text ended c [] (inr s) h = inr (inr s)
keep_read runs executable text ended c (q ∷ qs) b h = inr (inl (refl, refl, h, omega arith))

Backed-keep :
    (runs : List HelpRun) (executable : Text) (out : Result RunError Text) (ended : ℕ)
    (c : HelpParamsCache)
    → Backed runs c
    → Backed
        (run_of executable out ended ++ runs)
        (keep_params executable ended (read_params executable out) c)
unfolding read_params keep_params
Backed-keep runs executable (err RunError.not_there) ended c b = b
Backed-keep runs executable (err (RunError.run_failed why)) ended c b = b
Backed-keep runs executable (ok text) ended c b =
    keep_read runs executable text ended c (parse_llama_server_help text) b refl

Backed-answered :
    (runs : List HelpRun) (hit : Option (List LlamaServerParam)) (executable : Text)
    (out : Result RunError Text) (ended : ℕ) (c : HelpParamsCache)
    → Backed runs c
    → Backed
        (runs_with hit executable out ended ++ runs)
        (answer_or_run hit executable out ended c).1
unfolding answer_or_run
Backed-answered runs (some params) executable out ended c b = b
Backed-answered runs none executable out ended c b = Backed-keep runs executable out ended c b

-- Every cache is empty or holds what a run printed.
pub Reach-Backed : (runs : List HelpRun) (c : HelpParamsCache) → Reach runs c → Backed runs c
unfolding get_llama_server_params
Reach-Backed runs c start = inl refl
Reach-Backed _ _ (called {old} {runs} {first} {second} before r configured asked out ended) =
    let executable = help_executable configured in
    Backed-answered runs (cached_params first executable asked) executable out ended second
      (Reach-Backed runs second r)
