-- ===== src/Control/LlamaHelp/Fresh.antt =====
-- core/control/llama_help.go: how old the answers of GetLlamaServerParams are, for calls that
-- overlap.
use llamarig.Common.{
  ℕ, ◌+◌, ◌<◌, ◌≡◌, refl, subst, ◌∙◌, ◌⊎◌, inl, inr, Option, none, some, List, [], ◌∷◌, arith,
  ltb→lt, length,
}
use llamarig.Common.Text.{Text, =ₜ_iff}
use llamarig.Common.Results.{Result, ok}
use llamarig.Control.{Failure}
use llamarig.Control.LlamaHelp.Parser.{LlamaServerParam, parse_llama_server_help}
use llamarig.Control.LlamaHelp.Cached.{
  help_params_ttl, HelpParamsCache, RunError, help_executable, cached_params, answer_or_run,
  get_llama_server_params,
}
use llamarig.Control.LlamaHelp.Runs.{
  HelpRun, Some, Some-map, Reach, Holds, Backed, Reach-Backed, read_params_ok,
}

-- A run of an earlier call of the same executable that ended less than ten minutes before the
-- answer is asked for, and printed what reads as the answer.
abbrev pub IsRecent : Text → ℕ → List LlamaServerParam → HelpRun → Type 0
IsRecent executable asked ps r =
    (r.executable ≡ executable)
    × (asked < r.ended + help_params_ttl)
    × (parse_llama_server_help r.output ≡ ps)

-- The call's own run printed what reads as the answer.
abbrev pub IsPrinted : Result RunError Text → List LlamaServerParam → Type 0
IsPrinted out ps = (text : Text) × (out ≡ ok text) × (parse_llama_server_help text ≡ ps)

Some-length :
    (c : HelpParamsCache) (runs : List HelpRun) → Some (Holds c) runs → 0 < length c.params
Some-length c [] s = elim s [ ]
Some-length c (r ∷ rs) (inl holds) = holds.3
Some-length c (r ∷ rs) (inr s) = Some-length c rs s

cached_params_ok :
    (c : HelpParamsCache) (executable : Text) (asked : ℕ) (ps : List LlamaServerParam)
    → cached_params c executable asked ≡ some ps
    → (c.executable ≡ executable) × (asked < c.expires) × (c.params ≡ ps)
unfolding cached_params
cached_params_ok c executable asked ps h =
    ground (arith, =ₜ_iff c.executable executable, ltb→lt asked c.expires)

not_before : (a b : ℕ) → b ≡ 0 → a < b → ⊥
not_before a b never before = omega arith

kept_IsRecent :
    (runs : List HelpRun) (c : HelpParamsCache) (executable : Text) (asked : ℕ)
    (ps : List LlamaServerParam)
    → Backed runs c
    → cached_params c executable asked ≡ some ps
    → Some (IsRecent executable asked ps) runs × (0 < length ps)
kept_IsRecent runs c executable asked ps b h =
    let (same, before, params) = cached_params_ok c executable asked ps h in
    elim b [
      | inl never ↦ elim (not_before asked c.expires never before) [ ]
      | inr s ↦ (
        Some-map (Holds c) (IsRecent executable asked ps) runs
            (λ r holds. (holds.0 ∙ same, omega (arith, holds.1, before), holds.2 ∙ params)) s,
        subst (λ (qs : List LlamaServerParam). 0 < length qs) params (Some-length c runs s),
      )
    ]

same_hit :
    (c : HelpParamsCache) (executable : Text) (asked : ℕ) (qs ps : List LlamaServerParam)
    → cached_params c executable asked ≡ some qs
    → ◌≡◌ {A = Result Failure (List LlamaServerParam)} (ok qs) (ok ps)
    → cached_params c executable asked ≡ some ps
same_hit c executable asked qs ps e h = cc

answered_IsFresh :
    (old : List HelpRun) (first : HelpParamsCache) (hit : Option (List LlamaServerParam))
    (executable : Text) (asked : ℕ) (out : Result RunError Text) (ended : ℕ)
    (second : HelpParamsCache) (ps : List LlamaServerParam)
    → Backed old first
    → cached_params first executable asked ≡ hit
    → (answer_or_run hit executable out ended second).0 ≡ ok ps
    → (0 < length ps) × (Some (IsRecent executable asked ps) old ⊎ IsPrinted out ps)
unfolding answer_or_run
answered_IsFresh old first (some qs) executable asked out ended second ps b e h =
    let (recent, more) =
      kept_IsRecent old first executable asked ps b (same_hit first executable asked qs ps e h) in
    (more, inl recent)
answered_IsFresh old first none executable asked out ended second ps b e h =
    let (text, printed, read, more) = read_params_ok executable out ps h in
    (more, inr (text, printed, read))

-- An answer that is no error has a parameter, and is what some run of the executable printed: one
-- of an earlier call, which ended less than ten minutes before this call began or later, or the
-- call's own; however calls overlap.
pub get_llama_server_params-IsFresh :
    (old : List HelpRun) (first second : HelpParamsCache) (configured : Text) (asked ended : ℕ)
    (out : Result RunError Text) (ps : List LlamaServerParam)
    → Reach old first
    → (get_llama_server_params configured asked first out ended second).0 ≡ ok ps
    → (0 < length ps)
      × (Some (IsRecent (help_executable configured) asked ps) old ⊎ IsPrinted out ps)
unfolding get_llama_server_params
get_llama_server_params-IsFresh old first second configured asked ended out ps r h =
    let executable = help_executable configured in
    answered_IsFresh old first (cached_params first executable asked) executable asked out ended
      second ps (Reach-Backed old first r) refl h
