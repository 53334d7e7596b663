-- ===== src/Control/LlamaHelp/Parser.antt =====
-- core/control/llama_help.go: reading the output of llama-server --help (LlamaServerParam,
-- tryParseFlagLine, appendDescription, parseLlamaServerHelp).
use llamarig.Common.{
  ℕ, ◌-◌, Bool, true, false, not, ◌||◌, Option, none, some, List, [], ◌∷◌, ◌++◌, ltb, ◌==◌,
  if◌then◌else◌, length, take, drop,
}
use llamarig.Common.Text.{
  Text, codes, after_prefix, starts_with, drop_while, trim_right, trim_space, split, cut,
}
use llamarig.Control.LlamaHelp.Flags.{bounded_flag_matches, consume_placeholder, parse_flag_column}

-- `LlamaServerParam`
pub record LlamaServerParam : Type 0 where
  pub key : Text
  pub aliases : List Text
  pub value_hint : Text
  pub default : Text
  pub description : Text

-- `\s` of a pattern.
is_pattern_space : ℕ → Bool
is_pattern_space c = c == 9 || c == 10 || c == 12 || c == 13 || c == 32

-- What the group of `defaultAnnotation` matches, at the front of a text.
annotation_here : Text → Option Text
unfolding is_pattern_space after_prefix drop_while cut
annotation_here s = elim (after_prefix (codes "(default:") s) [
  | none ↦ none
  | some rest ↦ elim (cut 41 (drop_while is_pattern_space rest)) [
    | none ↦ none
    | some (inside, after) ↦ some inside
  ]
]

-- `defaultAnnotation.FindStringSubmatch`: the group of the leftmost match.
unfoldable pub default_annotation : Text → Option Text
unfolding annotation_here
default_annotation [] = none
default_annotation (x ∷ xs) = elim (annotation_here (x ∷ xs)) [
  | none ↦ default_annotation xs
  | some inside ↦ some inside
]

-- The default that a text states, or the one that there is.
unfoldable pub annotated : Text → Text → Text
unfolding default_annotation
annotated old s = elim (default_annotation s) [ none ↦ old | some inside ↦ trim_space inside ]

unfoldable pub last_end : ℕ → List (ℕ × ℕ) → ℕ
last_end end [] = end
last_end end ((a, b) ∷ ms) = last_end b ms

unfoldable pub param_of_keys : List Text → Text → Text → Option LlamaServerParam
unfolding annotated
param_of_keys [] hint desc = none
param_of_keys (key ∷ keys) hint desc = some (record {
  key = key;
  aliases = keys;
  value_hint = hint;
  default = annotated [] desc;
  description = desc;
})

-- The parameter of a flag line whose flags end at a position.
unfoldable pub param_of_line : Text → ℕ → Option LlamaServerParam
unfolding param_of_keys
param_of_line line flag_column_end =
    let (boundary, hint) = consume_placeholder line flag_column_end in
    param_of_keys (parse_flag_column (take flag_column_end line)) hint
      (trim_space (drop boundary line))

-- The flags of a line that begins behind an indent: the first stands there.
unfoldable pub param_of_flags : List (ℕ × ℕ) → ℕ → Text → Option LlamaServerParam
unfolding last_end param_of_line
param_of_flags [] indent line = none
param_of_flags ((a, b) ∷ ms) indent line =
    if a == indent then param_of_line line (last_end b ms) else none

-- `tryParseFlagLine`
unfoldable pub try_parse_flag_line : Text → Option LlamaServerParam
unfolding starts_with drop_while bounded_flag_matches param_of_flags
try_parse_flag_line line =
    let trimmed = drop_while (λ c. c == 32) line in
    let indent = length line - length trimmed in
    if not (starts_with 45 trimmed)
    then none
    else if ltb 20 indent
    then none
    else param_of_flags (bounded_flag_matches line) indent line

-- `appendDescription`
unfoldable pub append_description : LlamaServerParam → Text → LlamaServerParam
unfolding annotated
append_description param line =
    let text = trim_space line in
    if length text == 0 then param else record {
      key = param.key;
      aliases = param.aliases;
      value_hint = param.value_hint;
      default = if length param.default == 0 then annotated param.default text else param.default;
      description = if length param.description == 0 then text else param.description ++ 32 ∷ text;
    }

-- A blank line, or one that begins with five dashes.
unfoldable pub ends_param : Text → Bool
unfolding after_prefix
ends_param line =
    let t = trim_space line in
    length t == 0 || elim (after_prefix (codes "-----") t) [ none ↦ false | some rest ↦ true ]

-- `*current` stands for the last parameter.
unfoldable pub append_last : List LlamaServerParam → Text → List LlamaServerParam
unfolding append_description
append_last [] line = []
append_last (p ∷ []) line = append_description p line ∷ []
append_last (p ∷ q ∷ ps) line = p ∷ append_last (q ∷ ps) line

-- A flag line opens a parameter; any other belongs to the parameter that is open.
unfoldable pub after_line :
    Option LlamaServerParam → Text → Bool → List LlamaServerParam → Bool × List LlamaServerParam
unfolding append_last
after_line (some param) line current params = (true, params ++ param ∷ [])
after_line none line current params = (current, if current then append_last params line else params)

-- A round of the loop of parseLlamaServerHelp; `current` tells whether the last parameter is open.
unfoldable pub help_line : Text → Bool → List LlamaServerParam → Bool × List LlamaServerParam
unfolding trim_right ends_param try_parse_flag_line after_line
help_line raw current params =
    let line = trim_right (λ c. c == 13) raw in
    if ends_param line
    then (false, params)
    else after_line (try_parse_flag_line line) line current params

unfoldable pub help_loop : List Text → Bool → List LlamaServerParam → List LlamaServerParam
unfolding help_line
help_loop [] current params = params
help_loop (raw ∷ lines) current params =
    let (is_open, ps) = help_line raw current params in help_loop lines is_open ps

-- `parseLlamaServerHelp`
unfoldable pub parse_llama_server_help : Text → List LlamaServerParam
unfolding help_loop
parse_llama_server_help text = help_loop (split 10 text) false []
