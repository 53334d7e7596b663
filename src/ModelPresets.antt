-- ===== src/ModelPresets.antt =====
-- core/modelpresets/store.go: sections, errors, and the canonical form of a key.
pub mod Keys
pub mod Ini
pub mod Lines
pub mod Store
pub mod Effects
pub mod Reading
pub mod Removal
pub mod Removed
pub mod Rendered
pub mod Values
pub mod Written
pub mod Put
pub mod Deleted
pub mod Source
pub mod Padded
mod Tests
use llamarig.Common.{
  ℕ, ◌+◌, ◌≡◌, Bool, true, false, not, ◌&&◌, ◌||◌, Option, none, some, List, [], ◌∷◌, map, leb,
  ◌==◌, if◌then◌else◌, any,
}
use llamarig.Common.Text.{Text, codes, ◌=ₜ◌, starts_with, after_prefix, contains_any, trim_space}
use llamarig.Common.Dict.{Dict, lookup}
use llamarig.Common.Results.{Result, ok, err}

pub record Section : Type 0 where
  pub name : Text
  pub values : Dict Text

-- What `ErrInvalid` is wrapped around.
pub data Invalid : Type 0 where
  bad_name malformed_header duplicate_section expected_pair : Text → Invalid
  empty_key global_section : Invalid
  env_key_case key_case bad_key duplicate_key newline_in_value : Text → Invalid

-- `ErrInvalid`, `ErrExists`, `ErrNotFound`, and what the file system answers.
pub data Error : Type 0 where
  invalid : Invalid → Error
  exists not_found : Text → Error
  io : Text → Error

abbrev pub Sections : Type 0
Sections = Dict Section

-- `unicode.ToUpper` and `unicode.ToLower` as far as a key can turn on them: of the characters
-- beyond ASCII, only these two have an ASCII lower case. Any other one is refused by the pattern.
abbrev pub to_upper : ℕ → ℕ
to_upper c = if leb b'a' c && leb c b'z' then Prim.Native.Nat.◌-◌ c 32 else c

abbrev pub to_lower : ℕ → ℕ
to_lower c =
    if leb b'A' c && leb c b'Z'
    then c + 32
    else if c == 0x212a
    then b'k'
    else if c == 0x130
    then b'i'
    else c

-- `strings.ReplaceAll(s, "_", "-")` on one character.
abbrev pub dashed : ℕ → ℕ
dashed c = if c == b'_' then b'-' else c

-- `^[a-z_][a-z0-9_.-]*$`
abbrev pub key_start : ℕ → Bool
key_start c = (leb b'a' c && leb c b'z') || c == b'_'

abbrev pub key_char : ℕ → Bool
key_char c = key_start c || (leb b'0' c && leb c b'9') || c == b'.' || c == b'-'

unfoldable pub key_rest : Text → Bool
key_rest [] = true
key_rest (c ∷ cs) = key_char c && key_rest cs

unfoldable pub key_pattern : Text → Bool
unfolding key_rest
key_pattern [] = false
key_pattern (c ∷ cs) = key_start c && key_rest cs

-- `keyAliases`
abbrev pub key_aliases : Dict Text
key_aliases =
    (codes "batch", codes "batch-size")
    ∷ (codes "ubatch", codes "ubatch-size")
    ∷ (codes "n-parallel", codes "parallel")
    ∷ (codes "endpoint-metrics", codes "metrics")
    ∷ (codes "endpoint-props", codes "props")
    ∷ (codes "endpoint-slots", codes "slots")
    ∷ (codes "think", codes "reasoning-format")
    ∷ (codes "think-budget", codes "reasoning-budget")
    ∷ (codes "models_dir", codes "models-dir")
    ∷ (codes "models_preset", codes "models-preset")
    ∷ (codes "models_max", codes "models-max")
    ∷ []

unfoldable pub unalias : Text → Text
unalias k = elim (lookup k key_aliases) [ none ↦ k | some a ↦ a ]

-- The end of `canonicalKey`, on a key in lower case.
unfoldable pub check_key : Text → Text → Result Error Text
unfolding key_pattern unalias
check_key key k = if not (key_pattern k) then err (invalid (bad_key key)) else ok (unalias k)

-- `canonicalKey` on the trimmed key.
unfoldable pub canonical_trimmed : Text → Text → Result Error Text
canonical_trimmed key trimmed =
    if trimmed =ₜ []
    then err (invalid empty_key)
    else elim (after_prefix (codes "LLAMA_ARG_") trimmed) [
      | some tail ↦
          if not (trimmed =ₜ map to_upper trimmed)
          then err (invalid (env_key_case key))
          else check_key key (map to_lower (map dashed tail))
      | none ↦
          if not (trimmed =ₜ map to_lower trimmed)
          then err (invalid (key_case key))
          else check_key key trimmed
    ]

-- `canonicalKey`
unfoldable pub canonical_key : Text → Result Error Text
unfolding canonical_trimmed check_key
canonical_key key = canonical_trimmed key (trim_space key)

-- `validateSectionName`
unfoldable pub validate_section_name : Text → Result Error (Unit {0})
validate_section_name name =
    if trim_space name =ₜ [] || contains_any (codes "[]\r\n;#=") name
    then err (invalid (bad_name name))
    else ok tt
