-- ===== src/ModelPresets/Source.antt =====
-- core/modelpresets/source.go: the model files that a preset names.
use llamarig.Common.{
  Bool, true, false, not, ◌&&◌, Option, none, some, List, [], ◌∷◌, ◌++◌, if◌then◌else◌,
}
use llamarig.Common.Text.{Text, codes, ◌=ₜ◌, trim_space, text_ltb}
use llamarig.Common.Dict.{lookup}
use llamarig.ModelPresets.{Section}

-- What `os.Stat` finds.
pub data Stat : Type 0 where
  absent : Stat
  unreadable : Text → Stat
  directory regular special : Stat

-- The file system as far as a preset's paths are looked at: the canonical form of a path, with `~`
-- expanded and links resolved, whether a directory holds a path, and what stands at a path.
pub record Paths : Type 0 where
  pub canonical : Text → Text
  pub holds : Text → Text → Bool
  pub stat : Text → Stat

pub data SourceStatus : Type 0 where
  ready : SourceStatus
  unavailable : Text → SourceStatus

-- `section.Values[key]`; the map of a section that was read is never nil.
abbrev pub value_at : Text → Section → Text
value_at key s = elim (lookup key s.values) [ none ↦ [] | some v ↦ v ]

pub record References : Type 0 where
  pub model_paths : List Text
  pub model_dirs : List Text

unfoldable pub insert_text : Text → List Text → List Text
insert_text n [] = n ∷ []
insert_text n (m ∷ ms) = if text_ltb m n then m ∷ insert_text n ms else n ∷ m ∷ ms

module _ (paths : Paths) where
  -- `requirePath`
  unfoldable pub require_path : Text → Bool → Option Text
  require_path raw want_dir = elim (paths.stat (paths.canonical (trim_space raw))) [
    | absent ↦ some (codes "source does not exist")
    | unreadable e ↦ some (codes "inspect source: " ++ e)
    | directory ↦ if want_dir then none else some (codes "source is not a regular file")
    | regular ↦ if want_dir then some (codes "source is not a directory") else none
    | special ↦ some (
        if want_dir
        then codes "source is not a directory"
        else codes "source is not a regular file")
  ]

  -- One round of the loop of `InspectSource`: none where the source is not configured.
  unfoldable pub look_at : Text → Bool → Option (Option Text)
  unfolding require_path
  look_at path dir = if trim_space path =ₜ [] then none else some (require_path path dir)

  -- `InspectSource`
  unfoldable pub inspect_source : Section → SourceStatus
  unfolding look_at
  inspect_source s =
      let models_dir = look_at (value_at (codes "models-dir") s) true in
      elim (look_at (value_at (codes "model") s) false) [
        | some (some e) ↦ unavailable e
        | some none ↦ elim models_dir [
          | none ↦ ready
          | some none ↦ ready
          | some (some e) ↦ unavailable e
        ]
        | none ↦ elim models_dir [
          | none ↦ unavailable (codes "preset has no model or models-dir source")
          | some none ↦ ready
          | some (some e) ↦ unavailable e
        ]
      ]

  -- `sourcePath`
  unfoldable pub source_path : Section → Text → Text
  source_path s key =
      let path = trim_space (value_at key s) in if path =ₜ [] then [] else paths.canonical path

  -- Whether the section names the model file, and whether it names a directory that holds it.
  unfoldable pub names_model : Text → Section → Bool
  unfolding source_path
  names_model path s =
      let model = source_path s (codes "model") in not (model =ₜ []) && model =ₜ path

  unfoldable pub names_dir : Text → Section → Bool
  unfolding source_path
  names_dir path s =
      let dir = source_path s (codes "models-dir") in not (dir =ₜ []) && paths.holds dir path

  unfoldable pub sorted_names : (Section → Bool) → List Section → List Text
  unfolding insert_text
  sorted_names names [] = []
  sorted_names names (s ∷ ss) =
      if names s then insert_text s.name (sorted_names names ss) else sorted_names names ss

  -- `FindReferences`, with `CanonicalizeSections`.
  unfoldable pub find_references : List Section → Text → References
  unfolding sorted_names names_model names_dir
  find_references sections path =
      let model_path = paths.canonical path in
      record {
        model_paths = sorted_names (names_model model_path) sections;
        model_dirs = sorted_names (names_dir model_path) sections;
      }
