-- ===== src/ConfigStore/Store.antt =====
-- core/configstore/config_store.go `mutateDocument`: config.yaml as a file, read, edited, validated
-- and written back.
use llamarig.Common.{
  ℕ, ◌+◌, ◌≡◌, ◌≢◌, ◌⊎◌, Bool, true, false, Option, none, some, [], ◌∷◌, ◌++◌, ◌==◌, if◌then◌else◌,
  ltb,
}
use llamarig.FileDoc.{WriteFault, fault_text, is_behind_rename, write_file}
use llamarig.Common.Text.{Text, ◌=ₜ◌, trim_space, trim_right}
use llamarig.Common.Results.{Result, ok, err}
use llamarig.Config.{Config, ConfigError, parse_config}
use llamarig.Config.Validity.{IsValidConfig}
use llamarig.ConfigStore.{Node}

pub data StoreError : Type 0 where
  empty too_large no_config : StoreError
  malformed : ConfigError → StoreError
  io yaml ctx_done : Text → StoreError

-- The YAML library: a document from a text, a text from a document, and the decoder of a Config.
pub record Yaml : Type 0 where
  pub unmarshal : Text → Result Text Node
  pub encode : Node → Result Text Text
  pub decode : Text → Config → Result Text Config

-- config.yaml: missing, unreadable with the text of an error, or a text.
pub data File : Type 0 where
  missing : File
  unreadable : Text → File
  content : Text → File

-- The bytes of a text in UTF-8.
unfoldable pub size : Text → ℕ
size [] = 0
size (c ∷ cs) =
    (if ltb c 0x80 then 1 else if ltb c 0x800 then 2 else if ltb c 0x10000 then 3 else 4) + size cs

abbrev pub is_newline : ℕ → Bool
is_newline c = c == b'\n'

-- `normalize`
unfoldable pub normalize : Text → Text
normalize s = trim_right is_newline s ++ b'\n' ∷ []

module _ (y : Yaml) (limit_bytes : ℕ) where
  -- `readParsed`: the text and the configuration.
  unfoldable pub read_parsed : File → Result StoreError (Text × Config)
  read_parsed missing = err no_config
  read_parsed (unreadable e) = err (io e)
  read_parsed (content s) =
      if ltb limit_bytes (size s)
      then err too_large
      else elim (parse_config y.decode s) [ err e ↦ err (malformed e) | ok c ↦ ok (s, c) ]

  -- `Validate`; the trimmed bytes are empty where the trimmed text is.
  unfoldable pub validate : Text → Result StoreError Config
  validate s =
      if trim_space s =ₜ []
      then err empty
      else if ltb limit_bytes (size s)
      then err too_large
      else elim (parse_config y.decode s) [ err e ↦ err (malformed e) | ok c ↦ ok c ]

  -- `replaceLocked`; `fault` is the call of filedoc.WriteFile that fails.
  unfoldable pub replace_locked : Option WriteFault → Text → File → Result StoreError Bool × File
  replace_locked fault s missing = (err no_config, missing)
  replace_locked fault s (unreadable e) = (err (io e), unreadable e)
  replace_locked fault s (content old) =
      let (r, g) = write_file fault (content (normalize s)) (content old) in
      (elim r [ ok u ↦ ok true | err e ↦ err (io e) ], g)

  -- The end of `mutateDocument`: an edited document is encoded, validated and written.
  unfoldable pub save : Option WriteFault → Node → File → Result StoreError Bool × File
  unfolding replace_locked validate
  save fault document f = elim (y.encode document) [
    | err e ↦ (err (yaml e), f)
    | ok out ↦ elim (validate out) [ err e ↦ (err e, f) | ok c ↦ replace_locked fault out f ]
  ]

  -- `mutateDocument`; ok true where the file was written, ok false where nothing was to change.
  unfoldable pub mutate_document :
      Option Text → Option WriteFault → (Node → Node × Bool) → File → Result StoreError Bool × File
  unfolding read_parsed save
  mutate_document (some e) fault mutate f = (err (ctx_done e), f)
  mutate_document none fault mutate f = elim (read_parsed f) [
    | err e ↦ (err e, f)
    | ok (s, c) ↦ elim (y.unmarshal s) [
      | err e ↦ (err (yaml e), f)
      | ok document ↦
          let (edited, changed) = mutate document in
          if changed then save fault edited f else (ok false, f)
    ]
  ]

  -- The answer where the file was replaced: a change, or the error of a call behind the rename.
  abbrev pub Answers : Option WriteFault → Result StoreError Bool → Type 0
  Answers none r = r ≡ ok true
  Answers (some w) r = (is_behind_rename w.call ≡ true) × (r ≡ err (io (fault_text w)))

  -- What an edit did to the file: nothing, or it wrote the text of the edited document, from which
  -- `Parse` makes a valid configuration.
  unfoldable pub Kept :
      Option WriteFault → (Node → Node × Bool) → File → Result StoreError Bool × File → Type 0
  Kept fault mutate f r =
      ((r.0 ≢ ok true) × (r.1 ≡ f))
      ⊎ ((s : Text) × (document : Node) × (out : Text) × (c : Config) × Answers fault r.0
          × (r.1 ≡ content (normalize out))
          × (f ≡ content s)
          × (y.unmarshal s ≡ ok document)
          × ((mutate document).1 ≡ true)
          × (y.encode (mutate document).0 ≡ ok out)
          × (parse_config y.decode out ≡ ok c)
          × IsValidConfig c)
