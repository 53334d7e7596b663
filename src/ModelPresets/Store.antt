-- ===== src/ModelPresets/Store.antt =====
-- core/modelpresets/store.go: the operations of the preset store on models.ini. Its lock makes each
-- operation one step on the file.
use llamarig.Common.{
  ℕ, Bool, true, false, ◌&&◌, ◌||◌, Option, none, some, List, [], ◌∷◌, ◌++◌, ◌==◌, if◌then◌else◌,
}
use llamarig.FileDoc.{WriteFault, write_file}
use llamarig.Common.Text.{Text, codes, ◌=ₜ◌, contains_any, trim_right, text_ltb}
use llamarig.Common.Dict.{Dict, lookup, insert, erase}
use llamarig.Common.Results.{Result, ok, err, ◌>>=◌, ◌>>◌}
use llamarig.ModelPresets.{
  Section, Sections, Error, invalid, exists, not_found, io, duplicate_key, newline_in_value,
  global_section, canonical_key, validate_section_name,
}
use llamarig.ModelPresets.Ini.{newline, parse, render_section, remove_section}

-- models.ini: missing, unreadable with the text of an error, or a text.
pub data File : Type 0 where
  missing : File
  unreadable : Text → File
  content : Text → File

-- `read`: the sections, and the text that they come from.
unfoldable pub read : File → Result Error (Sections × Text)
read missing = ok ([], codes "version = 1\n")
read (unreadable e) = err (io e)
read (content s) = parse s >>= λ secs. ok (secs, s)

-- `'\r'` or `'\n'`, the cut set of `TrimRight`.
abbrev pub is_eol : ℕ → Bool
is_eol c = c == b'\r' || c == b'\n'

-- The text that `write` hands to filedoc.WriteFile.
unfoldable pub written : Text → Text
written s = trim_right is_eol s ++ newline ∷ []

-- `write`; `fault` is the call of filedoc.WriteFile that fails.
unfoldable pub write : Option WriteFault → Text → File → Result Error (Unit {0}) × File
unfolding written write_file
write fault s f =
    let (r, g) = write_file fault (content (written s)) f in
    (elim r [ ok u ↦ ok u | err e ↦ err (io e) ], g)

-- The loop of `Put` over the values, in the order that the map is walked.
unfoldable pub canonical_values : Dict Text → Dict Text → Result Error (Dict Text)
canonical_values [] values = ok values
canonical_values ((key, value) ∷ rest) values = do
  k ← canonical_key key
  elim (lookup k values) [
    | some v ↦ err (invalid (duplicate_key k))
    | none ↦
        let done = canonical_values rest (insert k value values) in
        if contains_any (codes "\r\n") value then err (invalid (newline_in_value key)) else done
  ]

-- The new text of `Put`.
unfoldable pub replaced : Section → Bool → Text → Text
replaced s old text =
    trim_right is_eol (if old then remove_section text s.name else text) ++ render_section s

abbrev pub is_some {ℓ} : {A : Type ℓ} → Option A → Bool
is_some none = false
is_some (some a) = true

-- `Put`
unfoldable pub put : Option WriteFault → Section → Bool → File → Result Error (Unit {0}) × File
unfolding replaced write canonical_values
put fault s create_only f =
    let checked : Result Error (Dict Text) =
      validate_section_name s.name >> canonical_values s.values [] in
    elim checked [
      | err e ↦ (err e, f)
      | ok values ↦ elim (read f) [
        | err e ↦ (err e, f)
        | ok (secs, text) ↦
            let old = is_some (lookup s.name secs) in
            if create_only && old
            then (err (exists s.name), f)
            else write fault (replaced (record { name = s.name; values = values }) old text) f
      ]
    ]

-- `Delete`
unfoldable pub delete : Option WriteFault → Text → File → Result Error (Unit {0}) × File
unfolding write
delete fault name f = elim (validate_section_name name) [
  | err e ↦ (err e, f)
  | ok u ↦ if name =ₜ codes "*" then (err (invalid global_section), f) else elim (read f) [
    | err e ↦ (err e, f)
    | ok (secs, text) ↦ elim (lookup name secs) [
      | none ↦ (ok tt, f)
      | some s ↦ write fault (remove_section text name) f
    ]
  ]
]

-- `Get`
unfoldable pub get : Text → File → Result Error Section
get name f = read f >>= λ (secs, text). elim (lookup name secs) [
  | none ↦ err (not_found name)
  | some s ↦ ok s
]

-- `Global`
unfoldable pub global : File → Result Error Section
global f = read f >>= λ (secs, text). elim (lookup (codes "*") secs) [
  | some s ↦ ok s
  | none ↦ ok (record { name = codes "*"; values = [] })
]

-- `sort.Slice` by name.
unfoldable pub insert_by_name : Section → List Section → List Section
insert_by_name s [] = s ∷ []
insert_by_name s (t ∷ ts) = if text_ltb t.name s.name then t ∷ insert_by_name s ts else s ∷ t ∷ ts

unfoldable pub sort_sections : Sections → List Section
unfolding insert_by_name
sort_sections [] = []
sort_sections ((k, s) ∷ d) = insert_by_name s (sort_sections d)

-- `List`
unfoldable pub list : File → Result Error (List Section)
unfolding sort_sections
list f = read f >>= λ (secs, text). ok (sort_sections (erase (codes "*") secs))
