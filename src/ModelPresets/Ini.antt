-- ===== src/ModelPresets/Ini.antt =====
-- core/modelpresets/store.go `read`, `renderSection` and `removeSection`: the text of models.ini.
use llamarig.Common.{
  ℕ, Bool, true, not, ◌&&◌, ◌||◌, none, some, List, [], ◌∷◌, ◌++◌, ◌==◌, if◌then◌else◌,
}
use llamarig.Common.Text.{
  Text, codes, ◌=ₜ◌, starts_with, ends_with, trim_space, split, join, cut, text_ltb,
}
use llamarig.Common.Dict.{Dict, lookup, insert, adjust}
use llamarig.Common.Results.{Result, ok, err, ◌>>=◌, ◌>>◌}
use llamarig.ModelPresets.{
  Section, Sections, Error, invalid, malformed_header, duplicate_section, expected_pair,
  canonical_key, validate_section_name,
}

abbrev pub newline : ℕ
newline = 10

-- `trimmed[1 : len(trimmed)-1]`
unfoldable pub drop_last : Text → Text
drop_last [] = []
drop_last (x ∷ []) = []
drop_last (x ∷ y ∷ xs) = x ∷ drop_last (y ∷ xs)

unfoldable pub inner : Text → Text
unfolding drop_last
inner [] = []
inner (x ∷ xs) = drop_last xs

-- Blank, or a comment.
unfoldable pub is_idle : Text → Bool
is_idle trimmed = trimmed =ₜ [] || starts_with b';' trimmed || starts_with b'#' trimmed

abbrev pub is_blank : ℕ → Bool
is_blank c = c == b' ' || c == b'\t'

abbrev pub is_mark : ℕ → Bool
is_mark c = c == b';' || c == b'#'

-- A value up to the first match of `[ \t][;#]`.
unfoldable pub strip_comment : Text → Text
strip_comment [] = []
strip_comment (x ∷ []) = x ∷ []
strip_comment (x ∷ y ∷ xs) = if is_blank x && is_mark y then [] else x ∷ strip_comment (y ∷ xs)

-- The loop's variables: the sections so far, and the name of the current one.
pub record Reader : Type 0 where
  pub sections : Sections
  pub current : Text

-- `sections[current].Values[key] = value`
abbrev pub put_value : Text → Text → Section → Section
put_value key value s = record s { values = insert key value s.values }

unfoldable pub set_value : Text → Text → Reader → Reader
set_value key value r = record r { sections = adjust r.current (put_value key value) r.sections }

-- A section header.
unfoldable pub read_header : Text → Reader → Result Error Reader
read_header trimmed r =
    if not (ends_with b']' trimmed)
    then err (invalid (malformed_header trimmed))
    else (let name = trim_space (inner trimmed) in
        validate_section_name name >> (elim (lookup name r.sections) [
          | some s ↦ err (invalid (duplicate_section name))
          | none ↦ ok (record {
            sections = insert name (record { name = name; values = [] }) r.sections;
            current = name;
          })
        ]))

-- A `key = value` line.
unfoldable pub read_pair : Text → Reader → Result Error Reader
unfolding set_value
read_pair line r = elim (cut b'=' line) [
  | none ↦ err (invalid (expected_pair (trim_space line)))
  | some (key, value) ↦
      canonical_key (trim_space key) >>= λ k. ok (set_value k (trim_space (strip_comment value)) r)
]

-- One round of the loop, given `strings.TrimSpace(line)` too.
unfoldable pub read_trimmed : Text → Text → Reader → Result Error Reader
read_trimmed trimmed line r =
    if is_idle trimmed
    then ok r
    else if starts_with b'[' trimmed
    then read_header trimmed r
    else if r.current =ₜ []
    then ok r
    else read_pair line r

abbrev pub read_line : Text → Reader → Result Error Reader
read_line line = read_trimmed (trim_space line) line

unfoldable pub read_lines : List Text → Reader → Result Error Reader
read_lines [] r = ok r
read_lines (l ∷ ls) r = read_line l r >>= read_lines ls

abbrev pub start : Reader
start = record { sections = []; current = [] }

-- The sections of a text.
unfoldable pub parse : Text → Result Error Sections
unfolding read_lines read_trimmed read_header read_pair is_idle
parse content = read_lines (split newline content) start >>= λ r. ok r.sections

-- `sort.Strings(keys)`, on entries.
unfoldable pub insert_sorted : Text × Text → Dict Text → Dict Text
insert_sorted e [] = e ∷ []
insert_sorted e (f ∷ d) = if text_ltb f.0 e.0 then f ∷ insert_sorted e d else e ∷ f ∷ d

unfoldable pub sort_entries : Dict Text → Dict Text
unfolding insert_sorted
sort_entries [] = []
sort_entries (e ∷ d) = insert_sorted e (sort_entries d)

-- `fmt.Fprintf(&out, "%s = %s\n", key, value)`
abbrev pub pair_line : Text × Text → Text
pair_line (k, v) = k ++ (codes " = " ++ v)

unfoldable pub render_entries : Dict Text → Text
render_entries [] = []
render_entries (e ∷ d) = pair_line e ++ (newline ∷ render_entries d)

-- `renderSection`
unfoldable pub render_section : Section → Text
unfolding render_entries sort_entries
render_section s =
    codes "\n\n[" ++ (s.name ++ (codes "]\n" ++ render_entries (sort_entries s.values)))

-- What `removeSection` takes for a header, and the name in it.
unfoldable pub is_header : Text → Bool
is_header line = let trimmed = trim_space line in starts_with b'[' trimmed && ends_with b']' trimmed

abbrev pub header_name : Text → Text
header_name line = trim_space (inner (trim_space line))

-- The lines behind the removed header: those up to the next header, and the rest.
unfoldable pub until_header : List Text → List Text × List Text
until_header [] = ([], [])
until_header (l ∷ ls) =
    let (body, rest) = until_header ls in if is_header l then ([], l ∷ ls) else (l ∷ body, rest)

-- Whether every line is blank or a comment.
unfoldable pub all_idle : List Text → Bool
all_idle [] = true
all_idle (l ∷ ls) = is_idle (trim_space l) && all_idle ls

-- The blank lines and comments at the end of a body, which `removeSection` keeps.
unfoldable pub idle_end : List Text → List Text
unfolding all_idle
idle_end [] = []
idle_end (l ∷ ls) = if all_idle (l ∷ ls) then l ∷ ls else idle_end ls

-- `removeSection` on the lines: the indices `start` and `end` of the source are the places where
-- these recursions stop.
unfoldable pub remove_lines : Text → List Text → List Text
unfolding until_header idle_end is_header
remove_lines name [] = []
remove_lines name (l ∷ ls) =
    if is_header l && header_name l =ₜ name
    then (let (body, rest) = until_header ls in idle_end body ++ rest)
    else l ∷ remove_lines name ls

-- `removeSection`
unfoldable pub remove_section : Text → Text → Text
unfolding remove_lines
remove_section content name = join newline (remove_lines name (split newline content))
