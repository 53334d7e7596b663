-- ===== src/ModelPresets/Padded.antt =====
-- core/modelpresets/store.go `Put` of a name with spaces around it, which `validateSectionName` lets
-- through and `read` trims.
use llamarig.Common.{◌≡◌, refl, sym, ◌∙◌, ap, Bool, false, none, some, List, [], ◌∷◌, ◌++◌}
use llamarig.Common.Text.{Text, ◌=ₜ◌, split, trim_right, trim_space}
use llamarig.Common.Dict.{Dict, lookup}
use llamarig.Common.Results.{Result, ok, err, ◌>>=◌, ◌>>◌}
use llamarig.ModelPresets.{
  Section, Sections, Error, invalid, duplicate_section, validate_section_name,
}
use llamarig.ModelPresets.Ini.{
  newline, inner, Reader, read_line, read_lines, start, parse, render_section, sort_entries,
  header_name,
}
use llamarig.ModelPresets.Store.{File, content, read, is_eol, replaced, put}
use llamarig.ModelPresets.Lines.{read_lines-append, read-trim_right, parse-written, empty_line}
use llamarig.ModelPresets.Effects.{effect_header, apply, header, read_line-effect}
use llamarig.ModelPresets.Removed.{parse_ok}
use llamarig.ModelPresets.Rendered.{
  header_line, pair_lines, AllKeys, is_header-header_line, trim_space-header_line,
  inner-header_line,
}
use llamarig.ModelPresets.Values.{canonical_values-Kept, AllKeys-sort_entries}
use llamarig.ModelPresets.Written.{split-render_section}
use llamarig.ModelPresets.Put.{read-parse, put_ok}

header_twice :
    (x : Result Error (Unit {0})) (n : Text) (r : Reader) (s : Section)
    → lookup n r.sections ≡ some s
    → (e : Error) × ((x >> ok (header n)) >>= (λ (f : _). apply f r) ≡ err e)
unfolding apply
header_twice (ok u) n r s h = (invalid (duplicate_section n), rw (h, apply))
header_twice (err e) n r s h = (e, refl)

header_name_trimmed : (name : Text) → header_name (header_line name) ≡ trim_space name
header_name_trimmed name =
    ap (λ t. trim_space (inner t)) (trim_space-header_line name)
    ∙ ap trim_space (inner-header_line name)

-- The header of a name that is known under its trimmed form is refused.
read_line_twice :
    (name : Text) (r : Reader) (s : Section)
    → lookup (trim_space name) r.sections ≡ some s
    → (e : Error) × (read_line (header_line name) r ≡ err e)
read_line_twice name r s h =
    let (e, refused) =
      header_twice (validate_section_name (header_name (header_line name)))
        (header_name (header_line name)) r s (rw (header_name_trimmed name) h) in
    (
      e,
      read_line-effect (header_line name) r
          ∙ rw (effect_header (header_line name) (r.current =ₜ []) (is_header-header_line name))
              refused,
    )

read_lines_err :
    (l : Text) (ls : List Text) (r : Reader) (e : Error)
    → read_line l r ≡ err e
    → read_lines (l ∷ ls) r ≡ err e
unfolding read_lines
read_lines_err l ls r e h = rw h

parse_err :
    (text : Text) (e : Error) → read_lines (split newline text) start ≡ err e → parse text ≡ err e
unfolding parse
parse_err text e h = rw h

read_err : (text : Text) (e : Error) → parse text ≡ err e → read (content text) ≡ err e
unfolding read
read_err text e h = rw h

-- The text with a section behind it whose name is known under its trimmed form.
parse-twice :
    (text name : Text) (values : Dict Text) (secs : Sections) (t : Section)
    → parse text ≡ ok secs
    → validate_section_name name ≡ ok tt
    → AllKeys values
    → lookup (trim_space name) secs ≡ some t
    → (e : Error) × (parse (replaced (record { name = name; values = values }) false text) ≡ err e)
unfolding replaced
parse-twice text name values secs t h valid keys known =
    let (r, before, same) = parse_ok text secs h in
    let (e, refused) = read_line_twice name r t (rw same known) in
    let rest : List Text = pair_lines (sort_entries values) ++ [] ∷ [] in
    (
      e,
      parse_err (trim_right is_eol text ++ render_section (record { name = name; values = values }))
          e
          (ap (λ ls. read_lines ls start)
              (split-render_section (trim_right is_eol text) name values valid
                (AllKeys-sort_entries values keys))
            ∙ read_lines-append (split newline (trim_right is_eol text))
                ([] ∷ header_line name ∷ rest) start
            ∙ rw (read-trim_right text start, before)
                (read_lines-append ([] ∷ []) (header_line name ∷ rest) r
                  ∙ rw (empty_line r) (read_lines_err (header_line name) rest r e refused))),
    )

-- A section is known, and `Put` is given its name with spaces around it, which `Get` does not find:
-- a `Put` that succeeds leaves a file that `read` refuses.
pub put_padded_breaks :
    (s t : Section) (create_only : Bool) (f g : File) (secs : Sections) (text : Text)
    → read f ≡ ok (secs, text)
    → lookup s.name secs ≡ none
    → lookup (trim_space s.name) secs ≡ some t
    → put none s create_only f ≡ (ok tt, g)
    → (e : Error) × (read g ≡ err e)
put_padded_breaks s t create_only f g secs text read_is unknown known h =
    let (values, secs', text', valid, canonical, read_is', g_is) = put_ok s create_only f g h in
    let same : secs' ≡ secs =
      ap (λ r. elim r [ ok p ↦ p.0 | err e ↦ [] ]) (sym read_is' ∙ read_is) in
    let kept = canonical_values-Kept s.values [] values tt tt canonical in
    let (e, refused) =
      parse-twice text' s.name values secs t (rw same at (read-parse f secs' text' read_is')) valid
        kept.keys known in
    (
      e,
      rw (← (rw (same, unknown) at g_is)) (
          read_err _ e (
            parse-written (replaced (record { name = s.name; values = values }) false text')
            ∙ refused)),
    )
