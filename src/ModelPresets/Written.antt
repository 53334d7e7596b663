-- ===== src/ModelPresets/Written.antt =====
-- The text that `Put` writes, against the text that it read: the old lines, then the section.
use llamarig.Common.{
  ◌≡◌, refl, sym, ◌∙◌, ap, inl, inr, false, ◌||◌, none, some, List, [], ◌∷◌, ◌++◌, append_assoc,
  arith, Bool-cases,
}
use llamarig.Common.Text.{
  Text, codes, ◌=ₜ◌, =ₜ_refl, contains_any, split, split_at, trim_right, trim_space,
}
use llamarig.Common.TextLaws.{Free, Free-append, split-append, split_whole}
use llamarig.Common.Dict.{Dict, lookup, lookup-insert}
use llamarig.Common.Results.{ok}
use llamarig.ModelPresets.{Sections, validate_section_name}
use llamarig.ModelPresets.Ini.{
  newline, Reader, read_lines, start, parse, pair_line, render_entries, render_section,
  sort_entries,
}
use llamarig.ModelPresets.Store.{is_eol}
use llamarig.ModelPresets.Lines.{read_lines-append, empty_line, read-trim_right}
use llamarig.ModelPresets.Effects.{opened}
use llamarig.ModelPresets.Reading.{read_lines_do}
use llamarig.ModelPresets.Removed.{parse_ok, parse_do}
use llamarig.ModelPresets.Rendered.{
  header_line, read_line-header_line, fill, AllKeys, pair_lines, Holds, read_pair_lines,
  pair_line-Free,
}

-- The lines of the entries, and the empty line behind the last line end.
split-render_entries :
    (d : Dict Text) → AllKeys d → split newline (render_entries d) ≡ pair_lines d ++ [] ∷ []
unfolding render_entries
split-render_entries [] h = unfold split_at in refl
split-render_entries ((k, v) ∷ d) (key, free, keys) =
    split-append newline (pair_line (k, v)) (render_entries d)
    ∙ ap (λ (ls : List Text). ls ++ split newline (render_entries d))
        (split_whole newline (pair_line (k, v)) (pair_line-Free k v key free))
    ∙ ap (◌∷◌ (pair_line (k, v))) (split-render_entries d keys)

valid_name :
    (name : Text)
    → validate_section_name name ≡ ok tt
    → ((trim_space name =ₜ []) ≡ false) × (contains_any (codes "[]\r\n;#=") name ≡ false)
unfolding validate_section_name
valid_name name h =
    elim (Bool-cases (trim_space name =ₜ [] || contains_any (codes "[]\r\n;#=") name)) [
      | inl bad ↦ cc (rw bad at h)
      | inr good ↦ ground arith
    ]

name-Free : (s : Text) → contains_any (codes "[]\r\n;#=") s ≡ false → Free newline s
name-Free [] h = refl
name-Free (c ∷ s) h = ground (arith, name-Free s)

header_line-Free :
    (name : Text) → validate_section_name name ≡ ok tt → Free newline (header_line name)
header_line-Free name h =
    Free-append newline name (b']' ∷ []) (name-Free name (valid_name name h).1) refl

pub split-render_section :
    (a name : Text) (d : Dict Text)
    → validate_section_name name ≡ ok tt
    → AllKeys (sort_entries d)
    → split newline (a ++ render_section (record { name = name; values = d }))
      ≡ split newline a ++ ([] ∷ header_line name ∷ (pair_lines (sort_entries d) ++ [] ∷ []))
unfolding render_section
split-render_section a name d valid keys =
    split-append newline a
      (newline ∷ b'[' ∷ (name ++ (b']' ∷ newline ∷ render_entries (sort_entries d))))
    ∙ ap (λ (ls : List Text). split newline a ++ ls)
        (split-append newline []
            (b'[' ∷ (name ++ (b']' ∷ newline ∷ render_entries (sort_entries d))))
          ∙ ap (λ (ls : List Text). split newline [] ++ ls)
              (ap (split newline) (
                  ap (◌∷◌ b'[') (
                    sym
                      (append_assoc name (b']' ∷ []) (newline ∷ render_entries (sort_entries d)))))
                ∙ split-append newline (header_line name) (render_entries (sort_entries d))
                ∙ ap (λ (ls : List Text). ls ++ split newline (render_entries (sort_entries d)))
                    (split_whole newline (header_line name) (header_line-Free name valid))
                ∙ ap (◌∷◌ (header_line name)) (split-render_entries (sort_entries d) keys))
          ∙ unfold split_at in refl)

opened-Holds : (name : Text) (r : Reader) → Holds name [] r.sections (opened name r)
opened-Holds name r = record {
  open_now = refl;
  here = ground (
    arith,
    =ₜ_refl name,
    lookup-insert name name (record { name = name; values = [] }) r.sections,
  );
  others =
      λ k ne. ground (arith, lookup-insert name k (record { name = name; values = [] }) r.sections);
}

empty_free :
    (name : Text)
    → trim_space name ≡ name
    → validate_section_name name ≡ ok tt
    → (name =ₜ []) ≡ false
empty_free name tight valid = rw tight at (valid_name name valid).0

read_section :
    (name : Text) (d : Dict Text) (r : Reader)
    → trim_space name ≡ name
    → validate_section_name name ≡ ok tt
    → AllKeys d
    → lookup name r.sections ≡ none
    → (s : Reader) × (read_lines ([] ∷ header_line name ∷ (pair_lines d ++ [] ∷ [])) r ≡ ok s)
      × Holds name (fill d []) r.sections s
read_section name d r tight valid keys fresh =
    let (s, read, holds) =
      read_pair_lines name d [] r.sections (opened name r) (empty_free name tight valid) keys
        (opened-Holds name r) in
    (
      s,
      read_lines-append ([] ∷ []) (header_line name ∷ (pair_lines d ++ [] ∷ [])) r
          ∙ rw (empty_line r) (
              read_lines_do (header_line name) (pair_lines d ++ [] ∷ []) r (opened name r) s
                (read_line-header_line name r tight valid fresh)
                (read_lines-append (pair_lines d) ([] ∷ []) (opened name r)
                  ∙ rw read (empty_line s))),
      holds,
    )

-- A text, trimmed, and a section behind it: the sections of the text, and this one.
pub parse-render_section :
    (text name : Text) (d : Dict Text) (secs : Sections)
    → parse text ≡ ok secs
    → trim_space name ≡ name
    → validate_section_name name ≡ ok tt
    → AllKeys (sort_entries d)
    → lookup name secs ≡ none
    → (new : Sections) × (parse
          (trim_right is_eol text ++ render_section (record { name = name; values = d }))
        ≡ ok new)
      × (lookup name new ≡ some (record { name = name; values = fill (sort_entries d) [] }))
      × ((k : Text) → (name =ₜ k) ≡ false → lookup k new ≡ lookup k secs)
parse-render_section text name d secs h tight valid keys fresh =
    let (r, before, same) = parse_ok text secs h in
    let (s, read, holds) = read_section name (sort_entries d) r tight valid keys (rw same fresh) in
    (
      s.sections,
      parse_do (trim_right is_eol text ++ render_section (record { name = name; values = d })) s (
          ap (λ ls. read_lines ls start)
            (split-render_section (trim_right is_eol text) name d valid keys)
          ∙ read_lines-append (split newline (trim_right is_eol text)) _ start
          ∙ rw (read-trim_right text start, before) read),
      holds.here,
      rw (← same) holds.others,
    )
