-- ===== src/ModelPresets/Put.antt =====
-- core/modelpresets/store.go `Put`: what `Get` answers after it.
use llamarig.Common.{true}
use llamarig.Common.{
  ◌≡◌, refl, sym, ◌∙◌, ap, inl, inr, Bool, false, ◌&&◌, Option, none, some, [], ◌∷◌, arith,
  if◌then◌else◌, Bool-cases, Option-cases, All,
}
use llamarig.FileDoc.{WriteFault, write_file, FailsBefore}
use llamarig.Common.Text.{Text, codes, ◌=ₜ◌, =ₜ_refl, trim_space, split_at, starts_with}
use llamarig.Common.Dict.{Dict, lookup}
use llamarig.Common.Results.{ok, err, ◌>>◌, Result-cases, both_steps}
use llamarig.ModelPresets.{
  Section, Sections, Error, not_found, canonical_key, validate_section_name,
}
use llamarig.ModelPresets.Ini.{parse, remove_section, sort_entries}
use llamarig.ModelPresets.Store.{
  File, missing, unreadable, content, read, written, write, canonical_values, replaced, is_some,
  put, get,
}
use llamarig.ModelPresets.Lines.{parse-written}
use llamarig.ModelPresets.Removed.{parse-remove_section}
use llamarig.ModelPresets.Rendered.{stored, fill, AllKeys}
use llamarig.ModelPresets.Values.{
  Distinct, canonical_values-Kept, lookup-fill, lookup-sort_entries, Distinct-sort_entries,
  AllKeys-sort_entries,
}
use llamarig.ModelPresets.Written.{parse-render_section}

version_parses : parse (codes "version = 1\n") ≡ ok []
unfolding parse ◌=ₜ◌ trim_space split_at starts_with
version_parses = refl

-- What `read` gives comes from the text.
pub read-parse :
    (f : File) (secs : Sections) (text : Text) → read f ≡ ok (secs, text) → parse text ≡ ok secs
unfolding read
read-parse missing secs text h =
    let s_is : [] ≡ secs = ap (λ r. elim r [ ok p ↦ p.0 | err e ↦ [] ]) h in
    let t_is : codes "version = 1\n" ≡ text = ap (λ r. elim r [ ok p ↦ p.1 | err e ↦ [] ]) h in
    rw (← t_is, ← s_is) version_parses
read-parse (unreadable e) secs text h = cc
read-parse (content s) secs text h =
    let (a, parsed, same) = both_steps (parse s) (λ secs. ok (secs, s)) h in
    let s_is : a ≡ secs = ap (λ r. elim r [ ok p ↦ p.0 | err e ↦ [] ]) same in
    let t_is : s ≡ text = ap (λ r. elim r [ ok p ↦ p.1 | err e ↦ [] ]) same in
    rw (← t_is, ← s_is) parsed

-- The sections of a text that was written.
pub read-written :
    (s : Text) (secs : Sections)
    → parse s ≡ ok secs
    → read (content (written s)) ≡ ok (secs, written s)
unfolding read
read-written s secs h = rw (parse-written s, h)

pub get-read :
    (f : File) (secs : Sections) (text k : Text)
    → read f ≡ ok (secs, text)
    → get k f ≡ elim (lookup k secs) [ none ↦ err (not_found k) | some s ↦ ok s ]
unfolding get
get-read f secs text k h = rw h

is_some-none {ℓ} : {A : Type ℓ} (o : Option A) → is_some o ≡ false → o ≡ none
is_some-none none h = refl
is_some-none (some a) h = cc

-- The text that the new section stands behind: the old one, without the section of that name.
left_text :
    (name text : Text) (secs : Sections)
    → parse text ≡ ok secs
    → (left : Sections) × (parse
          (if is_some (lookup name secs) then remove_section text name else text)
        ≡ ok left)
      × (lookup name left ≡ none)
      × ((k : Text) → (name =ₜ k) ≡ false → lookup k left ≡ lookup k secs)
left_text name text secs h = elim (Bool-cases (is_some (lookup name secs))) [
  | inr new ↦ rw new (secs, h, is_some-none (lookup name secs) new, λ k ne. refl)
  | inl old ↦
      let (left, parsed, hides) = parse-remove_section text name secs h in
      rw old
        (left, parsed, hides name ∙ ground (arith, =ₜ_refl name), λ k ne. hides k ∙ ground arith)
]

-- The text that `Put` writes has the section, and the others of the text before.
parse-replaced :
    (name text : Text) (values : Dict Text) (secs : Sections)
    → parse text ≡ ok secs
    → trim_space name ≡ name
    → validate_section_name name ≡ ok tt
    → AllKeys values
    → (new : Sections) × (parse
          (replaced (record { name = name; values = values }) (is_some (lookup name secs)) text)
        ≡ ok new)
      × (lookup name new ≡ some (record { name = name; values = fill (sort_entries values) [] }))
      × ((k : Text) → (name =ₜ k) ≡ false → lookup k new ≡ lookup k secs)
unfolding replaced
parse-replaced name text values secs h tight valid keys =
    let (left, parsed, gone, rest) = left_text name text secs h in
    let (new, done, here, others) =
      parse-render_section (if is_some (lookup name secs) then remove_section text name else text)
        name values left parsed tight valid (AllKeys-sort_entries values keys) gone in
    (new, done, here, λ k ne. others k ne ∙ rest k ne)

stored_values :
    (vs values : Dict Text)
    → Distinct values
    → All
        (λ (e : Text × Text). (k : Text) → canonical_key e.0 ≡ ok k → lookup k values ≡ some e.1)
        vs
    → All
        (λ (e : Text × Text).
          (k : Text)
          → canonical_key e.0 ≡ ok k
          → lookup k (fill (sort_entries values) []) ≡ some (stored e.1))
        vs
stored_values [] values d h = tt
stored_values ((key, v) ∷ vs) values d (h, t) = (
  λ k key_is.
      lookup-fill (sort_entries values) [] k (Distinct-sort_entries values d)
      ∙ rw (lookup-sort_entries values k d, h k key_is),
  stored_values vs values d t,
)

-- A `Put` that succeeds, taken apart.
pub put_ok :
    (s : Section) (create_only : Bool) (f g : File)
    → put none s create_only f ≡ (ok tt, g)
    → (values : Dict Text) × (secs : Sections) × (text : Text) × (validate_section_name s.name
        ≡ ok tt)
      × (canonical_values s.values [] ≡ ok values)
      × (read f ≡ ok (secs, text))
      × (content (
            written (
              replaced
                (record { name = s.name; values = values })
                (is_some (lookup s.name secs))
                text))
          ≡ g)
unfolding put write
put_ok s create_only f g h =
    elim (Result-cases (validate_section_name s.name >> canonical_values s.values [])) [
      | inr (e, bad) ↦ absurd (cc (rw (put, bad) at h))
      | inl (values, good) ↦ elim (Result-cases (read f)) [
        | inr (e, unread) ↦ absurd (cc (rw (put, good, unread) at h))
        | inl ((secs, text), read_is) ↦
            elim (Bool-cases (create_only && is_some (lookup s.name secs))) [
              | inl there ↦ absurd (cc (rw (put, good, read_is, there) at h))
              | inr go ↦
                  let (u, valid, canonical) =
                    both_steps (validate_section_name s.name) (λ u. canonical_values s.values [])
                      good in
                  (
                    values,
                    secs,
                    text,
                    valid,
                    canonical,
                    read_is,
                    ap (λ p. p.1) (rw (put, good, read_is, go) at h),
                  )
            ]
      ]
    ]

-- After a `Put` that succeeds, for a name without spaces around it, `Get` gives the section: under
-- the canonical form of each key that was given stands what is read back for its value (the value
-- up to a comment mark behind a blank, trimmed). Every other name gets the answer it got before.
pub put_reads_back :
    (s : Section) (create_only : Bool) (f g : File)
    → trim_space s.name ≡ s.name
    → put none s create_only f ≡ (ok tt, g)
    → (d : Dict Text) × (get s.name g ≡ ok (record { name = s.name; values = d }))
      × All
          (λ (e : Text × Text).
            (k : Text) → canonical_key e.0 ≡ ok k → lookup k d ≡ some (stored e.1))
          s.values
      × ((k : Text) → (s.name =ₜ k) ≡ false → get k g ≡ get k f)
put_reads_back s create_only f g tight h =
    let (values, secs, text, valid, canonical, read_is, g_is) = put_ok s create_only f g h in
    let kept = canonical_values-Kept s.values [] values tt tt canonical in
    let out =
      replaced (record { name = s.name; values = values }) (is_some (lookup s.name secs)) text in
    let (new, parsed, here, others) =
      parse-replaced s.name text values secs (read-parse f secs text read_is) tight valid
        kept.keys in
    let now : read g ≡ ok (new, written out) = rw (← g_is) (read-written out new parsed) in
    (
      fill (sort_entries values) [],
      get-read g new (written out) s.name now ∙ rw here,
      stored_values s.values values kept.distinct kept.given,
      λ k ne.
          get-read g new (written out) k now
          ∙ rw (others k ne) (sym (get-read f secs text k read_is)),
    )

-- A `Put` that answers an error leaves the file as it was, if no call of filedoc.WriteFile fails
-- behind its rename.
pub put_error_keeps :
    (fault : Option WriteFault) (s : Section) (create_only : Bool) (f : File) (e : Error)
    → FailsBefore fault
    → (put fault s create_only f).0 ≡ err e
    → (put fault s create_only f).1 ≡ f
unfolding put write
put_error_keeps fault s create_only f e before h =
    elim (Result-cases (validate_section_name s.name >> canonical_values s.values [])) [
      | inr (e, bad) ↦ rw (put, bad)
      | inl (values, good) ↦ elim (Result-cases (read f)) [
        | inr (e, unread) ↦ rw (put, good, unread)
        | inl ((secs, text), read_is) ↦
            elim (Bool-cases (create_only && is_some (lookup s.name secs))) [
              | inl there ↦ rw (put, good, read_is, there)
              | inr go ↦ elim (Option-cases fault) [
                | inl no_fault ↦ cc (rw (put, good, read_is, go, no_fault, write) at h)
                | inr (w, faulty) ↦
                    let early = rw faulty at before in
                    rw (put, good, read_is, go, faulty, write, write_file, early)
              ]
            ]
      ]
    ]

-- A `Put` that creates finds no section of that name.
pub put_fresh :
    (s : Section) (f g : File)
    → put none s true f ≡ (ok tt, g)
    → get s.name f ≡ err (not_found s.name)
unfolding put
put_fresh s f g h =
    let (values, secs, text, valid, canonical, read_is, g_is) = put_ok s true f g h in
    get-read f secs text s.name read_is ∙ (elim (Option-cases (lookup s.name secs)) [
      | inl absent ↦ rw absent
      | inr (t, there) ↦ cc (rw (put, valid, canonical, read_is, there) at h)
    ])

-- Where `Get` finds a section, `read` gives the sections of the file.
pub read-get :
    (f : File) (k : Text) (s : Section)
    → get k f ≡ ok s
    → (secs : Sections) × (text : Text) × (read f ≡ ok (secs, text)) × (lookup k secs ≡ some s)
unfolding get
read-get f k s h =
    let ((secs, text), read_is, found) = both_steps (read f) _ h in
    (
      secs,
      text,
      read_is,
      elim (Option-cases (lookup k secs)) [
        | inl absent ↦ cc (rw absent at found)
        | inr (t, there) ↦ there ∙ cc (rw there at found)
      ],
    )
