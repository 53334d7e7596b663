-- ===== src/ModelPresets/Deleted.antt =====
-- core/modelpresets/store.go `Delete`: what `Get` answers after it.
use llamarig.Common.{
  ◌≡◌, sym, ◌∙◌, ap, inl, inr, false, Option, none, some, Bool-cases, Option-cases,
}
use llamarig.FileDoc.{WriteFault, write_file, FailsBefore}
use llamarig.Common.Text.{Text, codes, ◌=ₜ◌, =ₜ_refl}
use llamarig.Common.Dict.{lookup}
use llamarig.Common.Results.{ok, err, Result-cases}
use llamarig.ModelPresets.{Sections, Error, not_found, validate_section_name}
use llamarig.ModelPresets.Ini.{remove_section}
use llamarig.ModelPresets.Store.{File, content, read, written, write, delete, get}
use llamarig.ModelPresets.Removed.{parse-remove_section}
use llamarig.ModelPresets.Put.{read-parse, read-written, get-read}

-- A `Delete` that succeeds found the name in the file and took it out, or did not find it.
delete_ok :
    (name : Text) (f g : File)
    → delete none name f ≡ (ok tt, g)
    → (secs : Sections) × (text : Text) × (read f ≡ ok (secs, text))
      × (elim (lookup name secs) [
        | none ↦ f
        | some s ↦ content (written (remove_section text name))
      ]
          ≡ g)
unfolding delete write
delete_ok name f g h = elim (Result-cases (validate_section_name name)) [
  | inr (e, bad) ↦ cc (rw (delete, bad) at h)
  | inl (u, valid) ↦ elim (Bool-cases (name =ₜ codes "*")) [
    | inl star ↦ cc (rw (delete, valid, star) at h)
    | inr named ↦ elim (Result-cases (read f)) [
      | inr (e, unread) ↦ cc (rw (delete, valid, named, unread) at h)
      | inl ((secs, text), read_is) ↦ (
        secs,
        text,
        read_is,
        elim (Option-cases (lookup name secs)) [
          | inl absent ↦ rw absent (ap (λ p. p.1) (rw (delete, valid, named, read_is, absent) at h))
          | inr (s, there) ↦
              rw there (ap (λ p. p.1) (rw (delete, valid, named, read_is, there) at h))
        ],
      )
    ]
  ]
]

-- After a `Delete` that succeeds, `Get` does not find the name, and every other name gets the
-- answer it got before.
pub delete_removes :
    (name : Text) (f g : File)
    → delete none name f ≡ (ok tt, g)
    → (get name g ≡ err (not_found name)) × ((k : Text) → (name =ₜ k) ≡ false → get k g ≡ get k f)
delete_removes name f g h =
    let (secs, text, read_is, g_is) = delete_ok name f g h in
    elim (Option-cases (lookup name secs)) [
      | inl absent ↦
          let same : f ≡ g = rw absent at g_is in
          (rw (← same) (get-read f secs text name read_is ∙ rw absent), λ k ne. rw (← same))
      | inr (s, there) ↦
          let (left, parsed, hides) =
            parse-remove_section text name secs (read-parse f secs text read_is) in
          let now : read g ≡ ok (left, written (remove_section text name)) =
            rw (← (rw there at g_is)) (read-written (remove_section text name) left parsed) in
          (
            get-read g left (written (remove_section text name)) name now
                ∙ rw (hides name, =ₜ_refl name),
            λ k ne.
                get-read g left (written (remove_section text name)) k now
                ∙ rw (hides k, ne) (sym (get-read f secs text k read_is)),
          )
    ]

-- A `Delete` that answers an error leaves the file as it was, if no call of filedoc.WriteFile fails
-- behind its rename.
pub delete_error_keeps :
    (fault : Option WriteFault) (name : Text) (f : File) (e : Error)
    → FailsBefore fault
    → (delete fault name f).0 ≡ err e
    → (delete fault name f).1 ≡ f
unfolding delete write
delete_error_keeps fault name f e before h = elim (Result-cases (validate_section_name name)) [
  | inr (e, bad) ↦ rw (delete, bad)
  | inl (u, valid) ↦ elim (Bool-cases (name =ₜ codes "*")) [
    | inl star ↦ rw (delete, valid, star)
    | inr named ↦ elim (Result-cases (read f)) [
      | inr (e, unread) ↦ rw (delete, valid, named, unread)
      | inl ((secs, text), read_is) ↦ elim (Option-cases (lookup name secs)) [
        | inl absent ↦ rw (delete, valid, named, read_is, absent)
        | inr (s, there) ↦ elim (Option-cases fault) [
          | inl no_fault ↦ cc (rw (delete, valid, named, read_is, there, no_fault, write) at h)
          | inr (w, faulty) ↦
              let early = rw faulty at before in
              rw (delete, valid, named, read_is, there, faulty, write, write_file, early)
        ]
      ]
    ]
  ]
]
