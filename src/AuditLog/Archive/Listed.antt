-- ===== src/AuditLog/Archive/Listed.antt =====
-- The archives that a directory lists, and its entries.
use llamarig.Common.{
  ◌≡◌, refl, ap, ◌∙◌, inl, inr, Bool, true, false, Option, none, some, List, [], ◌∷◌, arith, leb,
  Bool-cases, Option-cases, keep, All,
}
use llamarig.Common.Text.{Text, ◌=ₜ◌, =ₜ_refl}
use llamarig.AuditLog.{LogError}
use llamarig.AuditLog.Clock.{Clock, parse_clock, instant}
use llamarig.AuditLog.Archive.{
  DirEntry, Archive, is_regular, match_archive_name, find_entry, archive_entry, archive_matched,
  archive_dated, archives_of, insert_newest, newest_first,
}
use llamarig.AuditLog.Archive.Removal.{IsArchiveId}

-- No two entries of a directory have one name.
abbrev pub Unique : List DirEntry → Type 0
Unique [] = Unit
Unique (e ∷ entries) = All (λ f. (e.name =ₜ f.name) ≡ false) entries × Unique entries

-- An entry is an archive that passes.
abbrev pub passing : (Archive → Bool) → Option Archive → Bool
passing p none = false
passing p (some a) = p a

abbrev pub entry_passes : (Archive → Bool) → DirEntry → Bool
entry_passes p e = passing p (archive_entry e)

matched_dated :
    (e : DirEntry) (service : Text) (at : Option Clock) (info : Option LogError) (a : Archive)
    → archive_dated e service at info ≡ some a
    → a.id ≡ e.name
matched_dated e service none info a h = cc
matched_dated e service (some at) (some _) a h = cc
matched_dated e service (some at) none a h = ground arith

matched_inv :
    (e : DirEntry) (m : Option (Text × Text)) (a : Archive)
    → archive_matched e m ≡ some a
    → ((parts : Text × Text) × (m ≡ some parts)) × (a.id ≡ e.name)
matched_inv e none a h = cc
matched_inv e (some (service, stamp)) a h =
    (((service, stamp), refl), matched_dated e service (parse_clock stamp) e.info_error a h)

-- An archive has its entry's name, which matches, and the entry is a regular file.
pub archive_entry_inv :
    (e : DirEntry) (a : Archive)
    → archive_entry e ≡ some a
    → (is_regular e.kind ≡ true)
      × ((parts : Text × Text) × (match_archive_name e.name ≡ some parts))
      × (a.id ≡ e.name)
unfolding archive_entry
archive_entry_inv e a h = elim (Bool-cases (is_regular e.kind)) [
  | inr other ↦ cc (rw (archive_entry, other) at h)
  | inl regular ↦
      let (matched, same) =
        matched_inv e (match_archive_name e.name) a (rw (archive_entry, regular) at h) in
      (regular, matched, same)
]

-- Every entry is found by its name, which both premises say of the entries in front of it.
All-found :
    (e : DirEntry) (entries fs : List DirEntry)
    → All (λ f. (e.name =ₜ f.name) ≡ false) fs
    → All (λ f. find_entry f.name entries ≡ some f) fs
    → All (λ f. find_entry f.name (e ∷ entries) ≡ some f) fs
unfolding find_entry
All-found e entries [] d h = tt
All-found e entries (f ∷ fs) (differs, d) (found, h) =
    (rw differs found, All-found e entries fs d h)

pub Unique-found :
    (entries : List DirEntry)
    → Unique entries
    → All (λ f. find_entry f.name entries ≡ some f) entries
unfolding find_entry
Unique-found [] u = tt
Unique-found (e ∷ entries) (d, u) =
    (rw (=ₜ_refl e.name) refl, All-found e entries entries d (Unique-found entries u))

found-IsArchiveId :
    (e : DirEntry) (entries : List DirEntry) (a : Archive)
    → find_entry e.name entries ≡ some e
    → archive_entry e ≡ some a
    → IsArchiveId entries a
found-IsArchiveId e entries a found h =
    let (regular, (parts, matched), same) = archive_entry_inv e a h in
    (
      (parts, ap match_archive_name same ∙ matched),
      inr (e, ap (λ (t : Text). find_entry t entries) same ∙ found, regular),
    )

pub archives_of-IsArchiveId :
    (entries fs : List DirEntry)
    → All (λ f. find_entry f.name entries ≡ some f) fs
    → All (IsArchiveId entries) (archives_of fs)
unfolding archives_of
archives_of-IsArchiveId entries [] h = tt
archives_of-IsArchiveId entries (f ∷ fs) (found, h) = elim (Option-cases (archive_entry f)) [
  | inl other ↦ rw (archives_of, other) (archives_of-IsArchiveId entries fs h)
  | inr (a, archive) ↦
      rw (archives_of, archive)
        (found-IsArchiveId f entries a found archive, archives_of-IsArchiveId entries fs h)
]

module _ (P : Archive → Type 0) where
  insert_newest-All :
      (a : Archive) (archives : List Archive)
      → P a
      → All P archives
      → All P (insert_newest a archives)
  insert_newest-All a [] p h = (p, tt)
  insert_newest-All a (b ∷ bs) p (q, h) =
      elim (Bool-cases (leb (instant b.archived_at) (instant a.archived_at))) [
        | inl newer ↦ rw newer (p, (q, h))
        | inr older ↦ rw older (q, insert_newest-All a bs p h)
      ]

  pub newest_first-All : (archives : List Archive) → All P archives → All P (newest_first archives)
  unfolding newest_first
  newest_first-All [] h = tt
  newest_first-All (a ∷ archives) (p, h) =
      insert_newest-All a (newest_first archives) p (newest_first-All archives h)

  pub keep-All :
      (p : Archive → Bool) (archives : List Archive) → All P archives → All P (keep p archives)
  keep-All p [] h = tt
  keep-All p (a ∷ archives) (q, h) = elim (Bool-cases (p a)) [
    | inl passes ↦ rw passes (q, keep-All p archives h)
    | inr fails ↦ rw fails (keep-All p archives h)
  ]
