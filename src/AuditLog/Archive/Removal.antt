-- ===== src/AuditLog/Archive/Removal.antt =====
-- Deleting archives one after the other in a directory in which no call fails.
use llamarig.Common.{
  ℕ, zero, suc, ◌-◌, ◌≡◌, refl, sym, ap, subst, ◌∙◌, ◌⊎◌, inl, inr, Bool, true, false, not, ◌||◌,
  Option, none, some, List, [], ◌∷◌, ◌++◌, arith, Bool-cases, if◌then◌else◌, take, drop, keep, any,
  All, length,
}
use llamarig.Common.Text.{Text, ◌=ₜ◌, =ₜ_iff}
use llamarig.Common.TextLaws.{Free, Free-append}
use llamarig.Common.Results.{Result}
use llamarig.AuditLog.{LogError, is_log_name, is_name_char}
use llamarig.AuditLog.Archive.{
  DirEntry, Archive, ArchiveDir, is_regular, is_base, fits, stamp_shape, matched_at,
  match_archive_name, find_entry, found_path, archive_path, delete_found, delete_archive,
  delete_archives, without, add_deletion,
}

-- No call of the system fails.
pub record IsHealthy (d : ArchiveDir) : Type 0 where
  pub found : d.dir_error ≡ none
  pub readable : d.read_error ≡ none
  pub visible : (id : Text) → d.lstat_error id ≡ none
  pub removable : (id : Text) → d.remove_error id ≡ none

fits-Free : (shape s : Text) → Free b'/' shape → fits shape s ≡ true → Free b'/' s
unfolding fits
fits-Free [] [] f h = refl
fits-Free [] (c ∷ s) f h = cc
fits-Free (p ∷ shape) [] f h = cc
fits-Free (p ∷ shape) (c ∷ s) f h = ground (arith, fits-Free shape s)

name-Free : (s : Text) → any (λ x. not (is_name_char x)) s ≡ false → Free b'/' s
unfolding is_name_char
name-Free [] h = refl
name-Free (c ∷ s) h = ground (arith, name-Free s)

take-drop : (n : ℕ) (s : Text) → take n s ++ drop n s ≡ s
take-drop zero s = refl
take-drop (suc n) [] = refl
take-drop (suc n) (c ∷ s) = ap (◌∷◌ c) (take-drop n s)

log_name-Free : (s : Text) → is_log_name s ≡ true → Free b'/' s
unfolding is_log_name
log_name-Free [] h = refl
log_name-Free (c ∷ s) h = name-Free (c ∷ s) (ground arith)

shape-Free : Free b'/' stamp_shape
shape-Free = refl

matched_at-Free :
    (at : ℕ) (id : Text) (parts : Text × Text) → matched_at at id ≡ some parts → Free b'/' id
matched_at-Free at id parts h = elim (Bool-cases (is_log_name (take at id))) [
  | inr bad ↦ cc (rw (matched_at, bad) at h)
  | inl name ↦ elim (Bool-cases (fits stamp_shape (drop at id))) [
    | inr bad ↦ cc (rw (matched_at, name, bad) at h)
    | inl stamp ↦ subst (Free b'/') (take-drop at id) (
        Free-append b'/' (take at id) (drop at id) (log_name-Free (take at id) name)
          (fits-Free stamp_shape (drop at id) shape-Free stamp))
  ]
]

-- What matches an archive's name is a file name without a directory.
matched-is_base :
    (id : Text) (parts : Text × Text) → match_archive_name id ≡ some parts → is_base id ≡ true
unfolding match_archive_name
matched-is_base [] parts h = cc
matched-is_base (c ∷ s) parts h =
    let free = matched_at-Free (length (c ∷ s) - 31) (c ∷ s) parts h in rw free refl

-- There is no such file, or a regular one.
abbrev pub IsDeletable : Text → List DirEntry → Type 0
IsDeletable id entries =
    (find_entry id entries ≡ none)
    ⊎ ((e : DirEntry) × (find_entry id entries ≡ some e) × (is_regular e.kind ≡ true))

abbrev pub others : Text → List DirEntry → List DirEntry
others id entries = keep (λ e. not (e.name =ₜ id)) entries

others_missing :
    (id : Text) (entries : List DirEntry)
    → find_entry id entries ≡ none
    → others id entries ≡ entries
unfolding find_entry
others_missing id [] h = refl
others_missing id (e ∷ entries) h = ground (arith, others_missing id entries)

find_entry-others :
    (id j : Text) (entries : List DirEntry)
    → find_entry id (others j entries) ≡ (if id =ₜ j then none else find_entry id entries)
unfolding find_entry
find_entry-others id j [] = ground arith
find_entry-others id j (e ∷ entries) =
    ground (arith, find_entry-others id j entries, =ₜ_iff id j, =ₜ_iff e.name id, =ₜ_iff e.name j)

others-IsDeletable :
    (id j : Text) (entries : List DirEntry)
    → IsDeletable id entries
    → IsDeletable id (others j entries)
others-IsDeletable id j entries h = elim (Bool-cases (id =ₜ j)) [
  | inl same ↦ inl (rw (find_entry-others id j entries, same) refl)
  | inr differ ↦
      let kept : find_entry id (others j entries) ≡ find_entry id entries =
        rw (find_entry-others id j entries, differ) refl in
      elim h [
        | inl missing ↦ inl (kept ∙ missing)
        | inr (e, found, regular) ↦ inr (e, kept ∙ found, regular)
      ]
]

-- An archive's id, in a directory without it or with its file.
abbrev pub IsArchiveId : List DirEntry → Archive → Type 0
IsArchiveId entries a =
    ((parts : Text × Text) × (match_archive_name a.id ≡ some parts)) × IsDeletable a.id entries

found_deleted :
    (id : Text) (d : ArchiveDir)
    → IsHealthy d
    → IsDeletable id d.entries
    → delete_found (found_path none (find_entry id d.entries) id) d ≡ (without id d, none)
unfolding ◌=ₜ◌
found_deleted id d ok_calls (inl missing) = rw missing (
    ap (λ (es : List DirEntry). (record d { entries = es }, none))
      (sym (others_missing id d.entries missing)))
found_deleted id d ok_calls (inr (e, found, regular)) =
    rw (found, regular, ok_calls.removable id) refl

archive_path_found :
    (d : ArchiveDir) (id : Text) (parts : Text × Text)
    → IsHealthy d
    → match_archive_name id ≡ some parts
    → archive_path d id ≡ found_path none (find_entry id d.entries) id
unfolding archive_path
archive_path_found d id parts ok_calls matched =
    rw (matched-is_base id parts matched, matched, ok_calls.found, ok_calls.visible id) refl

-- Deleting an archive takes its entry away, and nothing else.
delete_archive-others :
    (d : ArchiveDir) (a : Archive)
    → IsHealthy d
    → IsArchiveId d.entries a
    → delete_archive a.id d ≡ (without a.id d, none)
unfolding delete_archive
delete_archive-others d a ok_calls ((parts, matched), deletable) =
    ap (λ (r : Result LogError Text). delete_found r d)
      (archive_path_found d a.id parts ok_calls matched)
    ∙ found_deleted a.id d ok_calls deletable

-- Whether an entry has the name of one of the archives.
abbrev pub is_named : List Archive → DirEntry → Bool
is_named archives e = any (λ a. e.name =ₜ a.id) archives

keep_both :
    (p q : DirEntry → Bool) (entries : List DirEntry)
    → keep (λ e. not (p e)) (keep (λ e. not (q e)) entries) ≡ keep (λ e. not (q e || p e)) entries
keep_both p q [] = refl
keep_both p q (e ∷ entries) = ground (arith, keep_both p q entries)

All-others :
    (j : Text) (entries : List DirEntry) (archives : List Archive)
    → All (IsArchiveId entries) archives
    → All (IsArchiveId (others j entries)) archives
All-others j entries [] h = tt
All-others j entries (a ∷ archives) ((matched, deletable), h) =
    ((matched, others-IsDeletable a.id j entries deletable), All-others j entries archives h)

keep_all : (entries : List DirEntry) → keep (λ e. not (is_named [] e)) entries ≡ entries
keep_all [] = refl
keep_all (e ∷ entries) = ap (◌∷◌ e) (keep_all entries)

-- The loop behind its first deletion.
abbrev deleted_first : List Archive → ArchiveDir × Option LogError → ArchiveDir × ℕ × List LogError
deleted_first archives (d, e) =
    let (after, deleted, errs) = delete_archives archives d in
    (after, (add_deletion e (deleted, errs)).0, (add_deletion e (deleted, errs)).1)

-- Deleting archives takes their entries away and counts them all, without an error.
pub delete_archives-is_named :
    (archives : List Archive) (d : ArchiveDir)
    → IsHealthy d
    → All (IsArchiveId d.entries) archives
    → delete_archives archives d ≡ (
      record d { entries = keep (λ e. not (is_named archives e)) d.entries },
      length archives,
      [],
    )
unfolding delete_archives
delete_archives-is_named [] d ok_calls h =
    ap (λ (es : List DirEntry). (record d { entries = es }, 0, [])) (sym (keep_all d.entries))
delete_archives-is_named (a ∷ archives) d ok_calls (first, h) =
    let healthy : IsHealthy (without a.id d) = record {
      found = ok_calls.found;
      readable = ok_calls.readable;
      visible = ok_calls.visible;
      removable = ok_calls.removable;
    } in
    let rest =
      delete_archives-is_named archives (without a.id d) healthy
        (All-others a.id d.entries archives h) in
    ap (deleted_first archives) (delete_archive-others d a ok_calls first)
    ∙ ap
        (λ (t : ArchiveDir × ℕ × List LogError).
          (t.0, (add_deletion none (t.1, t.2)).0, (add_deletion none (t.1, t.2)).1))
        rest
    ∙ ap (λ (es : List DirEntry). (record d { entries = es }, suc (length archives), []))
        (keep_both (is_named archives) (λ e. e.name =ₜ a.id) d.entries)
