-- ===== src/AuditLog/Archive/Cleanup.antt =====
-- CleanupArchives and ClearArchives in a directory in which no call fails.
use mathlib.Core.Path.{fun_ext}
use llamarig.Common.{
  ℕ, ◌≡◌, refl, ap, ◌∙◌, inl, inr, Bool, true, false, not, ◌&&◌, ◌||◌, List, [], ◌∷◌, arith, ◌==◌,
  Bool-cases, Option-cases, keep, All, length,
}
use llamarig.Common.Text.{◌=ₜ◌, =ₜ_iff, =ₜ_refl}
use llamarig.Common.Results.{Result, ok}
use llamarig.AuditLog.{LogError}
use llamarig.AuditLog.Clock.{Clock}
use llamarig.AuditLog.Archive.{
  DirEntry, Archive, ArchiveDir, archive_entry, archives_of, insert_newest, newest_first,
  list_archives, delete_listed, is_expired, cleanup_archives,
}
use llamarig.AuditLog.Archive.Removal.{IsHealthy, IsArchiveId, is_named, delete_archives-is_named}
use llamarig.AuditLog.Archive.Listed.{
  Unique, entry_passes, archive_entry_inv, Unique-found, archives_of-IsArchiveId, newest_first-All,
  keep-All,
}

module _ (p : Archive → Bool) where
  -- The order of the archives does not matter to what is deleted.
  insert-named :
      (a : Archive) (archives : List Archive) (e : DirEntry)
      → is_named (keep p (insert_newest a archives)) e ≡ is_named (keep p (a ∷ archives)) e
  insert-named a [] e = refl
  insert-named a (b ∷ bs) e = ground (arith, insert-named a bs e)

  newest-named :
      (archives : List Archive) (e : DirEntry)
      → is_named (keep p (newest_first archives)) e ≡ is_named (keep p archives) e
  unfolding newest_first
  newest-named [] e = refl
  newest-named (a ∷ archives) e =
      ground (arith, insert-named a (newest_first archives) e, newest-named archives e)

  insert-count :
      (a : Archive) (archives : List Archive)
      → length (keep p (insert_newest a archives)) ≡ length (keep p (a ∷ archives))
  insert-count a [] = refl
  insert-count a (b ∷ bs) = ground (arith, insert-count a bs)

  newest-count :
      (archives : List Archive) → length (keep p (newest_first archives)) ≡ length (keep p archives)
  unfolding newest_first
  newest-count [] = refl
  newest-count (a ∷ archives) =
      ground (arith, insert-count a (newest_first archives), newest-count archives)

  archives_of-count :
      (entries : List DirEntry)
      → length (keep p (archives_of entries)) ≡ length (keep (entry_passes p) entries)
  unfolding archives_of
  archives_of-count [] = refl
  archives_of-count (e ∷ entries) = elim (Option-cases (archive_entry e)) [
    | inl other ↦ rw (archives_of, other) (archives_of-count entries)
    | inr (a, archive) ↦ rw (archives_of, archive) (ground (arith, archives_of-count entries))
  ]

  -- What the archive of an entry adds.
  named-cons :
      (e f : DirEntry) (entries : List DirEntry)
      → is_named (keep p (archives_of (e ∷ entries))) f
        ≡ ((entry_passes p e && f.name =ₜ e.name) || is_named (keep p (archives_of entries)) f)
  unfolding archives_of
  named-cons e f entries = elim (Option-cases (archive_entry e)) [
    | inl other ↦ rw (archives_of, other) refl
    | inr (a, archive) ↦
        let (_, _, same) = archive_entry_inv e a archive in
        rw (archives_of, archive) (rw (← same) (ground arith))
  ]

  no_hit :
      (e : DirEntry) (fs : List DirEntry)
      → All (λ f. (e.name =ₜ f.name) ≡ false) fs
      → is_named (keep p (archives_of fs)) e ≡ false
  no_hit e [] h = unfold archives_of in refl
  no_hit e (f ∷ fs) (differs, h) = ground (arith, named-cons f e fs, no_hit e fs)

  tail_named :
      (e : DirEntry) (entries fs : List DirEntry)
      → All (λ f. (e.name =ₜ f.name) ≡ false) fs
      → All (λ f. is_named (keep p (archives_of entries)) f ≡ entry_passes p f) fs
      → All (λ f. is_named (keep p (archives_of (e ∷ entries))) f ≡ entry_passes p f) fs
  tail_named e entries [] d h = tt
  tail_named e entries (f ∷ fs) (differs, d) (same, h) = (
    ground (arith, named-cons e f entries, =ₜ_iff e.name f.name, =ₜ_iff f.name e.name),
    tail_named e entries fs d h,
  )

  -- Of the entries of a directory, the archives that pass have the names of those that pass.
  Unique-named :
      (entries : List DirEntry)
      → Unique entries
      → All (λ f. is_named (keep p (archives_of entries)) f ≡ entry_passes p f) entries
  Unique-named [] u = tt
  Unique-named (e ∷ entries) (d, u) = (
    ground (arith, named-cons e e entries, no_hit e entries d, =ₜ_refl e.name),
    tail_named e entries entries d (Unique-named entries u),
  )

keep_same :
    (q r : DirEntry → Bool) (entries : List DirEntry)
    → All (λ f. q f ≡ r f) entries
    → keep (λ f. not (q f)) entries ≡ keep (λ f. not (r f)) entries
keep_same q r [] h = refl
keep_same q r (e ∷ entries) (same, h) = ground (arith, keep_same q r entries h)

-- Deleting the listed archives that pass.
delete_listed-passing :
    (p : Archive → Bool) (d : ArchiveDir)
    → IsHealthy d
    → Unique d.entries
    → delete_listed p (list_archives d) d ≡ (
      record d { entries = keep (λ e. not (entry_passes p e)) d.entries },
      length (keep (entry_passes p) d.entries),
      [],
    )
unfolding list_archives
delete_listed-passing p d healthy unique =
    let listed : list_archives d ≡ ok (newest_first (archives_of d.entries)) =
      rw (list_archives, healthy.found, healthy.readable) refl in
    let ids = keep-All (IsArchiveId d.entries) p _ (
      newest_first-All (IsArchiveId d.entries) _
        (archives_of-IsArchiveId d.entries d.entries (Unique-found d.entries unique))) in
    ap (λ (r : Result LogError (List Archive)). delete_listed p r d) listed
    ∙ delete_archives-is_named (keep p (newest_first (archives_of d.entries))) d healthy ids
    ∙ ap
        (λ (es : List DirEntry).
          (record d { entries = es }, length (keep p (newest_first (archives_of d.entries))), []))
        (ap (λ (q : DirEntry → Bool). keep (λ e. not (q e)) d.entries)
            (fun_ext (newest-named p (archives_of d.entries)))
          ∙ (keep_same _ (entry_passes p) d.entries (Unique-named p d.entries unique)))
    ∙ ap (λ (n : ℕ). (record d { entries = keep (λ e. not (entry_passes p e)) d.entries }, n, []))
        (newest-count p (archives_of d.entries) ∙ archives_of-count p d.entries)

-- What a retention takes away.
abbrev pub goes : ℕ → Clock → DirEntry → Bool
goes retention now e = not (retention == 0) && entry_passes (is_expired retention now) e

goes_never :
    (retention : ℕ) (now : Clock) (entries : List DirEntry)
    → (retention == 0) ≡ true
    → (entries ≡ keep (λ e. not (goes retention now e)) entries)
      × (0 ≡ length (keep (goes retention now) entries))
goes_never retention now [] h = (refl, refl)
goes_never retention now (e ∷ entries) h = ground (arith, goes_never retention now entries h)

goes_expired :
    (retention : ℕ) (now : Clock) (e : DirEntry)
    → (retention == 0) ≡ false
    → entry_passes (is_expired retention now) e ≡ goes retention now e
goes_expired retention now e h = rw h refl

-- Where no call fails, CleanupArchives takes away exactly the entries that are archives older than
-- the retention, and counts them; a retention of zero keeps everything.
pub cleanup_archives-is_expired :
    (retention : ℕ) (now : Clock) (d : ArchiveDir)
    → IsHealthy d
    → Unique d.entries
    → cleanup_archives retention now d ≡ (
      record d { entries = keep (λ e. not (goes retention now e)) d.entries },
      length (keep (goes retention now) d.entries),
      [],
    )
unfolding cleanup_archives
cleanup_archives-is_expired retention now d healthy unique = elim (Bool-cases (retention == 0)) [
  | inl forever ↦
      let (all_stay, none_go) = goes_never retention now d.entries forever in
      let nothing : cleanup_archives retention now d ≡ (d, 0, []) =
        rw (cleanup_archives, forever) refl in
      nothing
      ∙ ap (λ (es : List DirEntry). (record d { entries = es }, 0, [])) all_stay
      ∙ ap
          (λ (n : ℕ).
            (record d { entries = keep (λ e. not (goes retention now e)) d.entries }, n, []))
          none_go
  | inr some_time ↦
      let listed : cleanup_archives retention now d
          ≡ delete_listed (is_expired retention now) (list_archives d) d =
        rw (cleanup_archives, some_time) refl in
      listed
      ∙ delete_listed-passing (is_expired retention now) d healthy unique
      ∙ ap
          (λ (q : DirEntry → Bool).
            (record d { entries = keep (λ e. not (q e)) d.entries }, length (keep q d.entries), []))
          (fun_ext (λ e. goes_expired retention now e some_time))
]
