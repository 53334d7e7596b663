-- ===== src/AuditLog/Archive/Moved.antt =====
-- What ArchiveLog does to the log and the archives, whichever of its calls fail.
use llamarig.Common.{
  ℕ, ◌≡◌, refl, sym, subst, ◌⊎◌, inl, inr, not, Option, none, some, List, ◌∷◌, Bool-cases, take,
  keep,
}
use llamarig.Common.Text.{Text, ◌=ₜ◌, =ₜ_refl}
use llamarig.Common.Results.{ok, err}
use llamarig.AuditLog.{LogError, is_log_name}
use llamarig.AuditLog.Clock.{Clock}
use llamarig.AuditLog.Archive.{FileKind, DirEntry, archive_id, find_entry}
use llamarig.AuditLog.Archive.Move.{
  LogFile, Disk, Renaming, Calls, Outcome, after_call, archived, put_entry, remove_log, undo_copy,
  close_copy, copied, copy_and_delete, moved, move_log, named, move_new, archive_contents,
  archive_file, archive_log,
}

abbrev pub other_entries : Text → List DirEntry → List DirEntry
other_entries id entries = keep (λ e. not (e.name =ₜ id)) entries

-- The log is where it was, or the archive holds all of it; and the other archives are as they were.
abbrev pub IsKept : LogFile → Text → Disk → Disk → Type 0
IsKept f id d d' =
    (other_entries id d'.entries ≡ other_entries id d.entries)
    × ((d'.log ≡ some f) ⊎ (find_entry id d'.entries ≡ some (archived id f.contents)))

put_entry-others :
    (id part : Text) (d : Disk)
    → other_entries id (put_entry id part d).entries ≡ other_entries id d.entries
put_entry-others id part d = rw (=ₜ_refl id) refl

pub put_entry-found :
    (id part : Text) (d : Disk)
    → find_entry id (put_entry id part d).entries ≡ some (archived id part)
unfolding find_entry
put_entry-found id part d = rw (=ₜ_refl id) refl

module _ (calls : Calls) (f : LogFile) (id : Text) (d : Disk) (there : d.log ≡ some f) where
  undo_copy-IsKept :
      (removal : Option LogError) (part : Text) (e : LogError)
      → IsKept f id d (undo_copy removal id part e d).0
  undo_copy-IsKept none part e = (refl, inl there)
  undo_copy-IsKept (some _) part e = (put_entry-others id part d, inl there)

  remove_log-IsKept :
      (removal : Option LogError) → IsKept f id d (remove_log removal (put_entry id f.contents d))
  remove_log-IsKept none = (put_entry-others id f.contents d, inr (put_entry-found id f.contents d))
  remove_log-IsKept (some _) =
      (put_entry-others id f.contents d, inr (put_entry-found id f.contents d))

  close_copy-IsKept :
      (closing : Option LogError) → IsKept f id d (close_copy calls closing id f.contents d).0
  close_copy-IsKept none = remove_log-IsKept calls.remove_source
  close_copy-IsKept (some e) = undo_copy-IsKept calls.remove_target f.contents e

  copied-IsKept :
      (copy : Option (ℕ × LogError)) → IsKept f id d (copied calls copy id f.contents d).0
  copied-IsKept none = close_copy-IsKept calls.close_target
  copied-IsKept (some (n, e)) = undo_copy-IsKept calls.remove_target (take n f.contents) e

  after_call-IsKept :
      {A : Type 0} (call : Option LogError) (next : Outcome A)
      → IsKept f id d next.0
      → IsKept f id d (after_call call d next).0
  after_call-IsKept none next h = h
  after_call-IsKept (some e) next h = (refl, inl there)

  moved-IsKept : (renaming : Renaming) → IsKept f id d (moved calls renaming id f.contents d).0
  unfolding copy_and_delete
  moved-IsKept Renaming.renamed =
      (put_entry-others id f.contents d, inr (put_entry-found id f.contents d))
  moved-IsKept Renaming.cross_device =
      after_call-IsKept calls.open_source _
        (after_call-IsKept calls.create_target _ (copied-IsKept calls.copy))
  moved-IsKept (Renaming.rename_failed e) = (refl, inl there)

  named-IsKept :
      (out : Outcome (Unit {0})) → IsKept f id d out.0 → IsKept f id d (named calls id out).0
  named-IsKept (d', err e) h = h
  named-IsKept (d', ok _) h = h

  move_new-IsKept :
      (found : Option DirEntry) → IsKept f id d (move_new calls found id f.contents d).0
  unfolding move_log
  move_new-IsKept none = named-IsKept _ (moved-IsKept calls.rename)
  move_new-IsKept (some _) = (refl, inl there)

  archive_contents-IsKept : IsKept f id d (archive_contents calls id f.contents d).0
  archive_contents-IsKept = after_call-IsKept calls.archive_dir _ (
      after_call-IsKept calls.make_dir _
        (after_call-IsKept calls.lstat_target _ (move_new-IsKept (find_entry id d.entries))))

archive_file-IsKept :
    (calls : Calls) (name : Text) (now : Clock) (c : ℕ) (s : Text) (kind : FileKind) (d : Disk)
    → let f : LogFile = record { kind = kind; contents = c ∷ s } in
      d.log ≡ some f → IsKept f (archive_id name now) d (archive_file calls (some f) name now d).0
archive_file-IsKept calls name now c s FileKind.regular d there =
    archive_contents-IsKept calls (record { kind = FileKind.regular; contents = c ∷ s })
      (archive_id name now) d there
archive_file-IsKept calls name now c s FileKind.symlink d there = (refl, inl there)
archive_file-IsKept calls name now c s FileKind.other d there = (refl, inl there)

-- Whichever calls fail, archiving a log that is not empty loses nothing: the log is still in its
-- place, or the archive of that name and time holds all of it; and all archives of other names are
-- as they were.
pub archive_log-IsKept :
    (calls : Calls) (name : Text) (now : Clock) (c : ℕ) (s : Text) (kind : FileKind) (d : Disk)
    → d.log ≡ some (record { kind = kind; contents = c ∷ s })
    → IsKept
        (record { kind = kind; contents = c ∷ s })
        (archive_id name now)
        d
        (archive_log calls name now d).0
unfolding archive_log
archive_log-IsKept calls name now c s kind d there =
    let f : LogFile = record { kind = kind; contents = c ∷ s } in
    let id = archive_id name now in
    let file_kept =
      subst (λ log. IsKept f id d (archive_file calls log name now d).0) (sym there)
        (archive_file-IsKept calls name now c s kind d there) in
    elim (Bool-cases (is_log_name name)) [
      | inr bad ↦ rw bad (refl, inl there)
      | inl valid ↦ rw valid (
          after_call-IsKept calls f id d there calls.log_path _
            (after_call-IsKept calls f id d there calls.lstat_log _ file_kept))
    ]
