-- ===== src/AuditLog/Archive/Archived.antt =====
-- The archive that a successful ArchiveLog leaves, as archiveEntry reads it.
use llamarig.Common.{
  ℕ, ◌≡◌, refl, sym, ap, subst, ◌∙◌, inl, inr, true, Option, none, some, ◌∷◌, Bool-cases, take,
  length,
}
use llamarig.Common.Text.{Text}
use llamarig.Common.Results.{ok, err}
use llamarig.AuditLog.{LogError, is_log_name}
use llamarig.AuditLog.Clock.{Clock}
use llamarig.AuditLog.Clock.Digits.{IsClock, parse_clock-format_clock}
use llamarig.AuditLog.Archive.{
  FileKind, DirEntry, archive_id, archive_matched, archive_dated, archive_entry, find_entry,
}
use llamarig.AuditLog.Archive.Moved.{put_entry-found}
use llamarig.AuditLog.Archive.Names.{match_archive_name-archive_id}
use llamarig.AuditLog.Archive.Move.{
  Disk, Renaming, Calls, Outcome, after_call, archived, put_entry, remove_log, join_errors,
  undo_copy, close_copy, copied, copy_and_delete, moved, move_log, named, move_new,
  archive_contents, archive_file, archive_log,
}

-- The log has become an archive that holds all of it.
abbrev IsMoved : Text → Text → Disk → Type 0
IsMoved id contents d' = (d'.log ≡ none) × (find_entry id d'.entries ≡ some (archived id contents))

-- What holds of the disk where the outcome is not an error.
abbrev OnOk : {A : Type 0} → (Disk → A → Type 0) → Outcome A → Type 0
OnOk P (d', err e) = Unit
OnOk P (d', ok v) = P d' v

after_call-OnOk :
    {A : Type 0} (P : Disk → A → Type 0) (call : Option LogError) (d : Disk) (next : Outcome A)
    → OnOk P next
    → OnOk P (after_call call d next)
after_call-OnOk P none d next h = h
after_call-OnOk P (some e) d next h = tt

abbrev Moves : Text → Text → Disk → Unit {0} → Type 0
Moves id contents d' _ = IsMoved id contents d'

abbrev MovesTo : Text → Text → Disk → Text → Type 0
MovesTo id contents d' id' = (id' ≡ id) × IsMoved id contents d'

module _ (calls : Calls) (id contents : Text) (d : Disk) where
  undo_copy-OnOk :
      (removal : Option LogError) (part : Text) (e : LogError)
      → OnOk (Moves id contents) (undo_copy removal id part e d)
  undo_copy-OnOk none part e = tt
  undo_copy-OnOk (some _) part e = tt

  removed-OnOk :
      (closing removal : Option LogError)
      → OnOk
          (Moves id contents)
          (remove_log removal (put_entry id contents d), join_errors closing removal)
  removed-OnOk none none = (refl, put_entry-found id contents d)
  removed-OnOk none (some e) = tt
  removed-OnOk (some e) none = tt
  removed-OnOk (some e) (some _) = tt

  close_copy-OnOk :
      (closing : Option LogError)
      → OnOk (Moves id contents) (close_copy calls closing id contents d)
  close_copy-OnOk none = removed-OnOk calls.close_source calls.remove_source
  close_copy-OnOk (some e) = undo_copy-OnOk calls.remove_target contents e

  copied-OnOk :
      (copy : Option (ℕ × LogError)) → OnOk (Moves id contents) (copied calls copy id contents d)
  copied-OnOk none = close_copy-OnOk calls.close_target
  copied-OnOk (some (n, e)) = undo_copy-OnOk calls.remove_target (take n contents) e

  moved-OnOk : (renaming : Renaming) → OnOk (Moves id contents) (moved calls renaming id contents d)
  unfolding copy_and_delete
  moved-OnOk Renaming.renamed = (refl, put_entry-found id contents d)
  moved-OnOk Renaming.cross_device =
      after_call-OnOk (Moves id contents) calls.open_source d _
        (after_call-OnOk (Moves id contents) calls.create_target d _ (copied-OnOk calls.copy))
  moved-OnOk (Renaming.rename_failed e) = tt

  named-OnOk :
      (out : Outcome (Unit {0}))
      → OnOk (Moves id contents) out
      → OnOk (MovesTo id contents) (named calls id out)
  named-OnOk (d', err e) h = tt
  named-OnOk (d', ok _) h = (refl, h)

  move_new-OnOk :
      (found : Option DirEntry) → OnOk (MovesTo id contents) (move_new calls found id contents d)
  unfolding move_log
  move_new-OnOk none = named-OnOk _ (moved-OnOk calls.rename)
  move_new-OnOk (some _) = tt

  archive_contents-OnOk : OnOk (MovesTo id contents) (archive_contents calls id contents d)
  archive_contents-OnOk = after_call-OnOk (MovesTo id contents) calls.archive_dir d _ (
      after_call-OnOk (MovesTo id contents) calls.make_dir d _ (
        after_call-OnOk (MovesTo id contents) calls.lstat_target d _
          (move_new-OnOk (find_entry id d.entries))))

archive_file-OnOk :
    (calls : Calls) (name : Text) (now : Clock) (c : ℕ) (s : Text) (kind : FileKind) (d : Disk)
    → OnOk
        (MovesTo (archive_id name now) (c ∷ s))
        (archive_file calls (some (record { kind = kind; contents = c ∷ s })) name now d)
archive_file-OnOk calls name now c s FileKind.regular d =
    archive_contents-OnOk calls (archive_id name now) (c ∷ s) d
archive_file-OnOk calls name now c s FileKind.symlink d = tt
archive_file-OnOk calls name now c s FileKind.other d = tt

archive_log-OnOk :
    (calls : Calls) (name : Text) (now : Clock) (c : ℕ) (s : Text) (kind : FileKind) (d : Disk)
    → d.log ≡ some (record { kind = kind; contents = c ∷ s })
    → OnOk (MovesTo (archive_id name now) (c ∷ s)) (archive_log calls name now d)
unfolding archive_log
archive_log-OnOk calls name now c s kind d there =
    let P = MovesTo (archive_id name now) (c ∷ s) in
    let file =
      subst (λ log. OnOk P (archive_file calls log name now d)) (sym there)
        (archive_file-OnOk calls name now c s kind d) in
    elim (Bool-cases (is_log_name name)) [
      | inr bad ↦ rw bad tt
      | inl valid ↦
          rw valid
            (after_call-OnOk P calls.log_path d _ (after_call-OnOk P calls.lstat_log d _ file))
    ]

archive_log_valid :
    (calls : Calls) (name id : Text) (now : Clock) (d d' : Disk)
    → archive_log calls name now d ≡ (d', ok id)
    → is_log_name name ≡ true
unfolding archive_log
archive_log_valid calls name id now d d' h = elim (Bool-cases (is_log_name name)) [
  | inl valid ↦ valid
  | inr bad ↦ cc (rw (archive_log, bad) at h)
]

-- The archive that a log becomes.
abbrev pub IsArchived : Text → Clock → Text → Disk → Text → Type 0
IsArchived name now contents d' id =
    (d'.log ≡ none)
    × (e : DirEntry) × (find_entry id d'.entries ≡ some e)
    × (archive_entry e
        ≡ some
            (record { id = id; service = name; size_bytes = length contents; archived_at = now }))

archived_entry :
    (name : Text) (now : Clock) (contents : Text)
    → is_log_name name ≡ true
    → IsClock now
    → archive_entry (archived (archive_id name now) contents)
      ≡ some (record {
        id = archive_id name now;
        service = name;
        size_bytes = length contents;
        archived_at = now;
      })
unfolding archive_entry
archived_entry name now contents valid clock =
    ap (archive_matched (archived (archive_id name now) contents))
      (match_archive_name-archive_id name now valid)
    ∙ ap
        (λ (at : Option Clock).
          archive_dated (archived (archive_id name now) contents) name at none)
        (parse_clock-format_clock now clock)

-- Where archiving a log that is not empty succeeds, the log is gone, and archiveEntry reads the
-- entry of the id that is returned as an archive with the log's name, its size and the time at
-- which it was archived.
pub archive_log-IsArchived :
    (calls : Calls) (name : Text) (now : Clock) (c : ℕ) (s id : Text) (kind : FileKind)
    (d d' : Disk)
    → d.log ≡ some (record { kind = kind; contents = c ∷ s })
    → IsClock now
    → archive_log calls name now d ≡ (d', ok id)
    → IsArchived name now (c ∷ s) d' id
archive_log-IsArchived calls name now c s id kind d d' there clock h =
    let valid = archive_log_valid calls name id now d d' h in
    let (same, (gone, found)) =
      subst (OnOk (MovesTo (archive_id name now) (c ∷ s))) h
        (archive_log-OnOk calls name now c s kind d there) in
    (
      gone,
      archived (archive_id name now) (c ∷ s),
      rw same found,
      rw same (archived_entry name now (c ∷ s) valid clock),
    )
