-- ===== src/AuditLog/Archive/Move.antt =====
-- Moving a log into the archive: ArchiveLog, moveLog, copyAndDelete, and AttachLogs, which does so
-- before a service writes its log (platform/audit/logs.go).
use llamarig.Common.{ℕ, Option, none, some, List, [], ◌∷◌, if◌then◌else◌, take}
use llamarig.Common.Text.{Text}
use llamarig.Common.Results.{Result, ok, err}
use llamarig.AuditLog.{LogError, invalid_name, not_regular, already_exists, is_log_name}
use llamarig.AuditLog.Clock.{Clock}
use llamarig.AuditLog.Archive.{FileKind, DirEntry, is_regular, archive_id, find_entry}

pub record LogFile : Type 0 where
  pub kind : FileKind
  pub contents : Text

-- The log's file and the entries of the archive directory.
pub record Disk : Type 0 where
  pub log : Option LogFile
  pub entries : List DirEntry

-- `os.Rename`: done, on another device, or another error.
pub data Renaming : Type 0 where
  renamed cross_device : Renaming
  rename_failed : LogError → Renaming

-- What the calls of the system fail with. An error of a `os.Lstat` is one other than that nothing
-- is there; a failed copy has written some bytes.
pub record Calls : Type 0 where
  pub log_path : Option LogError
  pub lstat_log : Option LogError
  pub archive_dir : Option LogError
  pub make_dir : Option LogError
  pub lstat_target : Option LogError
  pub rename : Renaming
  pub open_source : Option LogError
  pub create_target : Option LogError
  pub copy : Option (ℕ × LogError)
  pub close_target : Option LogError
  pub close_source : Option LogError
  pub remove_source : Option LogError
  pub remove_target : Option LogError
  pub init_file : Option LogError

abbrev pub Outcome : Type 0 → Type 0
Outcome A = Disk × Result LogError A

-- The next call, if the one before it did not fail.
abbrev pub after_call : {A : Type 0} → Option LogError → Disk → Outcome A → Outcome A
after_call (some e) d next = (d, err e)
after_call none d next = next

abbrev pub archived : Text → Text → DirEntry
archived id contents = record {
  name = id;
  kind = FileKind.regular;
  contents = contents;
  info_error = none;
}

abbrev pub put_entry : Text → Text → Disk → Disk
put_entry id contents d = record d { entries = archived id contents ∷ d.entries }

-- `os.Remove(source)`.
abbrev pub remove_log : Option LogError → Disk → Disk
remove_log (some _) d = d
remove_log none d = record d { log = none }

-- `_ = os.Remove(target)`, of the target as far as it was written, and the error.
abbrev pub undo_copy : Option LogError → Text → Text → LogError → Disk → Outcome (Unit {0})
undo_copy none id part e d = (d, err e)
undo_copy (some _) id part e d = (put_entry id part d, err e)

-- `errors.Join(src.Close(), os.Remove(source))`.
abbrev pub join_errors : Option LogError → Option LogError → Result LogError (Unit {0})
join_errors none none = ok tt
join_errors none (some e) = err e
join_errors (some e) _ = err e

module _ (calls : Calls) where
  abbrev pub close_copy : Option LogError → Text → Text → Disk → Outcome (Unit {0})
  close_copy (some e) id contents d = undo_copy calls.remove_target id contents e d
  close_copy none id contents d = (
    remove_log calls.remove_source (put_entry id contents d),
    join_errors calls.close_source calls.remove_source,
  )

  abbrev pub copied : Option (ℕ × LogError) → Text → Text → Disk → Outcome (Unit {0})
  copied (some (n, e)) id contents d = undo_copy calls.remove_target id (take n contents) e d
  copied none id contents d = close_copy calls.close_target id contents d

  unfoldable pub copy_and_delete : Text → Text → Disk → Outcome (Unit {0})
  copy_and_delete id contents d =
      after_call calls.open_source d
        (after_call calls.create_target d (copied calls.copy id contents d))

  abbrev pub moved : Renaming → Text → Text → Disk → Outcome (Unit {0})
  moved Renaming.renamed id contents d = (record (put_entry id contents d) { log = none }, ok tt)
  moved Renaming.cross_device id contents d = copy_and_delete id contents d
  moved (Renaming.rename_failed e) id contents d = (d, err e)

  unfoldable pub move_log : Text → Text → Disk → Outcome (Unit {0})
  unfolding copy_and_delete
  move_log id contents d = moved calls.rename id contents d

  abbrev pub named : Text → Outcome (Unit {0}) → Outcome Text
  named id (d, err e) = (d, err e)
  named id (d, ok _) = (d, ok id)

  -- The target must not be there.
  abbrev pub move_new : Option DirEntry → Text → Text → Disk → Outcome Text
  move_new (some _) id contents d = (d, err already_exists)
  move_new none id contents d = named id (move_log id contents d)

  -- A log that is not empty.
  abbrev pub archive_contents : Text → Text → Disk → Outcome Text
  archive_contents id contents d = after_call calls.archive_dir d (
      after_call calls.make_dir d
        (after_call calls.lstat_target d (move_new (find_entry id d.entries) id contents d)))

  abbrev pub archive_file : Option LogFile → Text → Clock → Disk → Outcome Text
  archive_file none name now d = (d, ok [])
  archive_file (some f) name now d =
      if is_regular f.kind
      then elim f.contents [
        | [] ↦ (remove_log calls.remove_source d, ok [])
        | c ∷ s ↦ archive_contents (archive_id name now) (c ∷ s) d
      ]
      else (d, err not_regular)

  unfoldable pub archive_log : Text → Clock → Disk → Outcome Text
  unfolding is_log_name move_log archive_id find_entry
  archive_log name now d =
      if is_log_name name
      then after_call calls.log_path d
          (after_call calls.lstat_log d (archive_file d.log name now d))
      else (d, err invalid_name)

  -- `initLogFile` opens the log for appending, and makes it where there is none.
  abbrev pub init_log_file : Disk → Disk
  init_log_file d = elim d.log [
    | some _ ↦ d
    | none ↦ record d { log = some (record { kind = FileKind.regular; contents = [] }) }
  ]

  -- AttachLogs: where the log cannot be archived, it is appended to.
  unfoldable pub attach_logs : Text → Clock → Disk → Outcome (Unit {0})
  unfolding archive_log
  attach_logs name now d = after_call calls.log_path d (
      let d' = (archive_log name now d).0 in
      after_call calls.init_file d' (init_log_file d', ok tt))
