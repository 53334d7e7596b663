-- ===== src/AuditLog/Archive.antt =====
-- The archives of logs: their names, and the operations on the directory that holds them
-- (ListArchives, TailArchive, DeleteArchive, ClearArchives, CleanupArchives, platform/audit/logs.go).
pub mod Names
pub mod Move
pub mod Moved
pub mod Archived
pub mod Removal
pub mod Listed
pub mod Cleanup
use llamarig.Common.{
  ℕ, ◌+◌, ◌-◌, Bool, true, false, ◌&&◌, ◌||◌, not, Option, none, some, List, [], ◌∷◌, ◌++◌, suc,
  ltb, leb, ◌==◌, if◌then◌else◌, length, take, drop, keep,
}
use llamarig.Common.Text.{Text, codes, ◌=ₜ◌, contains}
use llamarig.Common.Results.{Result, ok, err}
use llamarig.Common.Int.{ℤ}
use llamarig.AuditLog.{LogError, invalid_archive, not_exist, not_regular, is_not_exist, is_log_name}
use llamarig.AuditLog.Tail.{OpenFile, tail_file_lines}
use llamarig.AuditLog.Clock.{Clock, format_clock, parse_clock, instant}

pub record Archive : Type 0 where
  pub id : Text
  pub service : Text
  pub size_bytes : ℕ
  pub archived_at : Clock

pub data FileKind : Type 0 where
  regular symlink other : FileKind

abbrev pub is_regular : FileKind → Bool
is_regular FileKind.regular = true
is_regular _ = false

-- A directory's entry with what its file holds, and what `entry.Info` fails with.
pub record DirEntry : Type 0 where
  pub name : Text
  pub kind : FileKind
  pub contents : Text
  pub info_error : Option LogError

abbrev pub is_digit : ℕ → Bool
is_digit c = leb b'0' c && leb c b'9'

-- A text of a shape, in which a zero stands for any digit.
unfoldable pub fits : Text → Text → Bool
fits [] [] = true
fits [] (c ∷ s) = false
fits (p ∷ shape) [] = false
fits (p ∷ shape) (c ∷ s) = (if p == b'0' then is_digit c else p == c) && fits shape s

abbrev pub stamp_shape : Text
stamp_shape = codes "-00000000T000000.000000000Z.log"

-- `archiveNamePattern.FindStringSubmatch`: what stands before the last 31 characters and the time
-- in these, if they have its shape.
abbrev pub matched_at : ℕ → Text → Option (Text × Text)
matched_at at s =
    if is_log_name (take at s) && fits stamp_shape (drop at s)
    then some (take at s, take 26 (drop (suc at) s))
    else none

unfoldable pub match_archive_name : Text → Option (Text × Text)
unfolding fits is_log_name
match_archive_name s = matched_at (length s - 31) s

-- `fmt.Sprintf("%s-%s.log", name, …)`.
unfoldable pub archive_id : Text → Clock → Text
unfolding format_clock
archive_id name now = name ++ b'-' ∷ format_clock now (codes ".log")

-- `archiveEntry`.
abbrev pub archive_dated : DirEntry → Text → Option Clock → Option LogError → Option Archive
archive_dated e service none info = none
archive_dated e service (some at) (some _) = none
archive_dated e service (some at) none =
    some
      (record { id = e.name; service = service; size_bytes = length e.contents; archived_at = at })

abbrev pub archive_matched : DirEntry → Option (Text × Text) → Option Archive
archive_matched e none = none
archive_matched e (some (service, stamp)) = archive_dated e service (parse_clock stamp) e.info_error

unfoldable pub archive_entry : DirEntry → Option Archive
unfolding match_archive_name
archive_entry e = if is_regular e.kind then archive_matched e (match_archive_name e.name) else none

-- The loop of ListArchives.
unfoldable pub archives_of : List DirEntry → List Archive
unfolding archive_entry
archives_of [] = []
archives_of (e ∷ entries) = elim (archive_entry e) [
  | none ↦ archives_of entries
  | some a ↦ a ∷ archives_of entries
]

-- `slices.SortFunc`, the newest first.
abbrev pub insert_newest : Archive → List Archive → List Archive
insert_newest a [] = a ∷ []
insert_newest a (b ∷ bs) =
    if leb (instant b.archived_at) (instant a.archived_at)
    then a ∷ b ∷ bs
    else b ∷ insert_newest a bs

unfoldable pub newest_first : List Archive → List Archive
newest_first [] = []
newest_first (a ∷ archives) = insert_newest a (newest_first archives)

-- The directory, and what the calls of the system fail with.
pub record ArchiveDir : Type 0 where
  pub dir_error : Option LogError
  pub read_error : Option LogError
  pub lstat_error : Text → Option LogError
  pub remove_error : Text → Option LogError
  pub entries : List DirEntry

unfoldable pub list_archives : ArchiveDir → Result LogError (List Archive)
unfolding newest_first archives_of
list_archives d = elim d.dir_error [
  | some e ↦ err e
  | none ↦ elim d.read_error [
    | some e ↦ if is_not_exist e then ok [] else err e
    | none ↦ ok (newest_first (archives_of d.entries))
  ]
]

-- `filepath.Base(id) != id`.
abbrev pub is_base : Text → Bool
is_base [] = false
is_base (c ∷ s) = not (contains b'/' (c ∷ s)) || (c ∷ s) =ₜ b'/' ∷ []

unfoldable pub find_entry : Text → List DirEntry → Option DirEntry
find_entry id [] = none
find_entry id (e ∷ entries) = if e.name =ₜ id then some e else find_entry id entries

-- `os.Lstat` and the check behind it.
abbrev pub found_path : Option LogError → Option DirEntry → Text → Result LogError Text
found_path (some e) found id = err e
found_path none none id = err not_exist
found_path none (some e) id = if is_regular e.kind then ok id else err not_regular

-- A path is the id of the archive in the directory.
unfoldable pub archive_path : ArchiveDir → Text → Result LogError Text
unfolding match_archive_name find_entry ◌=ₜ◌
archive_path d id =
    if is_base id
    then elim (match_archive_name id) [
      | none ↦ err invalid_archive
      | some _ ↦ elim d.dir_error [
        | some e ↦ err e
        | none ↦ found_path (d.lstat_error id) (find_entry id d.entries) id
      ]
    ]
    else err invalid_archive

abbrev pub tail_path :
    (Text → Result LogError OpenFile) → Result LogError Text → ℤ → Option (Result LogError Text)
tail_path open_file (err e) lines = some (err e)
tail_path open_file (ok path) lines = tail_file_lines (open_file path) lines

unfoldable pub tail_archive :
    ArchiveDir → (Text → Result LogError OpenFile) → Text → ℤ → Option (Result LogError Text)
unfolding archive_path tail_file_lines
tail_archive d open_file id lines = tail_path open_file (archive_path d id) lines

abbrev pub without : Text → ArchiveDir → ArchiveDir
without id d = record d { entries = keep (λ e. not (e.name =ₜ id)) d.entries }

-- `os.Remove` and the check behind it.
abbrev pub remove_path : Option LogError → Text → ArchiveDir → ArchiveDir × Option LogError
remove_path none id d = (without id d, none)
remove_path (some e) id d = (d, if is_not_exist e then none else some e)

abbrev pub delete_found : Result LogError Text → ArchiveDir → ArchiveDir × Option LogError
delete_found (err e) d = (d, if is_not_exist e then none else some e)
delete_found (ok path) d = remove_path (d.remove_error path) path d

unfoldable pub delete_archive : Text → ArchiveDir → ArchiveDir × Option LogError
unfolding archive_path ◌=ₜ◌
delete_archive id d = delete_found (archive_path d id) d

-- What the loop of deleteArchives counts, and the errors that it joins.
abbrev pub add_deletion : Option LogError → ℕ × List LogError → ℕ × List LogError
add_deletion none (deleted, errs) = (suc deleted, errs)
add_deletion (some e) (deleted, errs) = (deleted, e ∷ errs)

unfoldable pub delete_archives : List Archive → ArchiveDir → ArchiveDir × ℕ × List LogError
unfolding delete_archive
delete_archives [] d = (d, 0, [])
delete_archives (a ∷ archives) d =
    let (d', e) = delete_archive a.id d in
    let (after, deleted, errs) = delete_archives archives d' in
    let (count, joined) = add_deletion e (deleted, errs) in (after, count, joined)

abbrev pub delete_listed :
    (Archive → Bool) → Result LogError (List Archive) → ArchiveDir → ArchiveDir × ℕ × List LogError
delete_listed p (err e) d = (d, 0, e ∷ [])
delete_listed p (ok archives) d = delete_archives (keep p archives) d

unfoldable pub clear_archives : ArchiveDir → ArchiveDir × ℕ × List LogError
unfolding list_archives delete_archives
clear_archives d = delete_listed (λ _. true) (list_archives d) d

-- `archive.ArchivedAt.Before(now.Add(-retention))`, for a retention that is not negative. No time
-- in a name is before the year 0, so that a cutoff before it is as good as one at it.
abbrev pub is_expired : ℕ → Clock → Archive → Bool
is_expired retention now a = ltb (instant a.archived_at) (instant now - retention)

unfoldable pub cleanup_archives : ℕ → Clock → ArchiveDir → ArchiveDir × ℕ × List LogError
unfolding list_archives delete_archives instant
cleanup_archives retention now d =
    if retention == 0
    then (d, 0, [])
    else delete_listed (is_expired retention now) (list_archives d) d
