-- ===== src/AuditLog/Tests.antt =====
-- Runs of the log and archive operations, and the theorems at concrete inputs.
use llamarig.Common.{
  ℕ, zero, suc, ◌+◌, ◌≤◌, ◌≡◌, refl, none, some, [], ◌∷◌, ◌++◌, arith, length, take, drop,
  length-append, ◌∙◌,
}
use llamarig.Common.Text.{Text, codes, ◌=ₜ◌, split_at}
use llamarig.Common.TextLaws.{ends_with-snoc}
use llamarig.Common.Results.{Result, ok, err}
use llamarig.Common.Int.{pos}
use llamarig.AuditLog.{LogError, is_log_name, invalid_lines}
use llamarig.AuditLog.Tail.{
  count_newlines, ReadAt, OpenFile, read_tail_chunks, format_tail, tail_file_lines,
}
use llamarig.AuditLog.Tail.Chunks.{ReadsAtMost, IsCapped, read_tail_chunks-IsCapped}
use llamarig.AuditLog.Tail.End.{Reads, count-append}
use llamarig.AuditLog.Tail.Files.{ReturnsTail, tail_file_lines-IsTail}
use llamarig.AuditLog.Tail.Cut.{ReturnsCut, tail_file_lines-cut}
use llamarig.AuditLog.Follow.{OpenLog, follow_log}
use llamarig.AuditLog.Follow.Changes.{info_of}
use llamarig.AuditLog.Follow.Events.{appended, replaced_by, cut_to, taken_away, Intervals, ticks_of}
use llamarig.AuditLog.Follow.Delivery.{Opens, FollowsTail, follow_log-news}
use llamarig.AuditLog.Clock.{Clock, pad_onto, take_number, parse_clock, in_range, instant}
use llamarig.AuditLog.Archive.{FileKind, ArchiveDir, archive_entry, archive_id, cleanup_archives}
use llamarig.AuditLog.Archive.Move.{Disk, Renaming, Calls, archived, archive_log}
use llamarig.AuditLog.Archive.Moved.{IsKept, archive_log-IsKept}
use llamarig.AuditLog.Archive.Archived.{IsArchived, archive_log-IsArchived}
use llamarig.AuditLog.Archive.Removal.{IsHealthy}
use llamarig.AuditLog.Archive.Listed.{Unique}
use llamarig.AuditLog.Archive.Cleanup.{cleanup_archives-is_expired}

-- Reading a file that does not change.
abbrev reader : Text → ReadAt
reader file n start = ok (take n (drop start file))

reader-Reads : (file : Text) → Reads file (reader file)
reader-Reads file n start h = refl

length-take_most : (n : ℕ) (s : Text) → length (take n s) ≤ n
length-take_most zero s = omega arith
length-take_most (suc n) [] = omega arith
length-take_most (suc n) (c ∷ s) = omega (arith, length-take_most n s)

reader-ReadsAtMost : (file : Text) → ReadsAtMost (reader file)
reader-ReadsAtMost file n start chunk h = ground (arith, length-take_most n (drop start file))

abbrev three_lines : Text
three_lines = codes "one\ntwo\nthree\n"

abbrev three_lines_file : OpenFile
three_lines_file = record { stat_size = ok 14; read_at = reader three_lines }

last_two : tail_file_lines (ok three_lines_file) (pos 2) ≡ some (ok (codes "two\nthree\n"))
unfolding tail_file_lines split_at
last_two = refl

-- A last line that is empty loses its newline.
last_empty : format_tail (codes "a\n\n") 1 ≡ []
unfolding format_tail split_at
last_empty = refl

no_lines : tail_file_lines (ok three_lines_file) (pos 0) ≡ some (err invalid_lines)
unfolding tail_file_lines
no_lines = refl

read_tail_chunks-IsCapped_example :
    (r : Result LogError Text) × (read_tail_chunks (reader three_lines) 14 2 ≡ some r) × IsCapped r
read_tail_chunks-IsCapped_example =
    read_tail_chunks-IsCapped (reader three_lines) 14 2 (reader-ReadsAtMost three_lines)

tail_file_lines-IsTail_example :
    ReturnsTail 2 (take 14 three_lines) (tail_file_lines (ok three_lines_file) (pos 2))
tail_file_lines-IsTail_example =
    tail_file_lines-IsTail three_lines_file three_lines 14 2 (reader-Reads three_lines) refl
      (omega arith) (omega arith) (omega arith) (omega arith)

-- So many letters.
fill : ℕ → Text
fill zero = []
fill (suc n) = b'a' ∷ fill n

length-fill : (n : ℕ) → length (fill n) ≡ n
unfolding fill
length-fill zero = refl
length-fill (suc n) = omega (arith, length-fill n)

count_newlines-fill : (n : ℕ) → count_newlines (fill n) ≡ 0
unfolding fill count_newlines
count_newlines-fill zero = refl
count_newlines-fill (suc n) = count_newlines-fill n

-- One line that is one chunk, but for its first letter.
abbrev long_end : Text
long_end = fill 65535 ++ 10 ∷ []

length-long_end : length long_end ≡ 65536
length-long_end = omega (arith, length-append (fill 65535) (10 ∷ []), length-fill 65535)

count_newlines-long_end : count_newlines long_end ≡ 1
count_newlines-long_end =
    let last : count_newlines (10 ∷ []) ≡ 1 = unfold count_newlines in refl in
    count-append (fill 65535) (10 ∷ []) ∙ omega (arith, count_newlines-fill 65535, last)

abbrev long_file : OpenFile
long_file = record {
  stat_size = ok (length ([] ++ b'x' ∷ long_end));
  read_at = reader ([] ++ b'x' ∷ long_end);
}

tail_file_lines-cut_example :
    ReturnsCut 1 ([] ++ b'x' ∷ long_end) (tail_file_lines (ok long_file) (pos 1))
tail_file_lines-cut_example =
    tail_file_lines-cut long_file [] long_end b'x' 1 (reader-Reads ([] ++ b'x' ∷ long_end)) refl
      refl length-long_end (ends_with-snoc 10 (fill 65535)) count_newlines-long_end (omega arith)
      (omega arith)

abbrev three_lines_log : OpenLog
three_lines_log = record { stat_info = ok (info_of 7 three_lines); read_at = reader three_lines }

-- The log grows, is appended to and replaced, cut, and removed.
abbrev some_intervals : Intervals
some_intervals =
    (appended (codes "four\n") ∷ [], codes "fi")
    ∷ (appended (codes "lost\n") ∷ replaced_by 8 (codes "new") ∷ appended (codes "\n") ∷ [], [])
    ∷ (cut_to (codes "n") ∷ [], [])
    ∷ (taken_away ∷ [], [])
    ∷ []

abbrev open_three : Text → Result LogError OpenLog
open_three path = ok three_lines_log

three_lines-Opens : Opens open_three (codes "run/app.log") 7 three_lines
three_lines-Opens = record {
  file = three_lines_log;
  opened = refl;
  stat = refl;
  reads = reader-Reads three_lines;
  small = omega arith;
}

follow_log-news_example : FollowsTail 2 three_lines (codes "four\nnew\nn") (
    follow_log
      (ok (codes "run/app.log"))
      open_three
      (ticks_of (some (7, three_lines)) some_intervals)
      (codes "app")
      (pos 2))
follow_log-news_example =
    follow_log-news open_three (codes "run/app.log") (codes "app") three_lines 7 2 some_intervals
      three_lines-Opens (unfold is_log_name in refl) (omega arith) (omega arith) (omega arith)

abbrev leap_day : Clock
leap_day = record {
  year = 2024;
  month = 2;
  day = 29;
  hour = 23;
  minute = 59;
  second = 58;
  nano = 7;
}

leap_day_id : archive_id (codes "app") leap_day ≡ codes "app-20240229T235958.000000007Z.log"
unfolding archive_id pad_onto
leap_day_id = refl

next_day : instant (record leap_day { month = 3; day = 1 }) ≡ instant leap_day + 86400000000000
unfolding instant
next_day = refl

no_such_day : archive_entry (archived (codes "app-20230229T000000.000000000Z.log") []) ≡ none
unfolding archive_entry parse_clock take_number in_range
no_such_day = refl

abbrev quiet : Calls
quiet = record {
  log_path = none;
  lstat_log = none;
  archive_dir = none;
  make_dir = none;
  lstat_target = none;
  rename = Renaming.renamed;
  open_source = none;
  create_target = none;
  copy = none;
  close_target = none;
  close_source = none;
  remove_source = none;
  remove_target = none;
  init_file = none;
}

-- On another device, the copy stops after one byte.
abbrev short_copying : Calls
short_copying = record quiet { rename = Renaming.cross_device; copy = some (1, LogError.io []) }

abbrev app_disk : Disk
app_disk = record {
  log = some (record { kind = FileKind.regular; contents = codes "hi\n" });
  entries = [];
}

archive_log-IsKept_example :
    IsKept
      (record { kind = FileKind.regular; contents = codes "hi\n" })
      (archive_id (codes "app") leap_day)
      app_disk
      (archive_log short_copying (codes "app") leap_day app_disk).0
archive_log-IsKept_example =
    archive_log-IsKept short_copying (codes "app") leap_day b'h' (codes "i\n") FileKind.regular
      app_disk refl

abbrev archived_disk : Disk
archived_disk = record {
  log = none;
  entries = archived (codes "app-20240229T235958.000000007Z.log") (codes "hi\n") ∷ [];
}

app_archived :
    archive_log quiet (codes "app") leap_day app_disk
    ≡ (archived_disk, ok (codes "app-20240229T235958.000000007Z.log"))
unfolding archive_log pad_onto
app_archived = refl

archive_log-IsArchived_example :
    IsArchived
      (codes "app")
      leap_day
      (codes "hi\n")
      archived_disk
      (codes "app-20240229T235958.000000007Z.log")
archive_log-IsArchived_example =
    archive_log-IsArchived quiet (codes "app") leap_day b'h' (codes "i\n")
      (codes "app-20240229T235958.000000007Z.log") FileKind.regular app_disk archived_disk refl
      (omega arith, unfold in_range in refl, omega arith) app_archived

abbrev old_and_new : ArchiveDir
old_and_new = record {
  dir_error = none;
  read_error = none;
  lstat_error = λ _. none;
  remove_error = λ _. none;
  entries =
      archived (codes "app-20240101T000000.000000000Z.log") (codes "old\n")
      ∷ archived (codes "app-20240229T000000.000000000Z.log") (codes "new\n")
      ∷ archived (codes "notes.txt") []
      ∷ [];
}

old_and_new-IsHealthy : IsHealthy old_and_new
old_and_new-IsHealthy = record {
  found = refl;
  readable = refl;
  visible = λ _. refl;
  removable = λ _. refl;
}

old_and_new-Unique : Unique old_and_new.entries
unfolding ◌=ₜ◌
old_and_new-Unique = ((refl, (refl, tt)), ((refl, tt), (tt, tt)))

-- A day's retention.
one_day : (cleanup_archives 86400000000000 leap_day old_and_new).1 ≡ 1
unfolding cleanup_archives parse_clock take_number in_range
one_day = refl

cleanup_archives-is_expired_example :
    cleanup_archives 86400000000000 leap_day old_and_new
    ≡ (record old_and_new { entries = drop 1 old_and_new.entries }, 1, [])
unfolding archive_entry parse_clock take_number in_range instant
cleanup_archives-is_expired_example =
    cleanup_archives-is_expired 86400000000000 leap_day old_and_new old_and_new-IsHealthy
      old_and_new-Unique
