-- ===== src/AuditLog/Follow.antt =====
-- Following a log: FollowLog, writeInitialTail, followUpdate, copyFrom. What the file system shows
-- at each tick is an argument; the list of ticks ends where the context is done.
pub mod Changes
pub mod Events
pub mod Delivery
use llamarig.Common.{
  ℕ, ◌-◌, Bool, true, false, ◌||◌, Option, none, some, List, [], ◌∷◌, ◌++◌, ltb, leb, ◌==◌,
  if◌then◌else◌, length, take, drop,
}
use llamarig.Common.Text.{Text}
use llamarig.Common.Results.{Result, ok, err}
use llamarig.Common.Int.{ℤ, pos, negsuc}
use llamarig.AuditLog.{
  LogError, invalid_name, invalid_lines, short_copy, is_not_exist, max_tail_lines, is_log_name,
}
use llamarig.AuditLog.Tail.{ReadAt, format_tail, read_tail_chunks}

-- What is read of an `os.FileInfo`; `os.SameFile` compares the inode.
pub record FileInfo : Type 0 where
  pub inode : ℕ
  pub size : ℕ

-- `previous` and `offset`.
pub record Cursor : Type 0 where
  pub previous : Option FileInfo
  pub offset : ℕ

-- What is written, and how the operation ends.
abbrev pub Written : Type 0 → Type 0
Written A = Text × Result LogError A

-- The file system at a tick: `os.Stat`, and what the file holds that is opened after it.
pub record Seen : Type 0 where
  pub stat : Result LogError FileInfo
  pub opened : Result LogError Text

-- `io.CopyN` of so many bytes.
abbrev copy_n : Text → ℕ → Written (Unit {0})
copy_n rest n = (take n rest, if ltb (length rest) n then err short_copy else ok tt)

unfoldable pub copy_from : Result LogError Text → ℕ → ℕ → Written (Unit {0})
copy_from opened offset size = if leb size offset then ([], ok tt) else elim opened [
  | err e ↦ ([], err e)
  | ok contents ↦ copy_n (drop offset contents) (size - offset)
]

-- `previous == nil || !os.SameFile(previous, info) || info.Size() < offset`.
abbrev pub starts_over : Cursor → FileInfo → Bool
starts_over c info = elim c.previous [
  | none ↦ true
  | some p ↦ if p.inode == info.inode then ltb info.size c.offset else true
]

abbrev pub follow_copied : FileInfo → Written (Unit {0}) → Written Cursor
follow_copied info (out, err e) = (out, err e)
follow_copied info (out, ok _) = (out, ok (record { previous = some info; offset = info.size }))

abbrev pub follow_found : Result LogError FileInfo → Result LogError Text → Cursor → Written Cursor
follow_found (err e) opened c =
    if is_not_exist e then ([], ok (record { previous = none; offset = 0 })) else ([], err e)
follow_found (ok info) opened c =
    follow_copied info (copy_from opened (if starts_over c info then 0 else c.offset) info.size)

unfoldable pub follow_update : Seen → Cursor → Written Cursor
unfolding copy_from
follow_update seen c = follow_found seen.stat seen.opened c

-- What is written from one tick on.
abbrev pub follow_next : (Cursor → Written (Unit {0})) → Written Cursor → Written (Unit {0})
follow_next next (out, err e) = (out, err e)
follow_next next (out, ok c) = let (rest, end) = next c in (out ++ rest, end)

-- The loop of FollowLog.
unfoldable pub follow_ticks : List Seen → Cursor → Written (Unit {0})
unfolding follow_update
follow_ticks [] c = ([], ok tt)
follow_ticks (seen ∷ ticks) c = follow_next (follow_ticks ticks) (follow_update seen c)

-- The log that `os.Open` finds.
pub record OpenLog : Type 0 where
  pub stat_info : Result LogError FileInfo
  pub read_at : ReadAt

abbrev pub initial_data : FileInfo → ℕ → Option (Result LogError Text) → Option (Written Cursor)
initial_data info lines none = none
initial_data info lines (some (err e)) = some ([], err e)
initial_data info lines (some (ok contents)) =
    some (format_tail contents lines, ok (record { previous = some info; offset = info.size }))

abbrev pub initial_open : Result LogError FileInfo → ReadAt → ℕ → Option (Written Cursor)
initial_open (err e) read_at lines = some ([], err e)
initial_open (ok info) read_at lines =
    initial_data info lines (read_tail_chunks read_at info.size lines)

unfoldable pub write_initial_tail : Result LogError OpenLog → ℕ → Option (Written Cursor)
unfolding read_tail_chunks format_tail
write_initial_tail (err e) lines =
    if is_not_exist e
    then some ([], ok (record { previous = none; offset = 0 }))
    else some ([], err e)
write_initial_tail (ok log) lines = initial_open log.stat_info log.read_at lines

abbrev pub follow_from : List Seen → Option (Written Cursor) → Option (Written (Unit {0}))
follow_from ticks none = none
follow_from ticks (some start) = some (follow_next (follow_ticks ticks) start)

abbrev pub follow_path :
    Result LogError Text
    → (Text → Result LogError OpenLog)
    → List Seen
    → ℕ
    → Option (Written (Unit {0}))
follow_path (err e) open_file ticks lines = some ([], err e)
follow_path (ok path) open_file ticks lines =
    follow_from ticks (write_initial_tail (open_file path) lines)

-- `none` is a loop of readTailChunks that does not end.
unfoldable pub follow_log :
    Result LogError Text
    → (Text → Result LogError OpenLog)
    → List Seen
    → Text
    → ℤ
    → Option (Written (Unit {0}))
unfolding write_initial_tail follow_ticks is_log_name
follow_log log_path open_file ticks name (negsuc _) =
    some ([], err (if is_log_name name then invalid_lines else invalid_name))
follow_log log_path open_file ticks name (pos lines) =
    if is_log_name name
    then (if ltb lines 1 || ltb max_tail_lines lines
        then some ([], err invalid_lines)
        else follow_path log_path open_file ticks lines)
    else some ([], err invalid_name)
