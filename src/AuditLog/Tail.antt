-- ===== src/AuditLog/Tail.antt =====
-- The last lines of a log: TailLogLines, TailArchive, tailFileLines, readTailChunks, formatTail.
pub mod Chunks
pub mod End
mod Parts
pub mod Lines
pub mod Files
pub mod Cut
use llamarig.Common.{
  ℕ, zero, suc, ◌+◌, ◌-◌, ◌*◌, min, Bool, true, false, ◌&&◌, ◌||◌, Option, none, some, List, [],
  ◌∷◌, ◌++◌, ltb, leb, ◌==◌, if◌then◌else◌, length, take, drop,
}
use llamarig.Common.Text.{Text, split, join, ends_with}
use llamarig.Common.Results.{Result, ok, err}
use llamarig.Common.Int.{ℤ, pos, negsuc}
use llamarig.AuditLog.{
  LogError, invalid_name, invalid_lines, is_not_exist, max_tail_lines, max_tail_read_bytes,
  is_log_name,
}

abbrev pub newline : ℕ
newline = 10

abbrev pub chunk_size : ℕ
chunk_size = 64 * 1024

-- `bytes.Count(chunk, "\n")`.
unfoldable pub count_newlines : Text → ℕ
count_newlines [] = 0
count_newlines (c ∷ s) = if c == newline then suc (count_newlines s) else count_newlines s

-- `file.ReadAt` of so many bytes from a place; at the end of the file it returns fewer.
abbrev pub ReadAt : Type 0
ReadAt = ℕ → ℕ → Result LogError Text

-- The variables of the loop. `data` is what the chunks read so far hold, in the file's order.
pub record Reading : Type 0 where
  pub end : ℕ
  pub total_bytes : ℕ
  pub newlines : ℕ
  pub contents : Text

module _ (read_at : ReadAt) (lines : ℕ) where
  -- The loop's condition.
  unfoldable pub wants_more : Reading → Bool
  wants_more r = ltb 0 r.end && ltb r.total_bytes max_tail_read_bytes && ltb r.newlines lines

  abbrev pub chunk_start : Reading → ℕ
  chunk_start r = r.end - min chunk_size (max_tail_read_bytes - r.total_bytes)

  -- One round's chunk stands before those read so far.
  abbrev pub add_chunk : Reading → Text → Reading
  add_chunk r chunk = record {
    end = chunk_start r;
    total_bytes = r.total_bytes + length chunk;
    newlines = r.newlines + count_newlines chunk;
    contents = chunk ++ r.contents;
  }

  -- The loop on fuel: `none` where it runs out.
  unfoldable pub read_chunks : ℕ → Reading → Option (Result LogError Text)
  unfolding wants_more
  read_chunks zero r = none
  read_chunks (suc fuel) r = elim (wants_more r) [
    | false ↦ some (ok r.contents)
    | true ↦ elim (read_at (r.end - chunk_start r) (chunk_start r)) [
      | err e ↦ some (err e)
      | ok chunk ↦ read_chunks fuel (add_chunk r chunk)
    ]
  ]

-- Every round lowers `end`, so that one round more than the file's size is enough.
unfoldable pub read_tail_chunks : ReadAt → ℕ → ℕ → Option (Result LogError Text)
unfolding read_chunks
read_tail_chunks read_at size lines =
    read_chunks read_at lines (suc size)
      (record { end = size; total_bytes = 0; newlines = 0; contents = [] })

-- `parts[:len(parts)-1]`.
abbrev pub drop_last : List Text → List Text
drop_last parts = take (length parts - 1) parts

-- `parts[len(parts)-lines:]` where there are more.
abbrev pub last_parts : ℕ → List Text → List Text
last_parts lines parts = drop (length parts - lines) parts

abbrev pub ends_line : Text → Bool
ends_line s = ends_with newline s

abbrev pub kept_parts : Bool → List Text → List Text
kept_parts trailing parts = if trailing then drop_last parts else parts

abbrev pub lines_of : Text → List Text
lines_of s = kept_parts (ends_line s) (split newline s)

-- The newline that the join leaves out at the end.
abbrev pub close_line : Bool → Text → Text
close_line trailing [] = []
close_line trailing (c ∷ s) = if trailing then (c ∷ s) ++ newline ∷ [] else c ∷ s

unfoldable pub format_tail : Text → ℕ → Text
unfolding ends_with join
format_tail contents lines =
    close_line (ends_line contents) (join newline (last_parts lines (lines_of contents)))

-- An open file: what `file.Stat` says of its size, and `file.ReadAt`.
pub record OpenFile : Type 0 where
  pub stat_size : Result LogError ℕ
  pub read_at : ReadAt

-- What is written of the data that was read.
abbrev pub tail_data : ℕ → Option (Result LogError Text) → Option (Result LogError Text)
tail_data lines none = none
tail_data lines (some (err e)) = some (err e)
tail_data lines (some (ok contents)) = some (ok (format_tail contents lines))

abbrev pub tail_open : Result LogError ℕ → ReadAt → ℕ → Option (Result LogError Text)
tail_open (err e) read_at lines = some (err e)
tail_open (ok size) read_at lines = tail_data lines (read_tail_chunks read_at size lines)

-- `tailFileLines`, with what `os.Open` returns; `none` is a loop that does not end.
unfoldable pub tail_file_lines : Result LogError OpenFile → ℤ → Option (Result LogError Text)
unfolding read_tail_chunks format_tail
tail_file_lines opened (negsuc _) = some (err invalid_lines)
tail_file_lines opened (pos lines) =
    if ltb lines 1 || ltb max_tail_lines lines then some (err invalid_lines) else elim opened [
      | err e ↦ if is_not_exist e then some (ok []) else some (err e)
      | ok file ↦ tail_open file.stat_size file.read_at lines
    ]

-- `TailLogLines`, with what `GetLogPath` returns and the files that `os.Open` finds.
unfoldable pub tail_log_lines :
    Result LogError Text
    → (Text → Result LogError OpenFile)
    → Text
    → ℤ
    → Option (Result LogError Text)
unfolding tail_file_lines is_log_name
tail_log_lines log_path open_file name lines =
    if is_log_name name
    then elim log_path [ err e ↦ some (err e) | ok path ↦ tail_file_lines (open_file path) lines ]
    else some (err invalid_name)
