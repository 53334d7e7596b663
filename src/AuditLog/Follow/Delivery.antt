-- ===== src/AuditLog/Follow/Delivery.antt =====
-- FollowLog as a whole: the tail, and then what comes to the log.
use llamarig.Common.{ℕ, ◌≤◌, ◌≡◌, ap, ◌∙◌, true, false, Option, some, ◌++◌, arith, ltb, length}
use llamarig.Common.Text.{Text}
use llamarig.Common.Results.{Result, ok}
use llamarig.Common.Int.{pos}
use llamarig.AuditLog.{LogError, max_tail_lines, max_tail_read_bytes, is_log_name}
use llamarig.AuditLog.Tail.{format_tail}
use llamarig.AuditLog.Tail.End.{Reads, take_whole, read_tail_chunks-ReadsEnd}
use llamarig.AuditLog.Tail.Files.{IsTail, read_IsTail}
use llamarig.AuditLog.Follow.{follow_from, initial_data, Written, OpenLog, follow_log}
use llamarig.AuditLog.Follow.Changes.{info_of}
use llamarig.AuditLog.Follow.Events.{Intervals, IsHistory, ticks_of, all_news, follow_ticks-news}

-- The log that FollowLog opens, and what it reads of it.
pub record Opens (open_file : Text → Result LogError OpenLog) (path : Text) (i : ℕ) (log : Text)
    : Type 0 where
  pub file : OpenLog
  pub opened : open_file path ≡ ok file
  pub stat : file.stat_info ≡ ok (info_of i log)
  pub reads : Reads log file.read_at
  pub small : length log ≤ max_tail_read_bytes

abbrev pub FollowsTail : ℕ → Text → Text → Option (Written (Unit {0})) → Type 0
FollowsTail lines log new out =
    (text : Text) × (out ≡ some (text ++ new, ok tt)) × IsTail lines log text

-- Following a log of at most 10 MiB by a valid name, with 1 to 5000 lines, writes its tail, as
-- tail_file_lines-IsTail has it, and at each tick, without an error, exactly the bytes of the
-- present file that were not written before, until the context is done. Between two ticks the file
-- may be appended to, replaced, cut or removed, any number of times and in any order: what was
-- appended to a file that was then replaced, cut or removed before the tick is not written. A file
-- in the log's place must have another inode than the one of the last tick, and a file that was
-- cut must be shorter at the tick than it was at the last one.
pub follow_log-news :
    (open_file : Text → Result LogError OpenLog) (path name log : Text) (i lines : ℕ)
    (intervals : Intervals)
    → Opens open_file path i log
    → is_log_name name ≡ true
    → 1 ≤ lines
    → lines ≤ max_tail_lines
    → IsHistory (some (i, log)) intervals
    → FollowsTail lines log
        (all_news intervals)
        (follow_log (ok path) open_file (ticks_of (some (i, log)) intervals) name (pos lines))
unfolding follow_log
follow_log-news open_file path name log i lines intervals o valid some_lines few h =
    let (before, contents, got, same, size, why) =
      read_tail_chunks-ReadsEnd o.file.read_at log (length log) lines o.reads (omega arith) in
    let lower : ltb lines 1 ≡ false = ground arith in
    let upper : ltb max_tail_lines lines ≡ false = ground arith in
    let info = info_of i log in
    let ticks = ticks_of (some (i, log)) intervals in
    (
      format_tail contents lines,
      rw (valid, lower, upper, o.opened, o.stat)
          (ap (λ t. follow_from ticks (initial_data info lines t)) got
            ∙ ap (λ (w : Written (Unit {0})). some (format_tail contents lines ++ w.0, w.1))
                (follow_ticks-news (some (i, log)) intervals h)),
      read_IsTail before contents log lines some_lines (same ∙ take_whole log) o.small why,
    )
