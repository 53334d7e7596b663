-- ===== src/AuditLog.antt =====
-- Log files and their archives (platform/audit/logs.go): what the operations share, which is the
-- errors, the limits and the check of a log's name.
mod Tests
pub mod Tail
pub mod Follow
pub mod Clock
pub mod Archive
use llamarig.Common.{ℕ, ◌*◌, Bool, true, false, ◌&&◌, ◌||◌, not, [], ◌∷◌, ◌==◌, leb, any}
use llamarig.Common.Text.{Text}

-- What an operation fails with; `io` is any other error of the file system.
pub data LogError : Type 0 where
  invalid_name invalid_lines invalid_archive not_exist not_regular already_exists short_copy :
      LogError
  io : Text → LogError

-- `os.IsNotExist` and `errors.Is(err, os.ErrNotExist)`.
abbrev pub is_not_exist : LogError → Bool
is_not_exist LogError.not_exist = true
is_not_exist _ = false

abbrev pub max_tail_lines : ℕ
max_tail_lines = 5000

abbrev pub max_tail_read_bytes : ℕ
max_tail_read_bytes = 10 * 1024 * 1024

-- `[A-Za-z0-9_-]`.
unfoldable pub is_name_char : ℕ → Bool
is_name_char c =
    (leb b'A' c && leb c b'Z')
    || (leb b'a' c && leb c b'z')
    || (leb b'0' c && leb c b'9')
    || c == b'_'
    || c == b'-'

-- `^[A-Za-z0-9_-]+$`.
unfoldable pub is_log_name : Text → Bool
unfolding is_name_char
is_log_name [] = false
is_log_name (c ∷ s) = not (any (λ x. not (is_name_char x)) (c ∷ s))
