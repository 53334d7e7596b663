-- ===== src/AuditLog/Follow/Changes.antt =====
-- What FollowLog writes at one tick, by what came of the log since the last one.
use llamarig.Common.{
  ℕ, ◌+◌, ◌-◌, ◌<◌, ◌≡◌, refl, ap, ◌∙◌, ◌≢◌, true, false, Option, none, some, [], ◌∷◌, ◌++◌,
  append_assoc, arith, ltb, leb, if◌then◌else◌, length, take, drop, length-append,
}
use llamarig.Common.Text.{Text}
use llamarig.Common.Results.{Result, ok, err}
use llamarig.AuditLog.{LogError, not_exist}
use llamarig.AuditLog.Tail.End.{drop_front}
use llamarig.AuditLog.Follow.{
  starts_over, follow_found, follow_copied, FileInfo, Cursor, Seen, copy_from, follow_update,
}

-- The log between two ticks: no file, or the file's inode and what it holds.
abbrev pub LogState : Type 0
LogState = Option (ℕ × Text)

-- What came of the log from one tick to the next.
pub data Change : Type 0 where
  grown : Text → Change
  replaced : ℕ → Text → Change
  truncated : Text → Change
  removed : Change

-- A file that takes the log's place has another inode; one that is cut is shorter than before.
abbrev pub IsPossible : Change → LogState → Type 0
IsPossible (grown more) none = ⊥
IsPossible (grown more) (some _) = Unit
IsPossible (replaced j fresh) none = Unit
IsPossible (replaced j fresh) (some (i, old)) = i ≢ j
IsPossible (truncated fresh) none = ⊥
IsPossible (truncated fresh) (some (i, old)) = length fresh < length old
IsPossible removed s = Unit

abbrev pub after : Change → LogState → LogState
after (grown more) none = none
after (grown more) (some (i, old)) = some (i, old ++ more)
after (replaced j fresh) s = some (j, fresh)
after (truncated fresh) none = none
after (truncated fresh) (some (i, old)) = some (i, fresh)
after removed s = none

-- What was written to the log and not yet shown.
abbrev pub news : Change → Text
news (grown more) = more
news (replaced j fresh) = fresh
news (truncated fresh) = fresh
news removed = []

abbrev pub info_of : ℕ → Text → FileInfo
info_of i contents = record { inode = i; size = length contents }

-- What a tick sees; the log may have grown by `later` when it is opened after it was measured.
abbrev pub seen_of : LogState → Text → Seen
seen_of none later = record { stat = err not_exist; opened = err not_exist }
seen_of (some (i, contents)) later = record {
  stat = ok (info_of i contents);
  opened = ok (contents ++ later);
}

abbrev pub cursor_of : LogState → Cursor
cursor_of none = record { previous = none; offset = 0 }
cursor_of (some (i, contents)) = record {
  previous = some (info_of i contents);
  offset = length contents;
}

take_front : (a b : Text) → take (length a) (a ++ b) ≡ a
take_front [] b = refl
take_front (x ∷ a) b = ap (◌∷◌ x) (take_front a b)

-- The bytes behind the offset, up to the size that was measured.
copy_from-append :
    (old more later : Text) (size : ℕ)
    → size ≡ length old + length more
    → copy_from (ok ((old ++ more) ++ later)) (length old) size ≡ (more, ok tt)
unfolding copy_from
copy_from-append old [] later size h =
    let done : leb size (length old) ≡ true = ground arith in rw done refl
copy_from-append old (x ∷ more) later size h =
    let grew : leb size (length old) ≡ false = ground arith in
    let count : size - length old ≡ length (x ∷ more) = omega arith in
    let rest =
      ap (drop (length old)) (append_assoc old (x ∷ more) later)
      ∙ drop_front old (x ∷ more ++ later) in
    let full : ltb (length (x ∷ more ++ later)) (length (x ∷ more)) ≡ false =
      ground (arith, length-append (x ∷ more) later) in
    rw (grew, rest, count, take_front (x ∷ more) later, full) refl

-- A new file is copied from its beginning.
copy_from_fresh :
    (fresh later : Text) → copy_from (ok (fresh ++ later)) 0 (length fresh) ≡ (fresh, ok tt)
copy_from_fresh fresh later = copy_from-append [] fresh later (length fresh) (omega arith)

found_from :
    (start : ℕ) (info : FileInfo) (opened : Result LogError Text) (c : Cursor) (out : Text)
    → (if starts_over c info then 0 else c.offset) ≡ start
    → copy_from opened start info.size ≡ (out, ok tt)
    → follow_found (ok info) opened c
      ≡ (out, ok (record { previous = some info; offset = info.size }))
found_from start info opened c out from copied =
    ap (λ (k : ℕ). follow_copied info (copy_from opened k info.size)) from
    ∙ ap (follow_copied info) copied

-- One tick writes what is new and moves the cursor behind it.
pub follow_update-news :
    (ch : Change) (s : LogState) (later : Text)
    → IsPossible ch s
    → follow_update (seen_of (after ch s) later) (cursor_of s)
      ≡ (news ch, ok (cursor_of (after ch s)))
unfolding follow_update
follow_update-news (grown more) none later h = absurd h
follow_update-news (grown more) (some (i, old)) later h =
    found_from (length old) (info_of i (old ++ more)) (ok ((old ++ more) ++ later))
      (cursor_of (some (i, old))) more (ground (arith, length-append old more))
      (copy_from-append old more later _ (length-append old more))
follow_update-news (replaced j fresh) none later h =
    found_from 0 (info_of j fresh) (ok (fresh ++ later)) (cursor_of none) fresh refl
      (copy_from_fresh fresh later)
follow_update-news (replaced j fresh) (some (i, old)) later h =
    found_from 0 (info_of j fresh) (ok (fresh ++ later)) (cursor_of (some (i, old))) fresh
      (ground arith) (copy_from_fresh fresh later)
follow_update-news (truncated fresh) none later h = absurd h
follow_update-news (truncated fresh) (some (i, old)) later h =
    found_from 0 (info_of i fresh) (ok (fresh ++ later)) (cursor_of (some (i, old))) fresh
      (ground arith) (copy_from_fresh fresh later)
follow_update-news removed none later h = refl
follow_update-news removed (some _) later h = refl
