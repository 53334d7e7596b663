-- ===== src/AuditLog/Tail/Cut.antt =====
-- platform/audit/logs.go: where tailFileLines returns a first line that has lost its beginning.
use llamarig.Common.{
  ℕ, suc, ◌+◌, ◌-◌, ◌≤◌, ◌≡◌, sym, ap, ◌∙◌, subst, true, false, Option, some, [], ◌∷◌, ◌++◌,
  append-nil, append_assoc, arith, ◌==◌, ltb, length, take, length-append,
}
use llamarig.Common.Text.{Text}
use llamarig.Common.Results.{Result, ok}
use llamarig.Common.Int.{pos}
use llamarig.AuditLog.{LogError, max_tail_lines}
use llamarig.AuditLog.Tail.{
  newline, chunk_size, count_newlines, ReadAt, Reading, wants_more, chunk_start, add_chunk,
  read_chunks, read_tail_chunks, ends_line, format_tail, OpenFile, tail_data, tail_file_lines,
}
use llamarig.AuditLog.Tail.End.{Reads, drop_front, take_whole}
use llamarig.AuditLog.Tail.Lines.{Loses, format_tail_cut}

abbrev at_end : ℕ → Reading
at_end size = record { end = size; total_bytes = 0; newlines = 0; contents = [] }

-- The first chunk has all the newlines that are wanted.
one_chunk :
    (read_at : ReadAt) (n lines : ℕ) (contents : Text)
    → chunk_size ≤ suc n
    → 1 ≤ lines
    → count_newlines contents ≡ lines
    → read_at chunk_size (suc n - chunk_size) ≡ ok contents
    → read_tail_chunks read_at (suc n) lines ≡ some (ok contents)
unfolding read_tail_chunks
one_chunk read_at n lines contents large some_lines count got =
    let start : chunk_start read_at lines (at_end (suc n)) ≡ suc n - chunk_size = omega arith in
    let width : suc n - (suc n - chunk_size) ≡ chunk_size = omega arith in
    let first : wants_more read_at lines (at_end (suc n)) ≡ true =
      unfold wants_more in ground arith in
    let second : wants_more read_at lines (add_chunk read_at lines (at_end (suc n)) contents)
        ≡ false =
      unfold wants_more in ground (arith, count) in
    rw (read_chunks, first, start, width, got, second)
      (ap (λ (t : Text). some (ok t)) (append-nil contents))

-- The last bytes of a text.
read_end :
    (read_at : ReadAt) (front contents : Text)
    → Reads (front ++ contents) read_at
    → read_at (length contents) (length front) ≡ ok contents
read_end read_at front contents reads =
    reads (length contents) (length front) (omega (arith, length-append front contents))
    ∙ ap (λ (t : Text). ok (take (length contents) t)) (drop_front front contents)
    ∙ ap (λ (t : Text). ok t) (take_whole contents)

-- What is returned is the tail of the log without the beginning of its first line.
abbrev pub ReturnsCut : ℕ → Text → Option (Result LogError Text) → Type 0
ReturnsCut lines log out =
    (text : Text) × (out ≡ some (ok text)) × Loses (format_tail log lines) text

-- A log that is not written to meanwhile ends in a line, its last 64 KiB hold exactly as many
-- newlines as lines are wanted, which are 1 to 5000, and they begin within a line: the last lines
-- of the log are returned without an error, but the first of them without its beginning, which is
-- not empty.
pub tail_file_lines-cut :
    (file : OpenFile) (before contents : Text) (c lines : ℕ)
    → Reads (before ++ c ∷ contents) file.read_at
    → file.stat_size ≡ ok (length (before ++ c ∷ contents))
    → (c == newline) ≡ false
    → length contents ≡ chunk_size
    → ends_line contents ≡ true
    → count_newlines contents ≡ lines
    → 1 ≤ lines
    → lines ≤ max_tail_lines
    → ReturnsCut lines (before ++ c ∷ contents) (tail_file_lines (ok file) (pos lines))
unfolding tail_file_lines
tail_file_lines-cut file before contents c lines reads stat inner one trailing count some_lines
      few =
    let whole = append_assoc before (c ∷ []) contents in
    let place : length (before ++ c ∷ []) ≡ suc (length before + length contents) - chunk_size =
      omega (arith, length-append before (c ∷ []), one) in
    let size : length (before ++ c ∷ contents) ≡ suc (length before + length contents) =
      omega (arith, length-append before (c ∷ contents)) in
    let last =
      read_end file.read_at (before ++ c ∷ []) contents
        (subst (λ (t : Text). Reads t file.read_at) (sym whole) reads) in
    let got =
      one_chunk file.read_at (length before + length contents) lines contents (omega (arith, one))
        some_lines count (rw (one, place) at last) in
    let lower : ltb lines 1 ≡ false = ground arith in
    let upper : ltb max_tail_lines lines ≡ false = ground arith in
    (
      format_tail contents lines,
      rw (tail_file_lines, lower, upper, stat, size) (ap (tail_data lines) got),
      format_tail_cut before contents c lines inner some_lines trailing count,
    )
