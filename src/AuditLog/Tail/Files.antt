-- ===== src/AuditLog/Tail/Files.antt =====
-- The tail that tailFileLines returns of a file, against the last lines of the whole file.
use llamarig.Common.{
  ℕ, ◌≤◌, ◌≡◌, refl, sym, ◌∙◌, ap, subst, append_assoc, ◌==◌, ◌⊎◌, inl, inr, true, false, Option,
  some, [], ◌∷◌, ◌++◌, arith, ltb, ltb→lt, Bool-cases, length, take, length-append,
}
use llamarig.Common.Text.{Text, split}
use llamarig.Common.Results.{Result, ok}
use llamarig.Common.Int.{pos}
use llamarig.AuditLog.{LogError, max_tail_lines, max_tail_read_bytes}
use llamarig.AuditLog.Tail.{
  newline, count_newlines, ends_line, format_tail, OpenFile, tail_data, tail_file_lines,
}
use llamarig.AuditLog.Tail.End.{
  Reads, IsChunks, Suffices, length-take_le, read_tail_chunks-ReadsEnd,
}
use llamarig.AuditLog.Tail.Parts.{length-split, length-drop_last}
use llamarig.AuditLog.Tail.Lines.{
  snoc_view, Loses, length-lines_of, format_tail_part, format_tail_line, format_tail_cut,
}

-- The log's last chunks of 64 KiB, which were all that was read, end a line, hold exactly as many
-- newlines as lines are wanted and begin within a line: the first line has lost its beginning.
abbrev pub IsCut : ℕ → Text → Text → Type 0
IsCut lines file text =
    (before : Text) × (contents : Text) × (before ++ contents ≡ file)
    × IsChunks (length contents)
    × (ends_line contents ≡ true)
    × (count_newlines contents ≡ lines)
    × (text ≡ format_tail contents lines)
    × Loses (format_tail file lines) text

abbrev pub IsTail : ℕ → Text → Text → Type 0
IsTail lines file text = (text ≡ format_tail file lines) ⊎ IsCut lines file text

abbrev pub ReturnsTail : ℕ → Text → Option (Result LogError Text) → Type 0
ReturnsTail lines file out = (text : Text) × (out ≡ some (ok text)) × IsTail lines file text

exact_lines :
    (before contents : Text) (lines : ℕ)
    → 1 ≤ lines
    → IsChunks (length contents)
    → ends_line contents ≡ true
    → count_newlines contents ≡ lines
    → IsTail lines (before ++ contents) (format_tail contents lines)
exact_lines before contents lines some_lines chunks trailing exact = elim (snoc_view before) [
  | inl empty ↦ rw empty (inl refl)
  | inr (b, c, same) ↦
      let whole : before ++ contents ≡ b ++ c ∷ contents =
        ap (λ (t : Text). t ++ contents) same ∙ append_assoc b (c ∷ []) contents in
      elim (Bool-cases (c == newline)) [
        | inl at_end ↦
            let line : c ≡ newline = ground (arith, at_end) in
            inl (
              format_tail_line b contents lines some_lines trailing exact
              ∙ ap (λ (t : Text). format_tail t lines)
                  (ap (λ (k : ℕ). b ++ k ∷ contents) (sym line) ∙ sym whole))
        | inr inner ↦ inr (
          before,
          contents,
          refl,
          chunks,
          trailing,
          exact,
          refl,
          subst (λ t. Loses (format_tail t lines) (format_tail contents lines)) (sym whole)
              (format_tail_cut b contents c lines inner some_lines trailing exact),
        )
      ]
]

enough_lines :
    (before contents : Text) (lines : ℕ)
    → 1 ≤ lines
    → IsChunks (length contents)
    → lines ≤ count_newlines contents
    → IsTail lines (before ++ contents) (format_tail contents lines)
enough_lines before contents lines some_lines chunks enough =
    elim (Bool-cases (ends_line contents)) [
      | inr open_end ↦ inl (
          format_tail_part before contents lines some_lines
            (omega (arith, length-lines_of false contents open_end, length-split contents)))
      | inl trailing ↦ elim (Bool-cases (ltb lines (count_newlines contents))) [
        | inl more ↦ inl (
            format_tail_part before contents lines some_lines (
              omega (
                arith,
                ltb→lt _ _ more,
                length-lines_of true contents trailing,
                length-split contents,
                length-drop_last (split newline contents),
              )))
        | inr exact ↦ exact_lines before contents lines some_lines chunks trailing (ground arith)
      ]
    ]

pub read_IsTail :
    (before contents whole : Text) (lines : ℕ)
    → 1 ≤ lines
    → before ++ contents ≡ whole
    → length whole ≤ max_tail_read_bytes
    → Suffices lines before contents
    → IsTail lines whole (format_tail contents lines)
read_IsTail before contents whole lines some_lines same small (inl first) =
    inl (ap (λ (t : Text). format_tail t lines) (rw first at same))
read_IsTail [] contents whole lines some_lines same small (inr (inl limit)) =
    inl (ap (λ (t : Text). format_tail t lines) same)
read_IsTail (x ∷ before) contents whole lines some_lines same small (inr (inl limit)) =
    absurd (omega (arith, ap (length {A = ℕ}) same, length-append (x ∷ before) contents))
read_IsTail before contents whole lines some_lines same small (inr (inr (enough, chunks))) =
    subst (λ t. IsTail lines t (format_tail contents lines)) same
      (enough_lines before contents lines some_lines chunks enough)

-- Of a log of at most 10 MiB, which may grow while it is read, 1 to 5000 lines are read without an
-- error, and they are the last lines of the whole log as it was when it was opened, but for one
-- case: the last chunks of 64 KiB hold exactly as many newlines as lines are wanted, end a line and
-- begin within one. There they are the lines of these chunks, the first of which has lost a
-- beginning that is not empty.
pub tail_file_lines-IsTail :
    (file : OpenFile) (log : Text) (size lines : ℕ)
    → Reads log file.read_at
    → file.stat_size ≡ ok size
    → size ≤ length log
    → size ≤ max_tail_read_bytes
    → 1 ≤ lines
    → lines ≤ max_tail_lines
    → ReturnsTail lines (take size log) (tail_file_lines (ok file) (pos lines))
unfolding tail_file_lines
tail_file_lines-IsTail file log size lines reads stat inside small some_lines few =
    let (before, contents, got, same, _, why) =
      read_tail_chunks-ReadsEnd file.read_at log size lines reads inside in
    let lower : ltb lines 1 ≡ false = ground arith in
    let upper : ltb max_tail_lines lines ≡ false = ground arith in
    (
      format_tail contents lines,
      rw (tail_file_lines, lower, upper, stat) (ap (tail_data lines) got),
      read_IsTail before contents (take size log) lines some_lines same
          (omega (arith, length-take_le size log inside)) why,
    )
