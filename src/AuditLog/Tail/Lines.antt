-- ===== src/AuditLog/Tail/Lines.antt =====
-- Which lines formatTail keeps, and how they depend on where the data begins.
use llamarig.Common.{
  ℕ, ◌≤◌, ◌<◌, ◌≡◌, refl, sym, ap, ◌∙◌, subst, ◌⊎◌, inl, inr, Bool, true, false, List, [], ◌∷◌,
  ◌++◌, append_assoc, append-nil, arith, ◌==◌, Bool-cases, length, length-append, All,
}
use llamarig.Common.Text.{Text, split_at, split, join, ends_with}
use llamarig.Common.TextLaws.{
  Free, Free-front, split-append, split-join, split-Free, ends_with-snoc,
}
use llamarig.AuditLog.Tail.{
  newline, count_newlines, drop_last, last_parts, ends_line, lines_of, close_line, kept_parts,
  format_tail,
}
use llamarig.AuditLog.Tail.Parts.{
  split-Extends, length-split, ends_line-append, length-drop_last, last_parts-append,
  drop_last_trailing, drop_last-append, kept_exact,
}

-- formatTail by the two things that it reads of the data.
format_tail_by :
    (trailing : Bool) (parts : List Text) (contents : Text) (lines : ℕ)
    → ends_line contents ≡ trailing
    → split newline contents ≡ parts
    → format_tail contents lines
      ≡ close_line trailing (join newline (last_parts lines (kept_parts trailing parts)))
unfolding format_tail
format_tail_by trailing parts contents lines e p =
    ap
      (λ (t : Bool).
        close_line t (join newline (last_parts lines (kept_parts t (split newline contents)))))
      e
    ∙ ap
        (λ (ps : List Text).
          close_line trailing (join newline (last_parts lines (kept_parts trailing ps))))
        p

pub length-lines_of :
    (trailing : Bool) (contents : Text)
    → ends_line contents ≡ trailing
    → length (lines_of contents) ≡ length (kept_parts trailing (split newline contents))
length-lines_of trailing contents e =
    ap (λ (t : Bool). length (kept_parts t (split newline contents))) e

-- A part with more lines than are wanted gives what the whole gives.
pub format_tail_part :
    (before contents : Text) (lines : ℕ)
    → 1 ≤ lines
    → lines < length (lines_of contents)
    → format_tail contents lines ≡ format_tail (before ++ contents) lines
format_tail_part before [] lines some_lines h = absurd (unfold split_at ends_with in omega arith)
format_tail_part before (c ∷ s) lines some_lines h =
    let (front, part, same) = split-Extends newline before (c ∷ s) in
    let m = (split_at newline (c ∷ s)).0 in
    let rest = (split_at newline (c ∷ s)).1 in
    let more = ends_line-append before c s in
    elim (Bool-cases (ends_line (c ∷ s))) [
      | inr open_end ↦
          let inside : lines ≤ length rest =
            omega (arith, length-lines_of false (c ∷ s) open_end) in
          format_tail_by false (m ∷ rest) (c ∷ s) lines open_end refl
          ∙ ap (λ (t : List Text). close_line false (join newline t))
              (sym (last_parts-append lines front (part ++ m) m rest inside))
          ∙ sym (format_tail_by false _ (before ++ c ∷ s) lines (more ∙ open_end) same)
      | inl trailing ↦
          let inside : lines < length rest =
            omega (arith, length-lines_of true (c ∷ s) trailing, length-drop_last (m ∷ rest)) in
          format_tail_by true (m ∷ rest) (c ∷ s) lines trailing refl
          ∙ ap (λ (t : List Text). close_line true (join newline t))
              (sym (drop_last_trailing lines front (part ++ m) m rest inside))
          ∙ sym (format_tail_by true _ (before ++ c ∷ s) lines (more ∙ trailing) same)
    ]

join_head :
    (l m : Text) (rest : List Text) → join newline ((l ++ m) ∷ rest) ≡ l ++ join newline (m ∷ rest)
unfolding join
join_head l m [] = refl
join_head l m (k ∷ rest) = append_assoc l m (newline ∷ join newline (k ∷ rest))

pub snoc_view : (s : Text) → (s ≡ []) ⊎ ((b : Text) × (c : ℕ) × (s ≡ b ++ c ∷ []))
snoc_view [] = inl refl
snoc_view (x ∷ s) = elim (snoc_view s) [
  | inl empty ↦ inr ([], x, ap (◌∷◌ x) empty)
  | inr (b, c, same) ↦ inr (x ∷ b, c, ap (◌∷◌ x) same)
]

-- `text` is `whole` without the beginning of its first line; what is lost is not empty and holds no
-- newline.
abbrev pub Loses : Text → Text → Type 0
Loses whole text =
    (lost : Text) × (body : Text) × (whole ≡ close_line true (lost ++ body))
    × (text ≡ close_line true body)
    × (0 < length lost)
    × Free newline lost

-- Data that ends a line and holds exactly as many newlines as lines are wanted, behind a line: the
-- result is that of the whole.
pub format_tail_line :
    (before contents : Text) (lines : ℕ)
    → 1 ≤ lines
    → ends_line contents ≡ true
    → count_newlines contents ≡ lines
    → format_tail contents lines ≡ format_tail (before ++ newline ∷ contents) lines
format_tail_line before [] lines some_lines trailing count =
    absurd (unfold count_newlines in omega arith)
format_tail_line before (d ∷ s) lines some_lines trailing count =
    let m = (split_at newline (d ∷ s)).0 in
    let rest = (split_at newline (d ∷ s)).1 in
    let size : length rest ≡ lines = omega (arith, length-split (d ∷ s)) in
    format_tail_by true (m ∷ rest) (d ∷ s) lines trailing refl
    ∙ ap (λ (t : List Text). close_line true (join newline t))
        (kept_exact lines [] m rest some_lines size
          ∙ sym (kept_exact lines (split newline before) m rest some_lines size))
    ∙ sym (
        format_tail_by true _ (before ++ newline ∷ d ∷ s) lines
          (ends_line-append before newline (d ∷ s) ∙ ends_line-append (newline ∷ []) d s ∙ trailing)
          (split-append newline before (d ∷ s)))

All-at :
    (front : List Text) (l : Text) (rest : List Text)
    → All (Free newline) (front ++ l ∷ rest)
    → Free newline l
All-at [] l rest h = h.0
All-at (k ∷ front) l rest h = All-at front l rest h.1

-- Data that ends a line, holds exactly as many newlines as lines are wanted and begins within a
-- line: the first line of the result has lost its beginning.
pub format_tail_cut :
    (before contents : Text) (c lines : ℕ)
    → (c == newline) ≡ false
    → 1 ≤ lines
    → ends_line contents ≡ true
    → count_newlines contents ≡ lines
    → Loses (format_tail (before ++ c ∷ contents) lines) (format_tail contents lines)
format_tail_cut before [] c lines inner some_lines trailing count =
    absurd (unfold count_newlines in omega arith)
format_tail_cut before (d ∷ s) c lines inner some_lines trailing count =
    let (front, part, same) = split-Extends newline before (c ∷ d ∷ s) in
    let m = (split_at newline (d ∷ s)).0 in
    let rest = (split_at newline (d ∷ s)).1 in
    let size : length rest ≡ lines = omega (arith, length-split (d ∷ s)) in
    let whole_ends = ends_line-append before c (d ∷ s) ∙ ends_line-append (c ∷ []) d s ∙ trailing in
    let split_first : split_at newline (c ∷ d ∷ s) ≡ (c ∷ m, rest) = unfold split_at in rw inner in
    let parts = same ∙ ap (λ (t : Text × List Text). front ++ (part ++ t.0) ∷ t.1) split_first in
    let free = subst (All (Free newline)) parts (split-Free newline (before ++ c ∷ d ∷ s)) in
    let cut_line =
      subst (Free newline) (sym (append_assoc part (c ∷ []) m))
        (All-at front (part ++ c ∷ m) rest free) in
    let short =
      format_tail_by true (m ∷ rest) (d ∷ s) lines trailing refl
      ∙ ap (λ (t : List Text). close_line true (join newline t))
          (kept_exact lines [] m rest some_lines size) in
    let long =
      format_tail_by true _ (before ++ c ∷ d ∷ s) lines whole_ends parts
      ∙ ap (λ (t : List Text). close_line true (join newline t))
          (kept_exact lines front (part ++ c ∷ m) rest some_lines size)
      ∙ ap (λ (t : Text). close_line true (join newline (t ∷ drop_last rest)))
          (sym (append_assoc part (c ∷ []) m))
      ∙ ap (close_line true) (join_head (part ++ c ∷ []) m (drop_last rest)) in
    (
      part ++ c ∷ [],
      join newline (m ∷ drop_last rest),
      long,
      short,
      omega (arith, length-append part (c ∷ [])),
      Free-front newline (part ++ c ∷ []) m cut_line,
    )

drop_last_end : (ls : List Text) → drop_last (ls ++ split newline []) ≡ ls
unfolding split_at
drop_last_end ls = drop_last-append ls [] [] ∙ append-nil ls

-- Of lines that each end in a newline, formatTail keeps the last ones.
pub format_tail-join :
    (l : Text) (ls : List Text) (lines : ℕ)
    → All (Free newline) (l ∷ ls)
    → format_tail (join newline (l ∷ ls) ++ newline ∷ []) lines
      ≡ close_line true (join newline (last_parts lines (l ∷ ls)))
format_tail-join l ls lines free =
    let parts = split-append newline (join newline (l ∷ ls)) [] in
    format_tail_by true _ (join newline (l ∷ ls) ++ newline ∷ []) lines
      (ends_with-snoc newline (join newline (l ∷ ls)))
      (parts ∙ ap (λ (t : List Text). t ++ split newline []) (split-join newline l ls free))
    ∙ ap (λ (t : List Text). close_line true (join newline (last_parts lines t)))
        (drop_last_end (l ∷ ls))
