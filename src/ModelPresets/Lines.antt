-- ===== src/ModelPresets/Lines.antt =====
-- core/modelpresets/store.go: blank lines and line ends, as the loop in `read` takes them.
use llamarig.Common.{
  ℕ, ◌≡◌, refl, sym, ◌∙◌, ap, ◌⊎◌, inl, inr, true, false, ◌&&◌, none, some, List, [], ◌∷◌, ◌++◌,
  append_assoc, append-nil, arith, ◌==◌, Bool-cases, Option-cases, All,
}
use llamarig.Common.Text.{Text, ◌=ₜ◌, is_space, trim_space, trim_right, split_at, split, cut}
use llamarig.Common.TextLaws.{
  split-append, split-snoc, snoc_last, trim_space-snoc, trim_right-split,
}
use llamarig.Common.Results.{Result, ok, ◌>>=◌, Result-cases}
use llamarig.ModelPresets.{Error}
use llamarig.ModelPresets.Ini.{
  newline, is_idle, is_blank, is_mark, strip_comment, Reader, read_pair, read_line, read_trimmed,
  read_lines, start, parse,
}
use llamarig.ModelPresets.Store.{is_eol, written}

pub read_lines-append :
    (a b : List Text) (r : Reader) → read_lines (a ++ b) r ≡ (read_lines a r >>= read_lines b)
unfolding read_lines
read_lines-append [] b r = refl
read_lines-append (l ∷ a) b r = elim (Result-cases (read_line l r)) [
  | inl (r', e) ↦ rw e (read_lines-append a b r')
  | inr (f, e) ↦ rw e
]

-- A blank line or a comment changes nothing.
pub read_line_idle : (l : Text) (r : Reader) → is_idle (trim_space l) ≡ true → read_line l r ≡ ok r
unfolding read_trimmed
read_line_idle l r h = rw h

cut-snoc :
    (c d : ℕ) (s : Text)
    → (d == c) ≡ false
    → cut c (s ++ d ∷ []) ≡ elim (cut c s) [ none ↦ none | some (a, b) ↦ some (a, b ++ d ∷ []) ]
unfolding cut
cut-snoc c d [] h = ground arith
cut-snoc c d (x ∷ s) h = elim (Bool-cases (x == c)) [
  | inl sep ↦ rw sep
  | inr char ↦ elim (Option-cases (cut c s)) [
    | inl absent ↦ rw (char, cut-snoc c d s h, absent)
    | inr ((a, b), found) ↦ rw (char, cut-snoc c d s h, found)
  ]
]

strip_comment-snoc :
    (s : Text)
    → (strip_comment (s ++ b'\r' ∷ []) ≡ strip_comment s)
      ⊎ (strip_comment (s ++ b'\r' ∷ []) ≡ strip_comment s ++ b'\r' ∷ [])
unfolding strip_comment
strip_comment-snoc [] = inr refl
strip_comment-snoc (x ∷ []) = inr (ground arith)
strip_comment-snoc (x ∷ y ∷ s) = elim (Bool-cases (is_blank x && is_mark y)) [
  | inl comment ↦ inl (rw comment)
  | inr char ↦ elim (strip_comment-snoc (y ∷ s)) [
    | inl same ↦ inl (rw char (ap (◌∷◌ x) same))
    | inr more ↦ inr (rw char (ap (◌∷◌ x) more))
  ]
]

-- What is stored for a value, with a carriage return behind it or without.
stored-snoc :
    (s : Text) → trim_space (strip_comment (s ++ b'\r' ∷ [])) ≡ trim_space (strip_comment s)
stored-snoc s = elim (strip_comment-snoc s) [
  | inl same ↦ rw same
  | inr more ↦ rw more (trim_space-snoc (strip_comment s) b'\r' (unfold is_space in refl))
]

read_pair-snoc : (l : Text) (r : Reader) → read_pair (l ++ b'\r' ∷ []) r ≡ read_pair l r
unfolding read_pair
read_pair-snoc l r = elim (Option-cases (cut b'=' l)) [
  | inl absent ↦ rw (
    cut-snoc b'=' b'\r' l refl,
    read_pair,
    absent,
    trim_space-snoc l b'\r' (unfold is_space in refl),
  )
  | inr ((k, v), found) ↦ rw (cut-snoc b'=' b'\r' l refl, read_pair, found, stored-snoc v)
]

-- A carriage return at the end of a line changes nothing.
pub read_line-snoc : (l : Text) (r : Reader) → read_line (l ++ b'\r' ∷ []) r ≡ read_line l r
unfolding read_trimmed
read_line-snoc l r =
    ap (λ t. read_trimmed t (l ++ b'\r' ∷ []) r) (trim_space-snoc l b'\r' (unfold is_space in refl))
    ∙ rw (read_pair-snoc l r)

read_lines-snoc_last :
    (l : Text) (ls : List Text) (r : Reader)
    → read_lines (snoc_last b'\r' l ls) r ≡ read_lines (l ∷ ls) r
unfolding read_lines
read_lines-snoc_last l [] r = rw (read_line-snoc l r)
read_lines-snoc_last l (k ∷ ks) r = elim (Result-cases (read_line l r)) [
  | inl (r', e) ↦ rw e (read_lines-snoc_last k ks r')
  | inr (f, e) ↦ rw e
]

pub empty_line : (r : Reader) → read_lines ([] ∷ []) r ≡ ok r
unfolding read_lines trim_space is_idle ◌=ₜ◌
empty_line r = rw (read_line_idle [] r refl)

-- A line end behind a text changes nothing.
read_newline :
    (s : Text) (r : Reader)
    → read_lines (split newline (s ++ newline ∷ [])) r ≡ read_lines (split newline s) r
unfolding split_at
read_newline s r =
    ap (λ ls. read_lines ls r) (split-append newline s [])
    ∙ read_lines-append (split newline s) ([] ∷ []) r
    ∙ (elim (Result-cases (read_lines (split newline s) r)) [
      | inl (r', e) ↦ rw e (empty_line r')
      | inr (f, e) ↦ rw e
    ])

read_eol :
    (s : Text) (c : ℕ) (r : Reader)
    → is_eol c ≡ true
    → read_lines (split newline (s ++ c ∷ [])) r ≡ read_lines (split newline s) r
read_eol s c r h = elim (Bool-cases (c == b'\r')) [
  | inl cr ↦
      let e : c ≡ b'\r' = ground arith in
      rw e (
        ap (λ ls. read_lines ls r) (split-snoc newline b'\r' s refl)
        ∙ read_lines-snoc_last (split_at newline s).0 (split_at newline s).1 r)
  | inr nl ↦ let e : c ≡ newline = ground arith in rw e (read_newline s r)
]

read_eols :
    (e s : Text) (r : Reader)
    → All (λ c. is_eol c ≡ true) e
    → read_lines (split newline (s ++ e)) r ≡ read_lines (split newline s) r
read_eols [] s r h = ap (λ t. read_lines (split newline t) r) (append-nil s)
read_eols (c ∷ e) s r (h, t) =
    ap (λ u. read_lines (split newline u) r) (sym (append_assoc s (c ∷ []) e))
    ∙ read_eols e (s ++ c ∷ []) r t
    ∙ read_eol s c r h

-- `strings.TrimRight(s, "\r\n")` changes nothing that is read.
pub read-trim_right :
    (s : Text) (r : Reader)
    → read_lines (split newline (trim_right is_eol s)) r ≡ read_lines (split newline s) r
read-trim_right s r =
    let (e, same, eols) = trim_right-split is_eol s in
    sym (read_eols e (trim_right is_eol s) r eols)
    ∙ ap (λ t. read_lines (split newline t) r) (sym same)

-- What `write` makes of a text has the sections of the text.
pub parse-written : (s : Text) → parse (written s) ≡ parse s
unfolding written parse
parse-written s =
    ap (λ (x : Result Error Reader). x >>= λ r. ok r.sections)
      (read_newline (trim_right is_eol s) start ∙ read-trim_right s start)
