-- ===== src/ModelPresets/Rendered.antt =====
-- What `read` makes of the lines that `renderSection` writes.
use llamarig.Common.{
  ℕ, ◌≡◌, refl, sym, ◌∙◌, ap, true, false, none, some, List, [], ◌∷◌, ◌++◌, append_assoc, arith,
}
use llamarig.Common.Text.{Text, codes, ◌=ₜ◌, =ₜ_refl, trim_space, starts_with, is_space, cut}
use llamarig.Common.TextLaws.{
  Free, Free-append, cut-append, ends_with-snoc, trim_space_head, trim_space-snoc,
  trim_right-append, drop_while_stop,
}
use llamarig.Common.Dict.{Dict, lookup, insert, lookup-adjust}
use llamarig.Common.Results.{ok}
use llamarig.ModelPresets.{
  Sections, key_start, key_char, key_rest, key_pattern, validate_section_name,
}
use llamarig.ModelPresets.Keys.{IsKey, trim_space-key, canonical_key-IsKey}
use llamarig.ModelPresets.Ini.{
  newline, is_idle, strip_comment, Reader, put_value, set_value, read_trimmed, read_pair, read_line,
  read_lines, inner, drop_last, is_header, header_name, pair_line,
}
use llamarig.ModelPresets.Effects.{header, effect_header, opened}
use llamarig.ModelPresets.Reading.{read_lines_do, read_nothing, step_do, apply_fresh}

-- What is read back for a value.
unfoldable pub stored : Text → Text
stored v = trim_space (strip_comment (b' ' ∷ v))

key_start-solid : (c : ℕ) → key_start c ≡ true → (is_space c ≡ false) × (key_char c ≡ true)
unfolding is_space
key_start-solid c h = ground arith

key_rest-Free : (n : ℕ) (s : Text) → key_char n ≡ false → key_rest s ≡ true → Free n s
unfolding key_rest
key_rest-Free n [] b h = refl
key_rest-Free n (c ∷ s) b h = ground (arith, key_rest-Free n s b)

key-Free : (n : ℕ) (k : Text) → key_char n ≡ false → key_pattern k ≡ true → Free n k
unfolding key_pattern
key-Free n [] b h = refl
key-Free n (c ∷ s) b h = ground (arith, key_rest-Free n s b)

key_start_busy : (c : ℕ) (t : Text) → key_start c ≡ true → is_idle (c ∷ t) ≡ false
unfolding is_idle ◌=ₜ◌ starts_with
key_start_busy c t h = ground arith

key_start_plain : (c : ℕ) (t : Text) → key_start c ≡ true → starts_with b'[' (c ∷ t) ≡ false
unfolding starts_with
key_start_plain c t h = ground arith

read_trimmed_key :
    (c : ℕ) (t l : Text) (r : Reader)
    → key_start c ≡ true
    → (r.current =ₜ []) ≡ false
    → read_trimmed (c ∷ t) l r ≡ read_pair l r
unfolding read_trimmed
read_trimmed_key c t l r h within = rw (key_start_busy c t h, key_start_plain c t h, within)

cut-pair_line :
    (k v : Text)
    → key_pattern k ≡ true
    → cut b'=' (pair_line (k, v)) ≡ some (k ++ b' ' ∷ [], b' ' ∷ v)
cut-pair_line k v h =
    ap (cut b'=') (sym (append_assoc k (b' ' ∷ []) (b'=' ∷ b' ' ∷ v)))
    ∙ cut-append b'=' (k ++ b' ' ∷ []) (b' ' ∷ v)
        (Free-append b'=' k (b' ' ∷ []) (key-Free b'=' k refl h) refl)

read_pair-pair_line :
    (k v : Text) (r : Reader)
    → IsKey k
    → read_pair (pair_line (k, v)) r ≡ ok (set_value k (stored v) r)
unfolding read_pair stored
read_pair-pair_line k v r h = rw (
  cut-pair_line k v h.matches,
  read_pair,
  trim_space-snoc k b' ' (unfold is_space in refl),
  trim_space-key k h.matches,
  canonical_key-IsKey k h,
)

key_pattern_nil : key_pattern [] ≡ true → ⊥
unfolding key_pattern
key_pattern_nil h = cc

key_pattern_head : (c : ℕ) (k : Text) → key_pattern (c ∷ k) ≡ true → key_start c ≡ true
unfolding key_pattern
key_pattern_head c k h = ground arith

-- An entry that is written is read back, with its value as `read` keeps it.
read_line-pair_line :
    (k v : Text) (r : Reader)
    → IsKey k
    → (r.current =ₜ []) ≡ false
    → read_line (pair_line (k, v)) r ≡ ok (set_value k (stored v) r)
read_line-pair_line [] v r h within = absurd (key_pattern_nil h.matches)
read_line-pair_line (c ∷ k) v r h within =
    let starts = key_pattern_head c k h.matches in
    let (t, trimmed) = trim_space_head c (k ++ (codes " = " ++ v)) (key_start-solid c starts).0 in
    ap (λ u. read_trimmed u (pair_line (c ∷ k, v)) r) trimmed
    ∙ read_trimmed_key c t (pair_line (c ∷ k, v)) r starts within
    ∙ read_pair-pair_line (c ∷ k) v r h

-- The line of a header.
abbrev pub header_line : Text → Text
header_line name = b'[' ∷ (name ++ b']' ∷ [])

drop_last-snoc : (s : Text) (c : ℕ) → drop_last (s ++ c ∷ []) ≡ s
unfolding drop_last
drop_last-snoc [] c = refl
drop_last-snoc (x ∷ []) c = refl
drop_last-snoc (x ∷ y ∷ s) c = ap (◌∷◌ x) (drop_last-snoc (y ∷ s) c)

pub trim_space-header_line : (name : Text) → trim_space (header_line name) ≡ header_line name
unfolding trim_space
trim_space-header_line name =
    rw (drop_while_stop is_space b'[' (name ++ b']' ∷ []) (unfold is_space in refl))
      (trim_right-append is_space (b'[' ∷ name) b']' (unfold is_space in refl))

pub inner-header_line : (name : Text) → inner (header_line name) ≡ name
unfolding inner
inner-header_line name = drop_last-snoc name b']'

pub is_header-header_line : (name : Text) → is_header (header_line name) ≡ true
unfolding is_header starts_with
is_header-header_line name = rw (trim_space-header_line name) (ends_with-snoc b']' (b'[' ∷ name))

header_name-header_line :
    (name : Text) → trim_space name ≡ name → header_name (header_line name) ≡ name
header_name-header_line name tight =
    ap (λ t. trim_space (inner t)) (trim_space-header_line name)
    ∙ ap trim_space (inner-header_line name)
    ∙ tight

-- A header that is written opens its section, where no section of that name is known.
pub read_line-header_line :
    (name : Text) (r : Reader)
    → trim_space name ≡ name
    → validate_section_name name ≡ ok tt
    → lookup name r.sections ≡ none
    → read_line (header_line name) r ≡ ok (opened name r)
read_line-header_line name r tight valid fresh =
    step_do (header_line name) r (opened name r) (header name)
      (effect_header (header_line name) (r.current =ₜ []) (is_header-header_line name)
        ∙ rw (header_name-header_line name tight, valid))
      (apply_fresh name r fresh)

-- The entries of a section, read one after the other.
abbrev pub fill : Dict Text → Dict Text → Dict Text
fill [] acc = acc
fill ((k, v) ∷ d) acc = fill d (insert k (stored v) acc)

abbrev pub AllKeys : Dict Text → Type 0
AllKeys [] = Unit {0}
AllKeys ((k, v) ∷ d) = IsKey k × Free newline v × AllKeys d

abbrev pub pair_lines : Dict Text → List Text
pair_lines [] = []
pair_lines (e ∷ d) = pair_line e ∷ pair_lines d

-- A section is open with some values, and the others are as in `base`.
pub record Holds (name : Text) (vs : Dict Text) (base : Sections) (r : Reader) : Type 0 where
  pub open_now : r.current ≡ name
  pub here : lookup name r.sections ≡ some (record { name = name; values = vs })
  pub others : (k : Text) → (name =ₜ k) ≡ false → lookup k r.sections ≡ lookup k base

set_value-Holds :
    (name k v : Text) (vs : Dict Text) (base : Sections) (r : Reader)
    → Holds name vs base r
    → Holds name (insert k v vs) base (set_value k v r)
unfolding set_value
set_value-Holds name k v vs base r h = record {
  open_now = h.open_now;
  here =
      rw (h.open_now)
        (ground (arith, lookup-adjust name name (put_value k v) r.sections, =ₜ_refl name, h.here));
  others = λ j ne.
      rw (h.open_now)
        (ground (arith, lookup-adjust name j (put_value k v) r.sections, h.others j ne));
}

pub read_pair_lines :
    (name : Text) (d vs : Dict Text) (base : Sections) (r : Reader)
    → (name =ₜ []) ≡ false
    → AllKeys d
    → Holds name vs base r
    → (s : Reader) × (read_lines (pair_lines d) r ≡ ok s) × Holds name (fill d vs) base s
read_pair_lines name [] vs base r full keys h = (r, read_nothing r, h)
read_pair_lines name ((k, v) ∷ d) vs base r full (key, free, keys) h =
    let one = read_line-pair_line k v r key (rw (h.open_now) full) in
    let h' = set_value-Holds name k (stored v) vs base r h in
    let (s, read, done) =
      read_pair_lines name d (insert k (stored v) vs) base (set_value k (stored v) r) full keys
        h' in
    (
      s,
      read_lines_do (pair_line (k, v)) (pair_lines d) r (set_value k (stored v) r) s one read,
      done,
    )

-- An entry is one line.
pub pair_line-Free : (k v : Text) → IsKey k → Free newline v → Free newline (pair_line (k, v))
pair_line-Free k v key free =
    Free-append newline k (codes " = " ++ v) (key-Free newline k refl key.matches) free
