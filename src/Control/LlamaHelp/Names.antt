-- ===== src/Control/LlamaHelp/Names.antt =====
-- core/control/llama_help.go: what the keys of the parsed flags look like.
use llamarig.Common.{
  ℕ, ◌<◌, ◌≡◌, refl, subst, inl, inr, Bool, true, false, not, Option, none, some, List, [], ◌∷◌,
  ◌++◌, arith, ◌==◌, if◌then◌else◌, length, take, drop, ltb, ◌-◌, All, Bool-cases, Option-cases,
}
use llamarig.Common.Text.{
  Text, codes, starts_with, after_prefix, drop_while, trim_right, trim_space, split, is_space,
}
use llamarig.Common.TextLaws.{Free, Free-front, split-Free, trim_right-split}
use llamarig.Control.LlamaHelp.Flags.{
  bounded_flag_matches, consume_placeholder, has_flag, column_loop, parse_flag_column,
}
use llamarig.Control.LlamaHelp.Parser.{
  LlamaServerParam, last_end, param_of_keys, param_of_line, param_of_flags, try_parse_flag_line,
  append_description, append_last, ends_param, after_line, help_line, help_loop,
  parse_llama_server_help,
}

-- A key is not empty, does not begin with a dash and has no comma.
abbrev pub IsKey : Text → Type 0
IsKey k = (0 < length k) × (starts_with 45 k ≡ false) × Free 44 k

abbrev pub HasKeys : LlamaServerParam → Type 0
HasKeys p = IsKey p.key × All IsKey p.aliases

drop_while-Free : (c : ℕ) (p : ℕ → Bool) (s : Text) → Free c s → Free c (drop_while p s)
unfolding drop_while
drop_while-Free c p [] h = h
drop_while-Free c p (x ∷ s) h = ground (arith, drop_while-Free c p s)

trim_right-Free : (c : ℕ) (p : ℕ → Bool) (s : Text) → Free c s → Free c (trim_right p s)
trim_right-Free c p s h =
    let (e, same, pass) = trim_right-split p s in
    Free-front c (trim_right p s) e (subst (Free c) same h)

drop_while-starts : (c : ℕ) (s : Text) → starts_with c (drop_while (λ x. x == c) s) ≡ false
unfolding drop_while starts_with
drop_while-starts c [] = refl
drop_while-starts c (x ∷ s) = ground (arith, drop_while-starts c s)

All-append : (P : Text → Type 0) (xs ys : List Text) → All P xs → All P ys → All P (xs ++ ys)
All-append P [] ys h k = k
All-append P (x ∷ xs) ys (hx, h) k = (hx, All-append P xs ys h k)

stripped-IsKey :
    (field : Text)
    → Free 44 field
    → (length (drop_while (λ c. c == 45) (trim_space field)) == 0) ≡ false
    → IsKey (drop_while (λ c. c == 45) (trim_space field))
unfolding trim_space
stripped-IsKey field free long = (
  ground (arith, long),
  drop_while-starts 45 (trim_space field),
  drop_while-Free 44 (λ c. c == 45) (trim_space field)
      (trim_right-Free 44 is_space (drop_while is_space field)
        (drop_while-Free 44 is_space field free)),
)

column_loop-IsKey :
    (fields : List Text)
    → All (Free 44) fields
    → All IsKey (column_loop fields).0 × All IsKey (column_loop fields).1
unfolding column_loop
column_loop-IsKey [] h = (tt, tt)
column_loop-IsKey (field ∷ fields) (free, h) =
    let flag = trim_space field in
    let (long, short) = column_loop-IsKey fields h in
    elim (Bool-cases (has_flag flag)) [
      | inr bare ↦ rw bare (long, short)
      | inl flagged ↦ elim (Bool-cases (length (drop_while (λ c. c == 45) flag) == 0)) [
        | inl bare ↦ rw (flagged, bare) (long, short)
        | inr key ↦ elim (Option-cases (after_prefix (codes "--") flag)) [
          | inl one ↦ rw (flagged, key, one) (long, (stripped-IsKey field free key, short))
          | inr two ↦ rw (flagged, key, two.1) ((stripped-IsKey field free key, long), short)
        ]
      ]
    ]

parse_flag_column-IsKey : (column : Text) → All IsKey (parse_flag_column column)
unfolding parse_flag_column
parse_flag_column-IsKey column =
    let (long, short) = column_loop-IsKey (split 44 column) (split-Free 44 column) in
    All-append IsKey (column_loop (split 44 column)).0 (column_loop (split 44 column)).1 long short

-- What a flag line gives has keys.
abbrev Gives : Option LlamaServerParam → Type 0
Gives none = Unit
Gives (some p) = HasKeys p

param_of_keys-Gives :
    (keys : List Text) (hint desc : Text) → All IsKey keys → Gives (param_of_keys keys hint desc)
unfolding param_of_keys
param_of_keys-Gives [] hint desc h = tt
param_of_keys-Gives (k ∷ ks) hint desc h = h

param_of_line-Gives : (line : Text) (n : ℕ) → Gives (param_of_line line n)
unfolding param_of_line
param_of_line-Gives line n =
    param_of_keys-Gives (parse_flag_column (take n line)) (consume_placeholder line n).1
      (trim_space (drop (consume_placeholder line n).0 line))
      (parse_flag_column-IsKey (take n line))

Gives-if : (b : Bool) (o : Option LlamaServerParam) → Gives o → Gives (if b then o else none)
Gives-if true o g = g
Gives-if false o g = tt

Gives-unless : (b : Bool) (o : Option LlamaServerParam) → Gives o → Gives (if b then none else o)
Gives-unless true o g = tt
Gives-unless false o g = g

param_of_flags-Gives :
    (ms : List (ℕ × ℕ)) (indent : ℕ) (line : Text) → Gives (param_of_flags ms indent line)
unfolding param_of_flags
param_of_flags-Gives [] indent line = tt
param_of_flags-Gives ((a, b) ∷ ms) indent line =
    Gives-if (a == indent) (param_of_line line (last_end b ms))
      (param_of_line-Gives line (last_end b ms))

try_parse_flag_line-Gives : (line : Text) → Gives (try_parse_flag_line line)
unfolding try_parse_flag_line
try_parse_flag_line-Gives line =
    let trimmed = drop_while (λ c. c == 32) line in
    let indent = length line - length trimmed in
    let flags = param_of_flags (bounded_flag_matches line) indent line in
    Gives-unless (not (starts_with 45 trimmed)) (if ltb 20 indent then none else flags) (
      Gives-unless (ltb 20 indent) flags
        (param_of_flags-Gives (bounded_flag_matches line) indent line))

All-snoc :
    (ps : List LlamaServerParam) (p : LlamaServerParam)
    → All HasKeys ps
    → HasKeys p
    → All HasKeys (ps ++ p ∷ [])
All-snoc [] p h hp = (hp, tt)
All-snoc (q ∷ ps) p (hq, h) hp = (hq, All-snoc ps p h hp)

append_description-HasKeys :
    (p : LlamaServerParam) (line : Text) → HasKeys p → HasKeys (append_description p line)
unfolding append_description
append_description-HasKeys p line h = elim (Bool-cases (length (trim_space line) == 0)) [
  | inl blank ↦ rw blank h
  | inr more ↦ rw more h
]

append_last-HasKeys :
    (ps : List LlamaServerParam) (line : Text) → All HasKeys ps → All HasKeys (append_last ps line)
unfolding append_last append_description
append_last-HasKeys [] line h = tt
append_last-HasKeys (p ∷ []) line (hp, h) = (append_description-HasKeys p line hp, tt)
append_last-HasKeys (p ∷ q ∷ ps) line (hp, h) = (hp, append_last-HasKeys (q ∷ ps) line h)

after_line-HasKeys :
    (found : Option LlamaServerParam) (line : Text) (current : Bool) (ps : List LlamaServerParam)
    → Gives found
    → All HasKeys ps
    → All HasKeys (after_line found line current ps).1
unfolding after_line
after_line-HasKeys (some p) line current ps g h = All-snoc ps p h g
after_line-HasKeys none line true ps g h = append_last-HasKeys ps line h
after_line-HasKeys none line false ps g h = h

help_line-HasKeys :
    (raw : Text) (current : Bool) (ps : List LlamaServerParam)
    → All HasKeys ps
    → All HasKeys (help_line raw current ps).1
unfolding help_line
help_line-HasKeys raw current ps h =
    let line = trim_right (λ c. c == 13) raw in
    let parsed =
      after_line-HasKeys (try_parse_flag_line line) line current ps (try_parse_flag_line-Gives line)
        h in
    elim (Bool-cases (ends_param line)) [ inl ends ↦ rw ends h | inr goes_on ↦ rw goes_on parsed ]

help_loop-HasKeys :
    (lines : List Text) (current : Bool) (ps : List LlamaServerParam)
    → All HasKeys ps
    → All HasKeys (help_loop lines current ps)
unfolding help_loop
help_loop-HasKeys [] current ps h = h
help_loop-HasKeys (raw ∷ lines) current ps h =
    let (is_open, next) = help_line raw current ps in
    help_loop-HasKeys lines is_open next (help_line-HasKeys raw current ps h)

-- Every key and every alias that is read from a text is not empty, begins with no dash and has no
-- comma.
pub parse_llama_server_help-HasKeys : (text : Text) → All HasKeys (parse_llama_server_help text)
unfolding parse_llama_server_help
parse_llama_server_help-HasKeys text = help_loop-HasKeys (split 10 text) false [] tt
