-- ===== src/Control/LlamaHelp/Flags.antt =====
-- core/control/llama_help.go: the two patterns of the file, and where a line has flags
-- (boundedFlagMatches, consumePlaceholder, nextToken, parseFlagColumn). Positions count characters.
use llamarig.Common.{
  ℕ, zero, suc, ◌+◌, ◌-◌, Bool, true, false, not, ◌&&◌, ◌||◌, Option, none, some, List, [], ◌∷◌,
  ◌++◌, leb, ◌==◌, if◌then◌else◌, length, take, drop,
}
use llamarig.Common.Text.{Text, codes, after_prefix, drop_while, trim_space, split}

-- `s[i]`, where it is there.
unfoldable pub char_at : ℕ → Text → Option ℕ
char_at i [] = none
char_at zero (x ∷ xs) = some x
char_at (suc i) (x ∷ xs) = char_at i xs

unfoldable pub is_letter : ℕ → Bool
is_letter c = (leb 65 c && leb c 90) || (leb 97 c && leb c 122)

-- `[A-Za-z0-9_-]`
unfoldable pub is_flag_char : ℕ → Bool
unfolding is_letter
is_flag_char c = is_letter c || (leb 48 c && leb c 57) || c == 95 || c == 45

-- How many characters in front pass.
unfoldable pub count_while : (ℕ → Bool) → Text → ℕ
count_while p [] = 0
count_while p (x ∷ xs) = if p x then suc (count_while p xs) else 0

-- What `[A-Za-z][A-Za-z0-9_-]*` matches at the front, by its length.
unfoldable pub match_name : Text → Option ℕ
unfolding is_letter is_flag_char count_while
match_name [] = none
match_name (x ∷ xs) = if is_letter x then some (suc (count_while is_flag_char xs)) else none

longer : ℕ → Option ℕ → Option ℕ
longer k none = none
longer k (some n) = some (k + n)

-- `-{1,2}` and a name: two dashes where there are two, since no name begins with a dash.
unfoldable pub match_flag : Text → Option ℕ
unfolding match_name after_prefix longer
match_flag s = elim (after_prefix (codes "--") s) [
  | some xs ↦ longer 2 (match_name xs)
  | none ↦ elim (after_prefix (codes "-") s) [ some xs ↦ longer 1 (match_name xs) | none ↦ none ]
]

-- `flagTokenPattern.FindAllStringIndex`: from position `i` on, where the first `skip` characters
-- belong to a match that has been found.
unfoldable pub find_flags : ℕ → ℕ → Text → List (ℕ × ℕ)
unfolding match_flag
find_flags i skip [] = []
find_flags i (suc skip) (x ∷ xs) = find_flags (suc i) skip xs
find_flags i zero (x ∷ xs) = elim (match_flag (x ∷ xs)) [
  | none ↦ find_flags (suc i) 0 xs
  | some n ↦ (i, i + n) ∷ find_flags (suc i) (n - 1) xs
]

-- A match begins the line or stands behind a space or a comma.
unfoldable pub is_bounded : Text → ℕ → Bool
unfolding char_at
is_bounded line zero = true
is_bounded line (suc i) = elim (char_at i line) [ none ↦ false | some c ↦ c == 32 || c == 44 ]

unfoldable pub keep_bounded : Text → List (ℕ × ℕ) → List (ℕ × ℕ)
unfolding is_bounded
keep_bounded line [] = []
keep_bounded line ((a, b) ∷ ms) =
    let rest = keep_bounded line ms in if is_bounded line a then (a, b) ∷ rest else rest

-- `boundedFlagMatches`
unfoldable pub bounded_flag_matches : Text → List (ℕ × ℕ)
unfolding find_flags keep_bounded
bounded_flag_matches line = keep_bounded line (find_flags 0 0 line)

-- `nextToken`
unfoldable pub next_token : Text → ℕ → Text × ℕ
unfolding count_while
next_token line offset =
    let n = count_while (λ c. not (c == 32)) (drop offset line) in
    (take n (drop offset line), offset + n)

is_space_at : ℕ → Text → Bool
unfolding char_at
is_space_at i line = elim (char_at i line) [ none ↦ false | some c ↦ c == 32 ]

-- `consumePlaceholder`
unfoldable pub consume_placeholder : Text → ℕ → ℕ × Text
unfolding is_space_at next_token
consume_placeholder line boundary =
    let (placeholder, end) = next_token line (boundary + 1) in
    if not (is_space_at boundary line)
    then (boundary, [])
    else if is_space_at (boundary + 1) line
    then (boundary, [])
    else if length placeholder == 0
    then (boundary, [])
    else (end, placeholder)

-- `flagTokenPattern.MatchString`
unfoldable pub has_flag : Text → Bool
unfolding find_flags
has_flag s = not (length (find_flags 0 0 s) == 0)

-- The loop of parseFlagColumn: the long and the short keys.
unfoldable pub column_loop : List Text → List Text × List Text
unfolding has_flag drop_while after_prefix
column_loop [] = ([], [])
column_loop (field ∷ fields) =
    let flag = trim_space field in
    let key = drop_while (λ c. c == 45) flag in
    let (long, short) = column_loop fields in
    if not (has_flag flag)
    then (long, short)
    else if length key == 0
    then (long, short)
    else elim (after_prefix (codes "--") flag) [
      | some rest ↦ (key ∷ long, short)
      | none ↦ (long, key ∷ short)
    ]

-- `parseFlagColumn`
unfoldable pub parse_flag_column : Text → List Text
unfolding column_loop
parse_flag_column column = let (long, short) = column_loop (split 44 column) in long ++ short
