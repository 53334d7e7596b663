-- ===== src/Common/Text.antt =====
-- Go strings as lists of code points, and what the program uses of package strings. A Go string
-- is bytes; a file or an argument that is valid UTF-8 is the list of its code points.
use Prim.Native.Char.{code}
use Prim.Native.String.{String}
use llamarig.Common.{
  ℕ, zero, suc, ◌+◌, ◌/◌, ◌%◌, ◌≡◌, ◌↔◌, refl, Bool, true, false, ◌&&◌, ◌||◌, Option, none, some,
  List, [], ◌∷◌, ◌++◌, arith, leb, ltb, ◌==◌, if◌then◌else◌, any,
}

abbrev pub Text : Type 0
Text = List ℕ

-- A literal of the source.
abbrev pub codes : String → Text
codes String.[] = []
codes (String.◌∷◌ c s) = code c ∷ codes s

-- `a == b` on strings.
infix 50 ◌=ₜ◌
unfoldable pub ◌=ₜ◌ : Text → Text → Bool
[] =ₜ [] = true
(x ∷ xs) =ₜ (y ∷ ys) = x == y && xs =ₜ ys
_ =ₜ _ = false

pub =ₜ_iff : (a b : Text) → ((a =ₜ b) ≡ true) ↔ (a ≡ b)
unfolding ◌=ₜ◌
=ₜ_iff (x ∷ a) (y ∷ b) = ground (arith, =ₜ_iff a b)
=ₜ_iff _ _ = ground arith

pub =ₜ_refl : (a : Text) → (a =ₜ a) ≡ true
=ₜ_refl a = (=ₜ_iff a a).1 refl

-- `strings.HasPrefix`, `strings.HasSuffix` for one character.
unfoldable pub starts_with : ℕ → Text → Bool
starts_with c [] = false
starts_with c (x ∷ xs) = x == c

unfoldable pub ends_with : ℕ → Text → Bool
ends_with c [] = false
ends_with c (x ∷ []) = x == c
ends_with c (x ∷ y ∷ xs) = ends_with c (y ∷ xs)

-- `strings.HasPrefix` with what follows the prefix.
unfoldable pub after_prefix : Text → Text → Option Text
after_prefix [] s = some s
after_prefix (p ∷ ps) [] = none
after_prefix (p ∷ ps) (x ∷ xs) = if p == x then after_prefix ps xs else none

-- `strings.Contains` for one character; `strings.ContainsAny` asks it of each.
abbrev pub contains : ℕ → Text → Bool
contains c s = any (λ x. x == c) s

abbrev pub contains_any : Text → Text → Bool
contains_any cs s = any (λ x. any (λ c. x == c) cs) s

-- `unicode.IsSpace`.
unfoldable pub is_space : ℕ → Bool
is_space c =
    (leb 9 c && leb c 13)
    || c == 32
    || c == 0x85
    || c == 0xa0
    || c == 0x1680
    || (leb 0x2000 c && leb c 0x200a)
    || c == 0x2028
    || c == 0x2029
    || c == 0x202f
    || c == 0x205f
    || c == 0x3000

-- What is left behind the first characters that pass.
unfoldable pub drop_while : (ℕ → Bool) → Text → Text
drop_while p [] = []
drop_while p (x ∷ xs) = if p x then drop_while p xs else x ∷ xs

-- What is left before the last characters that pass: `strings.TrimRight`.
unfoldable pub trim_right : (ℕ → Bool) → Text → Text
trim_right p [] = []
trim_right p (x ∷ xs) = elim (trim_right p xs) [
  | [] ↦ if p x then [] else x ∷ []
  | y ∷ ys ↦ x ∷ y ∷ ys
]

-- `strings.TrimSpace`.
unfoldable pub trim_space : Text → Text
unfolding drop_while trim_right is_space
trim_space s = trim_right is_space (drop_while is_space s)

-- `strings.Split(s, "\n")`, by the separator; never empty.
unfoldable pub split_at : ℕ → Text → Text × List Text
split_at c [] = ([], [])
split_at c (x ∷ xs) =
    let (line, rest) = split_at c xs in if x == c then ([], line ∷ rest) else (x ∷ line, rest)

abbrev pub split : ℕ → Text → List Text
split c s = let (line, rest) = split_at c s in line ∷ rest

-- `strings.Join(lines, "\n")`.
unfoldable pub join : ℕ → List Text → Text
join c [] = []
join c (l ∷ []) = l
join c (l ∷ k ∷ ls) = l ++ c ∷ join c (k ∷ ls)

-- `strings.Cut` at one character.
unfoldable pub cut : ℕ → Text → Option (Text × Text)
cut c [] = none
cut c (x ∷ xs) =
    if x == c
    then some ([], xs)
    else elim (cut c xs) [ none ↦ none | some (a, b) ↦ some (x ∷ a, b) ]

-- The order of strings, `a < b`.
unfoldable pub text_ltb : Text → Text → Bool
text_ltb a [] = false
text_ltb [] (y ∷ ys) = true
text_ltb (x ∷ xs) (y ∷ ys) = if x == y then text_ltb xs ys else ltb x y

-- `%d` of a natural number; a number has fewer digits than its value plus one.
decimal_onto : ℕ → ℕ → Text → Text
decimal_onto zero n acc = acc
decimal_onto (suc fuel) n acc =
    let rest = decimal_onto fuel (n / 10) ((48 + n % 10) ∷ acc) in
    if n / 10 == 0 then (48 + n % 10) ∷ acc else rest

unfoldable pub decimal : ℕ → Text
unfolding decimal_onto
decimal n = decimal_onto (suc n) n []
