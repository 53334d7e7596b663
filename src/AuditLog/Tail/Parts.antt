-- ===== src/AuditLog/Tail/Parts.antt =====
-- Lists of lines: their ends, and what a text in front of them changes.
use llamarig.Common.{
  ℕ, suc, ◌+◌, ◌-◌, ◌≤◌, ◌<◌, ◌≡◌, refl, ap, inl, inr, List, [], ◌∷◌, ◌++◌, arith, ◌==◌, Bool-cases,
  length, take, drop, length-append,
}
use llamarig.Common.Text.{Text, split_at, split, ends_with}
use llamarig.AuditLog.Tail.{newline, count_newlines, drop_last, last_parts, ends_line}

-- A text with more in front: its first line is the end of a longer one, the others stay.
abbrev pub Extends : ℕ → Text → List Text → Type 0
Extends sep s parts =
    (front : List Text) × (part : Text) × (parts
      ≡ front ++ (part ++ (split_at sep s).0) ∷ (split_at sep s).1)

-- One more character that does not separate stands on the first line.
grow_first :
    (x : ℕ) (m : Text) (rest : List Text) (front : List Text) (part : Text) (t : Text × List Text)
    → t.0 ∷ t.1 ≡ front ++ (part ++ m) ∷ rest
    → (front' : List Text) × (part' : Text) × ((x ∷ t.0) ∷ t.1 ≡ front' ++ (part' ++ m) ∷ rest)
grow_first x m rest [] part t h = ([], x ∷ part, ground arith)
grow_first x m rest (l ∷ front) part t h = ((x ∷ l) ∷ front, part, ground arith)

pub split-Extends : (sep : ℕ) (b s : Text) → Extends sep s (split sep (b ++ s))
unfolding split_at
split-Extends sep [] s = ([], [], refl)
split-Extends sep (x ∷ b) s =
    let (front, part, same) = split-Extends sep b s in
    elim (Bool-cases (x == sep)) [
      | inl at_end ↦ ([] ∷ front, part, rw at_end (ap (◌∷◌ []) same))
      | inr inner ↦ rw inner (
          grow_first x (split_at sep s).0 (split_at sep s).1 front part (split_at sep (b ++ s))
            same)
    ]

pub length-split : (s : Text) → length (split newline s) ≡ suc (count_newlines s)
unfolding split_at count_newlines
length-split [] = refl
length-split (x ∷ s) = ground (arith, length-split s)

pub ends_line-append : (b : Text) (c : ℕ) (s : Text) → ends_line (b ++ c ∷ s) ≡ ends_line (c ∷ s)
unfolding ends_with
ends_line-append [] c s = refl
ends_line-append (x ∷ []) c s = refl
ends_line-append (x ∷ y ∷ b) c s = ends_line-append (y ∷ b) c s

drop-append : (front xs : List Text) (k : ℕ) → drop (length front + k) (front ++ xs) ≡ drop k xs
drop-append [] xs k = let same : 0 + k ≡ k = omega arith in rw same refl
drop-append (l ∷ front) xs k =
    let same : suc (length front) + k ≡ suc (length front + k) = omega arith in
    rw same (drop-append front xs k)

take-append :
    (front xs : List Text) (k : ℕ) → take (length front + k) (front ++ xs) ≡ front ++ take k xs
take-append [] xs k = let same : 0 + k ≡ k = omega arith in rw same refl
take-append (l ∷ front) xs k =
    let same : suc (length front) + k ≡ suc (length front + k) = omega arith in
    rw same (ap (◌∷◌ l) (take-append front xs k))

pub drop_last-append :
    (front : List Text) (m : Text) (rest : List Text)
    → drop_last (front ++ m ∷ rest) ≡ front ++ drop_last (m ∷ rest)
drop_last-append front m rest =
    let same : length (front ++ m ∷ rest) - 1 ≡ length front + (suc (length rest) - 1) =
      omega (arith, length-append front (m ∷ rest)) in
    rw same (take-append front (m ∷ rest) (suc (length rest) - 1))

drop_last-cons :
    (m k : Text) (rest : List Text) → drop_last (m ∷ k ∷ rest) ≡ m ∷ drop_last (k ∷ rest)
drop_last-cons m k rest =
    let outer : length (m ∷ k ∷ rest) - 1 ≡ suc (length rest) = omega arith in
    let inner : length (k ∷ rest) - 1 ≡ length rest = omega arith in rw (outer, inner) refl

pub length-drop_last : (xs : List Text) → length (drop_last xs) ≡ length xs - 1
length-drop_last [] = omega arith
length-drop_last (m ∷ []) = omega arith
length-drop_last (m ∷ k ∷ rest) =
    rw (drop_last-cons m k rest) (omega (arith, length-drop_last (k ∷ rest)))

-- Of enough lines, those in front and the beginning of the first one do not matter.
pub last_parts-append :
    (n : ℕ) (front : List Text) (m k : Text) (rest : List Text)
    → n ≤ length rest
    → last_parts n (front ++ m ∷ rest) ≡ last_parts n (k ∷ rest)
last_parts-append n front m k rest h =
    let outer : length (front ++ m ∷ rest) - n ≡ length front + suc (length rest - n) =
      omega (arith, length-append front (m ∷ rest)) in
    let inner : suc (length rest) - n ≡ suc (length rest - n) = omega arith in
    rw (outer, inner) (drop-append front (m ∷ rest) (suc (length rest - n)))

-- Exactly so many lines are all kept.
last_parts_exact :
    (n : ℕ) (front : List Text) (m : Text) (rest : List Text)
    → n ≡ suc (length rest)
    → last_parts n (front ++ m ∷ rest) ≡ m ∷ rest
last_parts_exact n front m rest h =
    let outer : length (front ++ m ∷ rest) - n ≡ length front + 0 =
      omega (arith, length-append front (m ∷ rest)) in
    rw outer (drop-append front (m ∷ rest) 0)

pub drop_last_trailing :
    (n : ℕ) (front : List Text) (m k : Text) (rest : List Text)
    → n < length rest
    → last_parts n (drop_last (front ++ m ∷ rest)) ≡ last_parts n (drop_last (k ∷ rest))
drop_last_trailing n front m k [] h = absurd (omega arith)
drop_last_trailing n front m k (r ∷ rest) h =
    rw (drop_last-append front m (r ∷ rest), drop_last-cons m r rest, drop_last-cons k r rest)
      (last_parts-append n front m k (drop_last (r ∷ rest))
        (omega (arith, length-drop_last (r ∷ rest))))

-- Of exactly so many lines and the empty part behind the last newline, all lines are kept.
pub kept_exact :
    (n : ℕ) (front : List Text) (m : Text) (rest : List Text)
    → 1 ≤ n
    → length rest ≡ n
    → last_parts n (drop_last (front ++ m ∷ rest)) ≡ m ∷ drop_last rest
kept_exact n front m [] some_lines h = absurd (omega arith)
kept_exact n front m (r ∷ rest) some_lines h =
    rw (drop_last-append front m (r ∷ rest), drop_last-cons m r rest)
      (last_parts_exact n front m (drop_last (r ∷ rest))
        (omega (arith, length-drop_last (r ∷ rest))))
