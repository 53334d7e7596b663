-- ===== src/Common/TextLaws.antt =====
-- Laws of the string functions: lines, trimming, cutting.
use llamarig.Common.{
  ℕ, ◌≡◌, refl, ◌∙◌, ap, ◌⊎◌, inl, inr, Bool, true, false, some, List, [], ◌∷◌, ◌++◌, arith, ◌==◌,
  Bool-cases, any, All,
}
use llamarig.Common.Text.{
  Text, is_space, drop_while, trim_right, trim_space, split_at, split, join, cut, ends_with,
}

-- No character passes.
abbrev pub Free : ℕ → Text → Type 0
Free c s = any (λ x. x == c) s ≡ false

split_at-append :
    (c : ℕ) (a b : Text)
    → split_at c (a ++ c ∷ b) ≡ ((split_at c a).0, (split_at c a).1 ++ split c b)
unfolding split_at
split_at-append c [] b = ground arith
split_at-append c (x ∷ a) b = ground (arith, split_at-append c a b)

-- The lines of two texts joined by the separator.
pub split-append : (c : ℕ) (a b : Text) → split c (a ++ c ∷ b) ≡ split c a ++ split c b
split-append c a b = rw split_at-append

-- A text without the separator is one line.
pub split_whole : (c : ℕ) (a : Text) → Free c a → split c a ≡ a ∷ []
unfolding split_at
split_whole c [] h = refl
split_whole c (x ∷ a) h = ground (arith, split_whole c a)

-- No line holds the separator.
pub split-Free : (c : ℕ) (s : Text) → All (Free c) (split c s)
unfolding split_at
split-Free c [] = (refl, tt)
split-Free c (x ∷ s) = ground (arith, split-Free c s)

pub split-join :
    (c : ℕ) (l : Text) (ls : List Text) → All (Free c) (l ∷ ls) → split c (join c (l ∷ ls)) ≡ l ∷ ls
unfolding join
split-join c l [] (h, t) = split_whole c l h
split-join c l (k ∷ ls) (h, t) =
    split-append c l (join c (k ∷ ls))
    ∙ ap (λ (ts : List Text). ts ++ split c (join c (k ∷ ls))) (split_whole c l h)
    ∙ ap (◌∷◌ l) (split-join c k ls t)

-- The last line with one more character.
abbrev pub snoc_last : ℕ → Text → List Text → List Text
snoc_last c l [] = (l ++ c ∷ []) ∷ []
snoc_last c l (k ∷ ls) = l ∷ snoc_last c k ls

abbrev snoc_pair : ℕ → Text × List Text → Text × List Text
snoc_pair c (l, []) = (l ++ c ∷ [], [])
snoc_pair c (l, k ∷ ks) = (l, snoc_last c k ks)

snoc_pair-cons :
    (c : ℕ) (t : Text × List Text)
    → [] ∷ snoc_last c t.0 t.1 ≡ (snoc_pair c ([], t.0 ∷ t.1)).0 ∷ (snoc_pair c ([], t.0 ∷ t.1)).1
snoc_pair-cons c (l, ls) = refl

snoc_pair-list :
    (c : ℕ) (l : Text) (ls : List Text)
    → (snoc_pair c (l, ls)).0 ∷ (snoc_pair c (l, ls)).1 ≡ snoc_last c l ls
snoc_pair-list c l [] = refl
snoc_pair-list c l (k ∷ ks) = refl

snoc_pair-head :
    (c x : ℕ) (l : Text) (ls : List Text)
    → (x ∷ (snoc_pair c (l, ls)).0, (snoc_pair c (l, ls)).1) ≡ snoc_pair c (x ∷ l, ls)
snoc_pair-head c x l [] = refl
snoc_pair-head c x l (k ∷ ks) = refl

split_at-snoc :
    (n c : ℕ) (s : Text) → (c == n) ≡ false → split_at n (s ++ c ∷ []) ≡ snoc_pair c (split_at n s)
unfolding split_at
split_at-snoc n c [] h = ground arith
split_at-snoc n c (x ∷ s) h = elim (Bool-cases (x == n)) [
  | inl sep ↦ rw (sep, split_at-snoc n c s h, snoc_pair-list c (split_at n s).0 (split_at n s).1)
  | inr char ↦
      rw (char, split_at-snoc n c s h) (snoc_pair-head c x (split_at n s).0 (split_at n s).1)
]

-- One more character that does not separate stands on the last line.
pub split-snoc :
    (n c : ℕ) (s : Text)
    → (c == n) ≡ false
    → split n (s ++ c ∷ []) ≡ snoc_last c (split_at n s).0 (split_at n s).1
split-snoc n c s h = rw (split_at-snoc n c s h) (snoc_pair-list c (split_at n s).0 (split_at n s).1)

pub trim_right-snoc :
    (p : ℕ → Bool) (s : Text) (c : ℕ) → p c ≡ true → trim_right p (s ++ c ∷ []) ≡ trim_right p s
unfolding trim_right
trim_right-snoc p [] c h = rw h
trim_right-snoc p (x ∷ s) c h = rw (trim_right-snoc p s c h)

drop_while-snoc :
    (p : ℕ → Bool) (s : Text) (c : ℕ)
    → p c ≡ true
    → trim_right p (drop_while p (s ++ c ∷ [])) ≡ trim_right p (drop_while p s)
unfolding drop_while
drop_while-snoc p [] c h = rw h
drop_while-snoc p (x ∷ s) c h = elim (Bool-cases (p x)) [
  | inl space ↦ rw space (drop_while-snoc p s c h)
  | inr solid ↦ rw solid (trim_right-snoc p (x ∷ s) c h)
]

-- A space at the end does not matter.
pub trim_space-snoc :
    (s : Text) (c : ℕ) → is_space c ≡ true → trim_space (s ++ c ∷ []) ≡ trim_space s
unfolding trim_space
trim_space-snoc s c h = drop_while-snoc is_space s c h

drop_while-cons :
    (p : ℕ → Bool) (s : Text) (c : ℕ) → p c ≡ true → drop_while p (c ∷ s) ≡ drop_while p s
unfolding drop_while
drop_while-cons p s c h = rw h

-- A space in front does not matter.
pub trim_space-cons : (s : Text) (c : ℕ) → is_space c ≡ true → trim_space (c ∷ s) ≡ trim_space s
unfolding trim_space
trim_space-cons s c h = ap (trim_right is_space) (drop_while-cons is_space s c h)

pub trim_right-append :
    (p : ℕ → Bool) (a : Text) (c : ℕ) → p c ≡ false → trim_right p (a ++ c ∷ []) ≡ a ++ c ∷ []
unfolding trim_right
trim_right-append p [] c h = rw h
trim_right-append p (x ∷ []) c h = rw (trim_right-append p [] c h, trim_right)
trim_right-append p (x ∷ y ∷ a) c h = rw (trim_right-append p (y ∷ a) c h, trim_right)

List-cases {ℓ} : {A : Type ℓ} (xs : List A) → (xs ≡ []) ⊎ ((y : A) × (ys : List A) × (xs ≡ y ∷ ys))
List-cases [] = inl refl
List-cases (y ∷ ys) = inr (y, ys, refl)

-- `s` is what is left of it, and characters that pass.
pub trim_right-split :
    (p : ℕ → Bool) (s : Text) → (e : Text) × (s ≡ trim_right p s ++ e) × All (λ x. p x ≡ true) e
unfolding trim_right
trim_right-split p [] = ([], refl, tt)
trim_right-split p (x ∷ s) =
    let (e, same, pass) = trim_right-split p s in
    elim (List-cases (trim_right p s)) [
      | inr (y, ys, t) ↦ (e, rw (t, trim_right) (ap (◌∷◌ x) (rw t at same)), pass)
      | inl t ↦ elim (Bool-cases (p x)) [
        | inl space ↦ (x ∷ e, rw (t, trim_right, space) (ap (◌∷◌ x) (rw t at same)), (space, pass))
        | inr solid ↦ (e, rw (t, trim_right, solid) (ap (◌∷◌ x) (rw t at same)), pass)
      ]
    ]

pub trim_right_one : (p : ℕ → Bool) (c : ℕ) → p c ≡ false → trim_right p (c ∷ []) ≡ c ∷ []
unfolding trim_right
trim_right_one p c h = rw h

pub trim_right_more :
    (p : ℕ → Bool) (c d : ℕ) (s : Text)
    → trim_right p (d ∷ s) ≡ d ∷ s
    → trim_right p (c ∷ d ∷ s) ≡ c ∷ d ∷ s
unfolding trim_right
trim_right_more p c d s h = rw (h, trim_right)

pub drop_while_stop : (p : ℕ → Bool) (c : ℕ) (s : Text) → p c ≡ false → drop_while p (c ∷ s) ≡ c ∷ s
unfolding drop_while
drop_while_stop p c s h = rw h

pub cut-append : (c : ℕ) (a b : Text) → Free c a → cut c (a ++ c ∷ b) ≡ some (a, b)
unfolding cut
cut-append c [] b h = ground arith
cut-append c (x ∷ a) b h = ground (arith, cut-append c a b)

pub Free-append : (c : ℕ) (a b : Text) → Free c a → Free c b → Free c (a ++ b)
Free-append c [] b h k = k
Free-append c (x ∷ a) b h k = ground (arith, Free-append c a b)

pub Free-front : (c : ℕ) (a b : Text) → Free c (a ++ b) → Free c a
Free-front c [] b h = refl
Free-front c (x ∷ a) b h = ground (arith, Free-front c a b)

pub ends_with-snoc : (c : ℕ) (a : Text) → ends_with c (a ++ c ∷ []) ≡ true
unfolding ends_with
ends_with-snoc c [] = ground arith
ends_with-snoc c (x ∷ []) = ground arith
ends_with-snoc c (x ∷ y ∷ a) = ends_with-snoc c (y ∷ a)

-- What begins with no space still does when it is trimmed.
pub trim_space_head :
    (c : ℕ) (s : Text) → is_space c ≡ false → (t : Text) × (trim_space (c ∷ s) ≡ c ∷ t)
unfolding trim_space
trim_space_head c s h = elim (List-cases (trim_right is_space s)) [
  | inl none_left ↦
      ([], rw (drop_while_stop is_space c s h) (unfold trim_right in rw (none_left, trim_right, h)))
  | inr (y, ys, left) ↦
      (y ∷ ys, rw (drop_while_stop is_space c s h) (unfold trim_right in rw (left, trim_right)))
]
