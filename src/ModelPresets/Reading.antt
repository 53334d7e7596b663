-- ===== src/ModelPresets/Reading.antt =====
-- core/modelpresets/store.go: how `read` takes lines, one by one and up to the next header.
use llamarig.Common.{
  ◌≡◌, refl, sym, ◌∙◌, ap, inl, inr, true, false, none, List, [], ◌∷◌, ◌++◌, arith, Bool-cases,
  Option-cases, All,
}
use llamarig.Common.Text.{Text, ◌=ₜ◌}
use llamarig.Common.Dict.{lookup}
use llamarig.Common.Results.{ok, both_steps}
use llamarig.ModelPresets.Ini.{
  Reader, set_value, read_line, read_lines, is_header, until_header, all_idle, idle_end,
}
use llamarig.ModelPresets.Lines.{read_line_idle}
use llamarig.ModelPresets.Effects.{
  Effect, nothing, header, pair, effect, apply, opened, read_line-effect,
}

-- A step of the loop, taken apart.
pub step_ok :
    (l : Text) (r r' : Reader)
    → read_line l r ≡ ok r'
    → (e : Effect) × (effect l (r.current =ₜ []) ≡ ok e) × (apply e r ≡ ok r')
step_ok l r r' h =
    both_steps (effect l (r.current =ₜ [])) (λ e. apply e r) (sym (read_line-effect l r) ∙ h)

pub step_do :
    (l : Text) (r r' : Reader) (e : Effect)
    → effect l (r.current =ₜ []) ≡ ok e
    → apply e r ≡ ok r'
    → read_line l r ≡ ok r'
step_do l r r' e says does = read_line-effect l r ∙ rw says does

pub read_lines_ok :
    (l : Text) (ls : List Text) (r s : Reader)
    → read_lines (l ∷ ls) r ≡ ok s
    → (r' : Reader) × (read_line l r ≡ ok r') × (read_lines ls r' ≡ ok s)
unfolding read_lines
read_lines_ok l ls r s h = both_steps (read_line l r) (read_lines ls) h

pub read_lines_do :
    (l : Text) (ls : List Text) (r r' s : Reader)
    → read_line l r ≡ ok r'
    → read_lines ls r' ≡ ok s
    → read_lines (l ∷ ls) r ≡ ok s
unfolding read_lines
read_lines_do l ls r r' s one more = rw one more

pub apply_nothing : (a a' : Reader) → apply nothing a ≡ ok a' → a ≡ a'
unfolding apply
apply_nothing a a' h = cc

pub apply_pair : (k v : Text) (a a' : Reader) → apply (pair k v) a ≡ ok a' → set_value k v a ≡ a'
unfolding apply
apply_pair k v a a' h = cc

pub apply_header :
    (n : Text) (a a' : Reader)
    → apply (header n) a ≡ ok a'
    → (lookup n a.sections ≡ none) × (opened n a ≡ a')
unfolding apply
apply_header n a a' h = elim (Option-cases (lookup n a.sections)) [
  | inl fresh ↦ (fresh, cc (rw (fresh, apply) at h))
  | inr (s, old) ↦ absurd (cc (rw (old, apply) at h))
]

pub apply_fresh :
    (n : Text) (b : Reader) → lookup n b.sections ≡ none → apply (header n) b ≡ ok (opened n b)
unfolding apply
apply_fresh n b h = rw (h, apply)

pub read_nothing : (b : Reader) → read_lines [] b ≡ ok b
unfolding read_lines
read_nothing b = refl

pub read_nothing_ok : (a s : Reader) → read_lines [] a ≡ ok s → a ≡ s
unfolding read_lines
read_nothing_ok a s h = cc

-- The lines up to the next header, and those from there on.
abbrev pub StartsHeader : List Text → Type 0
StartsHeader [] = Unit {0}
StartsHeader (h ∷ hs) = is_header h ≡ true

pub until_header_lem :
    (ls : List Text)
    → (ls ≡ (until_header ls).0 ++ (until_header ls).1)
      × All (λ l. is_header l ≡ false) (until_header ls).0
      × StartsHeader (until_header ls).1
unfolding until_header
until_header_lem [] = (refl, tt, tt)
until_header_lem (l ∷ ls) =
    let (same, plain, starts) = until_header_lem ls in
    elim (Bool-cases (is_header l)) [
      | inl header_line ↦ rw header_line (refl, tt, header_line)
      | inr other ↦ rw other (ap (◌∷◌ l) same, (other, plain), starts)
    ]

pub read_idle : (ls : List Text) (r : Reader) → all_idle ls ≡ true → read_lines ls r ≡ ok r
unfolding all_idle
read_idle [] r h = read_nothing r
read_idle (l ∷ ls) r h =
    read_lines_do l ls r r r (read_line_idle l r (ground arith)) (read_idle ls r (ground arith))

pub read_idle_end : (ls : List Text) (r : Reader) → read_lines (idle_end ls) r ≡ ok r
unfolding idle_end
read_idle_end [] r = read_nothing r
read_idle_end (l ∷ ls) r = elim (Bool-cases (all_idle (l ∷ ls))) [
  | inl idle ↦ rw idle (read_idle (l ∷ ls) r idle)
  | inr busy ↦ rw busy (read_idle_end ls r)
]
