-- ===== src/ModelPresets/Effects.antt =====
-- What one line of models.ini does to the sections read so far: a reading of the loop in `read`
-- that keeps apart what the line says and what is done with it.
use llamarig.Common.{
  ◌≡◌, refl, inl, inr, Bool, true, false, not, ◌&&◌, none, some, [], ◌∷◌, arith, if◌then◌else◌,
  Bool-cases, Option-cases,
}
use llamarig.Common.Text.{Text, ◌=ₜ◌, starts_with, ends_with, trim_space, cut}
use llamarig.Common.Dict.{lookup, insert}
use llamarig.Common.Results.{Result, ok, err, ◌>>=◌, ◌>>◌, both_steps}
use llamarig.ModelPresets.{
  Error, invalid, malformed_header, duplicate_section, expected_pair, canonical_key,
  validate_section_name,
}
use llamarig.ModelPresets.Ini.{
  inner, is_idle, strip_comment, Reader, set_value, read_header, read_pair, read_trimmed, read_line,
  is_header, header_name,
}

pub data Effect : Type 0 where
  nothing : Effect
  header : Text → Effect
  pair : Text → Text → Effect

-- What the line says; `top` where no section is open.
unfoldable pub effect : Text → Bool → Result Error Effect
effect line top =
    let trimmed = trim_space line in
    if is_idle trimmed
    then ok nothing
    else if starts_with b'[' trimmed
    then (if not (ends_with b']' trimmed)
        then err (invalid (malformed_header trimmed))
        else validate_section_name (header_name line) >> ok (header (header_name line)))
    else if top
    then ok nothing
    else elim (cut b'=' line) [
      | none ↦ err (invalid (expected_pair trimmed))
      | some (key, value) ↦
          canonical_key (trim_space key) >>= λ k. ok (pair k (trim_space (strip_comment value)))
    ]

abbrev pub opened : Text → Reader → Reader
opened n r = record {
  sections = insert n (record { name = n; values = [] }) r.sections;
  current = n;
}

-- What is done with it.
unfoldable pub apply : Effect → Reader → Result Error Reader
apply nothing r = ok r
apply (header n) r = elim (lookup n r.sections) [
  | some s ↦ err (invalid (duplicate_section n))
  | none ↦ ok (opened n r)
]
apply (pair k v) r = ok (set_value k v r)

pair-apply :
    (x : Result Error Text) (v : Text) (r : Reader)
    → (x >>= λ k. ok (set_value k v r)) ≡ ((x >>= λ k. ok (pair k v)) >>= λ e. apply e r)
unfolding apply
pair-apply (ok k) v r = refl
pair-apply (err e) v r = refl

header-apply :
    (x : Result Error (Unit {0})) (n : Text) (r : Reader)
    → (x >> apply (header n) r) ≡ ((x >> ok (header n)) >>= λ e. apply e r)
header-apply (ok u) n r = refl
header-apply (err e) n r = refl

read_header_closed :
    (t : Text) (r : Reader)
    → ends_with b']' t ≡ true
    → read_header t r
      ≡ (validate_section_name (trim_space (inner t)) >> apply (header (trim_space (inner t))) r)
unfolding read_header apply
read_header_closed t r h = rw h

read_header_open :
    (t : Text) (r : Reader)
    → ends_with b']' t ≡ false
    → read_header t r ≡ err (invalid (malformed_header t))
unfolding read_header
read_header_open t r h = rw h

-- The loop's round is the one after the other.
pub read_line-effect :
    (l : Text) (r : Reader) → read_line l r ≡ (effect l (r.current =ₜ []) >>= λ e. apply e r)
unfolding read_trimmed effect
read_line-effect l r = elim (Bool-cases (is_idle (trim_space l))) [
  | inl idle ↦ rw idle (unfold apply in refl)
  | inr busy ↦ elim (Bool-cases (starts_with b'[' (trim_space l))) [
    | inl bracket ↦ elim (Bool-cases (ends_with b']' (trim_space l))) [
      | inl closed ↦
          rw (busy, bracket, closed, read_header_closed (trim_space l) r closed)
            (header-apply (validate_section_name (header_name l)) (header_name l) r)
      | inr open_end ↦ rw (busy, bracket, open_end, read_header_open (trim_space l) r open_end)
    ]
    | inr other ↦ elim (Bool-cases (r.current =ₜ [])) [
      | inl top ↦ rw (busy, other, top) (unfold apply in refl)
      | inr within ↦
          rw (busy, other, within)
            (elim (Option-cases (cut b'=' l)) [
              | inl absent ↦ unfold read_pair in rw (absent, read_pair)
              | inr ((k, v), found) ↦
                  unfold read_pair in
                  rw (found, read_pair)
                    (pair-apply (canonical_key (trim_space k)) (trim_space (strip_comment v)) r)
            ])
    ]
  ]
]

bracket_busy : (t : Text) → starts_with b'[' t ≡ true → is_idle t ≡ false
unfolding is_idle starts_with ◌=ₜ◌
bracket_busy [] h = cc
bracket_busy (x ∷ t) h = ground arith

both : (a b : Bool) → (a && b) ≡ true → (a ≡ true) × (b ≡ true)
both a b h = ground arith

-- A header's line opens the section that it names, or is refused, whatever section is open.
pub effect_header :
    (l : Text) (top : Bool)
    → is_header l ≡ true
    → effect l top ≡ (validate_section_name (header_name l) >> ok (header (header_name l)))
unfolding effect is_header
effect_header l top h =
    let (bracket, closed) =
      both (starts_with b'[' (trim_space l)) (ends_with b']' (trim_space l)) h in
    rw (bracket_busy (trim_space l) bracket, bracket, closed)

pub effect-header :
    (l : Text) (top : Bool) (e : Effect)
    → is_header l ≡ true
    → effect l top ≡ ok e
    → e ≡ header (header_name l)
effect-header l top e h says =
    let (u, valid, same) =
      both_steps (validate_section_name (header_name l)) (λ u. ok (header (header_name l)))
        (rw (effect_header l top h) at says) in
    cc same

pair_plain :
    (x : Result Error Text) (v : Text) {n : Text} → (x >>= λ k. ok (pair k v)) ≡ ok (header n) → ⊥
pair_plain (ok k) v h = cc
pair_plain (err e) v h = cc

-- No other line opens a section.
pub effect_plain :
    (l : Text) (top : Bool) (n : Text) → is_header l ≡ false → effect l top ≡ ok (header n) → ⊥
unfolding effect is_header
effect_plain l top n h says = elim (Bool-cases (is_idle (trim_space l))) [
  | inl idle ↦ cc (rw idle at says)
  | inr busy ↦ elim (Bool-cases (starts_with b'[' (trim_space l))) [
    | inl bracket ↦ cc (rw (busy, bracket, open_end bracket) at says)
    | inr other ↦ elim (Bool-cases top) [
      | inl outside ↦ cc (rw (busy, other, outside) at says)
      | inr within ↦ elim (Option-cases (cut b'=' l)) [
        | inl absent ↦ cc (rw (busy, other, within, absent, effect) at says)
        | inr ((k, v), found) ↦
            pair_plain (canonical_key (trim_space k)) _
              (rw (busy, other, within, found, effect) at says)
      ]
    ]
  ]
]
  where
    open_end : starts_with b'[' (trim_space l) ≡ true → ends_with b']' (trim_space l) ≡ false
    open_end bracket = ground arith
