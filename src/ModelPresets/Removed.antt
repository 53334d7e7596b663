-- ===== src/ModelPresets/Removed.antt =====
-- The text that `removeSection` returns, against the text that it is given.
use llamarig.Common.{
  ◌≡◌, refl, sym, ◌∙◌, ap, inl, inr, true, false, ◌&&◌, none, List, [], ◌∷◌, ◌++◌, arith,
  Bool-cases, All,
}
use llamarig.Common.Text.{Text, ◌=ₜ◌, =ₜ_iff, split, split_at, join}
use llamarig.Common.TextLaws.{split-join, split-Free, Free}
use llamarig.Common.Dict.{lookup, lookup-insert, lookup-adjust}
use llamarig.Common.Results.{ok, both_steps}
use llamarig.ModelPresets.{Section, Sections}
use llamarig.ModelPresets.Ini.{
  newline, Reader, put_value, set_value, read_line, read_lines, start, parse, is_header,
  header_name, until_header, all_idle, idle_end, remove_lines, remove_section,
}
use llamarig.ModelPresets.Lines.{read_lines-append, empty_line}
use llamarig.ModelPresets.Effects.{
  Effect, nothing, header, pair, effect, apply, effect-header, effect_plain,
}
use llamarig.ModelPresets.Reading.{
  step_ok, read_lines_ok, read_lines_do, apply_nothing, apply_pair, apply_header, until_header_lem,
  read_idle_end, read_nothing, read_nothing_ok,
}
use llamarig.ModelPresets.Removal.{Hides, read_rest, read_body, Inside}

module _ (name : Text) where
  -- The header of the removed section, its body and what follows.
  remove_here :
      (l : Text) (ls : List Text) (r s : Reader)
      → is_header l ≡ true
      → header_name l ≡ name
      → read_lines (l ∷ ls) r ≡ ok s
      → (t : Reader) × (read_lines (idle_end (until_header ls).0 ++ (until_header ls).1) r ≡ ok t)
        × Hides name s.sections t.sections
  remove_here l ls r s is_head named h =
      let (a, one, later) = read_lines_ok l ls r s h in
      let (e, says, does) = step_ok l r a one in
      let e_is = effect-header l (r.current =ₜ []) e is_head says in
      let (fresh, a_is) = apply_header (header_name l) r a (rw e_is at does) in
      let (same, plain, starts) = until_header_lem ls in
      let split_read =
        sym (read_lines-append (until_header ls).0 (until_header ls).1 a)
        ∙ ap (λ ks. read_lines ks a) (sym same)
        ∙ later in
      let (m, body, rest) =
        both_steps (read_lines (until_header ls).0 a) (read_lines (until_header ls).1) split_read in
      let begun : Inside name a r.sections = rw (← a_is) (record {
        hides = λ k. ground (
          arith,
          =ₜ_iff (header_name l) k,
          =ₜ_iff name k,
          lookup-insert (header_name l) k (record { name = header_name l; values = [] }) r.sections,
        );
        there = ground (
          arith,
          =ₜ_iff (header_name l) name,
          lookup-insert (header_name l) name (record { name = header_name l; values = [] })
              r.sections,
        );
        inside = named;
      }) in
      let i = read_body name (until_header ls).0 a m r.sections plain begun body in
      let (t, read, hides) = read_rest name (until_header ls).1 m r s starts i rest in
      (
        t,
        read_lines-append (idle_end (until_header ls).0) (until_header ls).1 r
            ∙ rw (read_idle_end (until_header ls).0 r) read,
        hides,
      )

  -- A line that is kept does not open the named section.
  keep_line :
      (l : Text) (r a : Reader)
      → (is_header l && header_name l =ₜ name) ≡ false
      → lookup name r.sections ≡ none
      → read_line l r ≡ ok a
      → lookup name a.sections ≡ none
  keep_line l r a kept absent one = let (e, says, does) = step_ok l r a one in go e says does
    where
      go :
          (e : Effect)
          → effect l (r.current =ₜ []) ≡ ok e
          → apply e r ≡ ok a
          → lookup name a.sections ≡ none
      go nothing says does = rw (← apply_nothing r a does) absent
      go (pair k v) says does = rw (← apply_pair k v r a does) (
          unfold set_value in
          ground (arith, lookup-adjust r.current name (put_value k v) r.sections))
      go (header n) says does = elim (Bool-cases (is_header l)) [
        | inr plain ↦ absurd (effect_plain l (r.current =ₜ []) n plain says)
        | inl is_head ↦
            let n_is : n ≡ header_name l =
              ground (arith, effect-header l (r.current =ₜ []) (header n) is_head says) in
            let (fresh, a_is) = apply_header n r a does in
            rw (← a_is) (
              ground (
                arith,
                =ₜ_iff n name,
                =ₜ_iff (header_name l) name,
                lookup-insert n name (record { name = n; values = [] }) r.sections,
              ))
      ]

  -- What is read of the lines that are left.
  read_removed :
      (ls : List Text) (r s : Reader)
      → lookup name r.sections ≡ none
      → read_lines ls r ≡ ok s
      → (t : Reader) × (read_lines (remove_lines name ls) r ≡ ok t)
        × Hides name s.sections t.sections
  unfolding remove_lines
  read_removed [] r s absent h =
      (r, read_nothing r, λ k. rw (← read_nothing_ok r s h) (ground (arith, =ₜ_iff name k)))
  read_removed (l ∷ ls) r s absent h = elim (Bool-cases (is_header l && header_name l =ₜ name)) [
    | inl named ↦
        rw named
          (remove_here l ls r s (ground arith) (ground (arith, =ₜ_iff (header_name l) name)) h)
    | inr kept ↦
        let (a, one, later) = read_lines_ok l ls r s h in
        let (t, read, hides) = read_removed ls a s (keep_line l r a kept absent one) later in
        rw kept (t, read_lines_do l (remove_lines name ls) r a t one read, hides)
  ]

abbrev Lines : List Text → Type 0
Lines ls = All (Free newline) ls

Lines-append : (a b : List Text) → Lines a → Lines b → Lines (a ++ b)
Lines-append [] b h k = k
Lines-append (l ∷ a) b (h, t) k = (h, Lines-append a b t k)

Lines-until_header :
    (ls : List Text) → Lines ls → Lines (until_header ls).0 × Lines (until_header ls).1
unfolding until_header
Lines-until_header [] h = (tt, tt)
Lines-until_header (l ∷ ls) (h, t) = elim (Bool-cases (is_header l)) [
  | inl header_line ↦ rw header_line (tt, (h, t))
  | inr other ↦ let (b, r) = Lines-until_header ls t in rw other ((h, b), r)
]

Lines-idle_end : (ls : List Text) → Lines ls → Lines (idle_end ls)
unfolding idle_end
Lines-idle_end [] h = tt
Lines-idle_end (l ∷ ls) (h, t) = elim (Bool-cases (all_idle (l ∷ ls))) [
  | inl idle ↦ rw idle (h, t)
  | inr busy ↦ rw busy (Lines-idle_end ls t)
]

Lines-remove_lines : (name : Text) (ls : List Text) → Lines ls → Lines (remove_lines name ls)
unfolding remove_lines
Lines-remove_lines name [] h = tt
Lines-remove_lines name (l ∷ ls) (h, t) = elim (Bool-cases (is_header l && header_name l =ₜ name)) [
  | inl named ↦
      let (b, r) = Lines-until_header ls t in
      rw named (
        Lines-append (idle_end (until_header ls).0) (until_header ls).1
          (Lines-idle_end (until_header ls).0 b) r)
  | inr kept ↦ rw kept (h, Lines-remove_lines name ls t)
]

read_join_nil : (r : Reader) → read_lines (split newline (join newline [])) r ≡ ok r
unfolding join split_at
read_join_nil r = empty_line r

-- Joined and split again, lines read as before.
read-join :
    (ls : List Text) (r : Reader)
    → Lines ls
    → read_lines (split newline (join newline ls)) r ≡ read_lines ls r
read-join [] r h = read_join_nil r ∙ sym (read_nothing r)
read-join (l ∷ ls) r h = ap (λ ks. read_lines ks r) (split-join newline l ls h)

pub parse_ok :
    (content : Text) (secs : Sections)
    → parse content ≡ ok secs
    → (s : Reader) × (read_lines (split newline content) start ≡ ok s) × (s.sections ≡ secs)
unfolding parse
parse_ok content secs h =
    let (s, read, same) =
      both_steps (read_lines (split newline content) start) (λ r. ok r.sections) h in
    (s, read, cc same)

pub parse_do :
    (content : Text) (s : Reader)
    → read_lines (split newline content) start ≡ ok s
    → parse content ≡ ok s.sections
unfolding parse
parse_do content s h = rw h

lookup_nil : (name : Text) → lookup {V = Section} name [] ≡ none
unfolding lookup
lookup_nil name = refl

-- The text without a section parses, and has every other section as it was.
pub parse-remove_section :
    (content name : Text) (secs : Sections)
    → parse content ≡ ok secs
    → (left : Sections) × (parse (remove_section content name) ≡ ok left) × Hides name secs left
unfolding remove_section
parse-remove_section content name secs h =
    let (s, read, same) = parse_ok content secs h in
    let (t, read', hides) =
      read_removed name (split newline content) start s (lookup_nil name) read in
    let lines = Lines-remove_lines name (split newline content) (split-Free newline content) in
    (
      t.sections,
      parse_do (remove_section content name) t
          (read-join (remove_lines name (split newline content)) start lines ∙ read'),
      rw same at hides,
    )
