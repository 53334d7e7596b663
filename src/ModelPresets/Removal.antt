-- ===== src/ModelPresets/Removal.antt =====
-- core/modelpresets/store.go `removeSection` against what `read` makes of the lines.
use llamarig.Common.{
  ◌≡◌, ◌≢◌, refl, sym, ◌∙◌, false, none, List, [], ◌∷◌, arith, if◌then◌else◌, All,
}
use llamarig.Common.Text.{Text, ◌=ₜ◌, =ₜ_iff}
use llamarig.Common.Dict.{lookup, lookup-insert, lookup-adjust}
use llamarig.Common.Results.{ok}
use llamarig.ModelPresets.{Sections}
use llamarig.ModelPresets.Ini.{Reader, put_value, set_value, read_lines, is_header, header_name}
use llamarig.ModelPresets.Effects.{
  Effect, nothing, header, pair, effect, apply, opened, effect_header, effect-header, effect_plain,
}
use llamarig.ModelPresets.Reading.{
  step_ok, step_do, read_lines_ok, read_lines_do, apply_nothing, apply_pair, apply_header,
  apply_fresh, read_nothing, read_nothing_ok, StartsHeader,
}

-- `s` is `full` without the section `name`.
abbrev pub Hides : Text → Sections → Sections → Type 0
Hides name full s = (k : Text) → lookup k s ≡ (if name =ₜ k then none else lookup k full)

module _ (name : Text) where
  -- The two readers stand in the same open section, which is not the hidden one.
  record Apart (a b : Reader) : Type 0 where
    hides : Hides name a.sections b.sections
    there : lookup name a.sections ≢ none
    same : a.current ≡ b.current
    other : (name =ₜ a.current) ≡ false

  opened-Apart :
      (n : Text) (a b a' : Reader)
      → Hides name a.sections b.sections
      → lookup name a.sections ≢ none
      → apply (header n) a ≡ ok a'
      → (b' : Reader) × (apply (header n) b ≡ ok b') × Apart a' b'
  opened-Apart n a b a' hides there h =
      let (fresh, a'_is) = apply_header n a a' h in
      let other : (name =ₜ n) ≡ false = ground (arith, =ₜ_iff name n) in
      let fresh_b : lookup n b.sections ≡ none = hides n ∙ rw (other, fresh) in
      (
        opened n b,
        apply_fresh n b fresh_b,
        rw (← a'_is) (record {
          hides = λ k. ground (
            arith,
            hides k,
            =ₜ_iff name n,
            =ₜ_iff n k,
            =ₜ_iff name k,
            lookup-insert n k (record { name = n; values = [] }) a.sections,
            lookup-insert n k (record { name = n; values = [] }) b.sections,
          );
          there = ground (
            arith,
            =ₜ_iff n name,
            =ₜ_iff name n,
            lookup-insert n name (record { name = n; values = [] }) a.sections,
          );
          same = refl;
          other = other;
        }),
      )

  set_value-Hides :
      (k v : Text) (a b : Reader)
      → Hides name a.sections b.sections
      → a.current ≡ b.current
      → (name =ₜ a.current) ≡ false
      → Hides name (set_value k v a).sections (set_value k v b).sections
  unfolding set_value
  set_value-Hides k v a b hides same other j = rw (← same) (
      ground (
        arith,
        hides j,
        =ₜ_iff name a.current,
        =ₜ_iff a.current j,
        =ₜ_iff name j,
        lookup-adjust a.current j (put_value k v) a.sections,
        lookup-adjust a.current j (put_value k v) b.sections,
      ))

  set_value_there :
      (k v : Text) (a : Reader)
      → lookup name a.sections ≢ none
      → lookup name (set_value k v a).sections ≢ none
  unfolding set_value
  set_value_there k v a there =
      ground (arith, lookup-adjust a.current name (put_value k v) a.sections)

  set_value_current : (k v : Text) (a : Reader) → (set_value k v a).current ≡ a.current
  unfolding set_value
  set_value_current k v a = refl

  apply-Apart :
      (e : Effect) (a b a' : Reader)
      → Apart a b
      → apply e a ≡ ok a'
      → (b' : Reader) × (apply e b ≡ ok b') × Apart a' b'
  apply-Apart nothing a b a' p h = (b, unfold apply in refl, rw (← apply_nothing a a' h) p)
  apply-Apart (header n) a b a' p h = opened-Apart n a b a' p.hides p.there h
  apply-Apart (pair k v) a b a' p h = (
    set_value k v b,
    unfold apply in refl,
    rw (← apply_pair k v a a' h) (record {
      hides = set_value-Hides k v a b p.hides p.same p.other;
      there = set_value_there k v a p.there;
      same = set_value_current k v a ∙ p.same ∙ sym (set_value_current k v b);
      other = rw (set_value_current k v a) p.other;
    }),
  )

  read_lines-Apart :
      (ls : List Text) (a b s : Reader)
      → Apart a b
      → read_lines ls a ≡ ok s
      → (t : Reader) × (read_lines ls b ≡ ok t) × Hides name s.sections t.sections
  read_lines-Apart [] a b s p h = (b, read_nothing b, rw (← read_nothing_ok a s h) p.hides)
  read_lines-Apart (l ∷ ls) a b s p h =
      let (a', one, later) = read_lines_ok l ls a s h in
      let (e, says, does) = step_ok l a a' one in
      let (b', does', p') = apply-Apart e a b a' p does in
      let (t, read, hides) = read_lines-Apart ls a' b' s p' later in
      (t, read_lines_do l ls b b' t (step_do l b b' e (rw (← p.same) says) does') read, hides)

  -- While the removed section's body is read: only that section changes.
  pub record Inside (a : Reader) (before : Sections) : Type 0 where
    pub hides : Hides name a.sections before
    pub there : lookup name a.sections ≢ none
    pub inside : a.current ≡ name

  set_value_inside :
      (k v : Text) (a : Reader) (before : Sections)
      → Hides name a.sections before
      → a.current ≡ name
      → Hides name (set_value k v a).sections before
  unfolding set_value
  set_value_inside k v a before hides inside j = ground (
    arith,
    hides j,
    =ₜ_iff a.current j,
    =ₜ_iff name j,
    lookup-adjust a.current j (put_value k v) a.sections,
  )

  pub read_body :
      (ls : List Text) (a s : Reader) (before : Sections)
      → All (λ l. is_header l ≡ false) ls
      → Inside a before
      → read_lines ls a ≡ ok s
      → Inside s before
  read_body [] a s before plain i h = rw (← read_nothing_ok a s h) i
  read_body (l ∷ ls) a s before (plain, more) i h =
      let (a', one, later) = read_lines_ok l ls a s h in
      let (e, says, does) = step_ok l a a' one in
      read_body ls a' s before more (step e says does) later
    where
      step :
          {a' : Reader} (e : Effect)
          → effect l (a.current =ₜ []) ≡ ok e
          → apply e a ≡ ok a'
          → Inside a' before
      step {a'} nothing says does = rw (← apply_nothing a a' does) i
      step (header n) says does = absurd (effect_plain l (a.current =ₜ []) n plain says)
      step {a'} (pair k v) says does = rw (← apply_pair k v a a' does) (record {
        hides = set_value_inside k v a before i.hides i.inside;
        there = set_value_there k v a i.there;
        inside = set_value_current k v a ∙ i.inside;
      })

module _ (name : Text) where
  -- What follows the body begins with a header, or there is nothing.
  pub read_rest :
      (rest : List Text) (a b s : Reader)
      → StartsHeader rest
      → Inside name a b.sections
      → read_lines rest a ≡ ok s
      → (t : Reader) × (read_lines rest b ≡ ok t) × Hides name s.sections t.sections
  read_rest [] a b s starts i h = (b, read_nothing b, rw (← read_nothing_ok a s h) i.hides)
  read_rest (l ∷ ls) a b s starts i h =
      let (a', one, later) = read_lines_ok l ls a s h in
      let (e, says, does) = step_ok l a a' one in
      let e_is = effect-header l (a.current =ₜ []) e starts says in
      let says_b : effect l (b.current =ₜ []) ≡ ok (header (header_name l)) =
        effect_header l (b.current =ₜ []) starts
        ∙ sym (effect_header l (a.current =ₜ []) starts)
        ∙ rw e_is at says in
      let (b', does_b, p) =
        opened-Apart name (header_name l) a b a' i.hides i.there (rw e_is at does) in
      let (t, read, hides) = read_lines-Apart name ls a' b' s p later in
      (
        t,
        read_lines_do l ls b b' t (step_do l b b' (header (header_name l)) says_b does_b) read,
        hides,
      )
