-- ===== src/ModelPresets/Values.antt =====
-- The values that `Put` hands to `renderSection`: their keys, and what reading them back gives.
use llamarig.Common.{
  ◌≡◌, refl, ◌∙◌, inl, inr, false, none, some, [], ◌∷◌, arith, if◌then◌else◌, Bool-cases,
  Option-cases, All,
}
use llamarig.Common.Text.{Text, codes, ◌=ₜ◌, =ₜ_iff, =ₜ_refl, contains_any, text_ltb}
use llamarig.Common.TextLaws.{Free}
use llamarig.Common.Dict.{Dict, lookup, insert, lookup-insert}
use llamarig.Common.Results.{ok, both_steps}
use llamarig.ModelPresets.{canonical_key}
use llamarig.ModelPresets.Keys.{IsKey, canonical_key-ok}
use llamarig.ModelPresets.Ini.{newline, insert_sorted, sort_entries}
use llamarig.ModelPresets.Store.{canonical_values}
use llamarig.ModelPresets.Rendered.{stored, fill, AllKeys}

-- No key stands twice.
abbrev pub Distinct : Dict Text → Type 0
Distinct [] = Unit {0}
Distinct ((k, v) ∷ d) = (lookup k d ≡ none) × Distinct d

lookup-cons :
    (k j v : Text) (d : Dict Text) → lookup j ((k, v) ∷ d) ≡ (if k =ₜ j then some v else lookup j d)
unfolding lookup
lookup-cons k j v d = refl

lookup-insert_sorted :
    (k v : Text) (d : Dict Text) (j : Text)
    → lookup k d ≡ none
    → lookup j (insert_sorted (k, v) d) ≡ lookup j ((k, v) ∷ d)
unfolding insert_sorted
lookup-insert_sorted k v [] j h = refl
lookup-insert_sorted k v ((i, w) ∷ d) j h = elim (Bool-cases (text_ltb i k)) [
  | inr before ↦ rw before
  | inl after ↦
      let fresh : lookup k d ≡ none = ground (arith, lookup-cons i k w d) in
      rw after (
        ground (
          arith,
          =ₜ_iff i k,
          =ₜ_iff k j,
          =ₜ_iff i j,
          lookup-cons i k w d,
          lookup-cons i j w (insert_sorted (k, v) d),
          lookup-cons k j v ((i, w) ∷ d),
          lookup-cons i j w d,
          lookup-cons k j v d,
          lookup-insert_sorted k v d j fresh,
        ))
]

Distinct-insert_sorted :
    (k v : Text) (d : Dict Text)
    → lookup k d ≡ none
    → Distinct d
    → Distinct (insert_sorted (k, v) d)
unfolding insert_sorted
Distinct-insert_sorted k v [] h t = (h, t)
Distinct-insert_sorted k v ((i, w) ∷ d) h (fresh, t) = elim (Bool-cases (text_ltb i k)) [
  | inr before ↦ rw before (h, (fresh, t))
  | inl after ↦
      let later : lookup k d ≡ none = ground (arith, lookup-cons i k w d) in
      rw after (
        ground (
          arith,
          =ₜ_iff i k,
          =ₜ_iff k i,
          lookup-cons i k w d,
          lookup-cons k i v d,
          lookup-insert_sorted k v d i later,
        ),
        Distinct-insert_sorted k v d later t,
      )
]

AllKeys-insert_sorted :
    (k v : Text) (d : Dict Text)
    → IsKey k
    → Free newline v
    → AllKeys d
    → AllKeys (insert_sorted (k, v) d)
unfolding insert_sorted
AllKeys-insert_sorted k v [] h n t = (h, n, t)
AllKeys-insert_sorted k v ((i, w) ∷ d) h n (g, m, t) = elim (Bool-cases (text_ltb i k)) [
  | inr before ↦ rw before (h, n, (g, m, t))
  | inl after ↦ rw after (g, m, AllKeys-insert_sorted k v d h n t)
]

-- Sorting the entries changes no value.
pub lookup-sort_entries :
    (d : Dict Text) (j : Text) → Distinct d → lookup j (sort_entries d) ≡ lookup j d
unfolding sort_entries
lookup-sort_entries [] j h = refl
lookup-sort_entries ((k, v) ∷ d) j (fresh, t) =
    lookup-insert_sorted k v (sort_entries d) j (lookup-sort_entries d k t ∙ fresh)
    ∙ ground
        (arith, lookup-cons k j v (sort_entries d), lookup-cons k j v d, lookup-sort_entries d j t)

pub Distinct-sort_entries : (d : Dict Text) → Distinct d → Distinct (sort_entries d)
unfolding sort_entries
Distinct-sort_entries [] h = h
Distinct-sort_entries ((k, v) ∷ d) (fresh, t) =
    Distinct-insert_sorted k v (sort_entries d) (lookup-sort_entries d k t ∙ fresh)
      (Distinct-sort_entries d t)

pub AllKeys-sort_entries : (d : Dict Text) → AllKeys d → AllKeys (sort_entries d)
unfolding sort_entries
AllKeys-sort_entries [] h = h
AllKeys-sort_entries ((k, v) ∷ d) (h, n, t) =
    AllKeys-insert_sorted k v (sort_entries d) h n (AllKeys-sort_entries d t)

-- The values that are read back, one entry after the other.
pub lookup-fill :
    (d acc : Dict Text) (j : Text)
    → Distinct d
    → lookup j (fill d acc) ≡ elim (lookup j d) [ none ↦ lookup j acc | some v ↦ some (stored v) ]
lookup-fill [] acc j h = unfold lookup in refl
lookup-fill ((k, v) ∷ d) acc j (fresh, t) = elim (Bool-cases (k =ₜ j)) [
  | inl same ↦
      let k_is : k ≡ j = ground (arith, =ₜ_iff k j) in
      let absent : lookup j d ≡ none = rw k_is at fresh in
      lookup-fill d (insert k (stored v) acc) j t
      ∙ rw (lookup-cons k j v d, same, absent, lookup-insert k j (stored v) acc, same)
  | inr other ↦
      lookup-fill d (insert k (stored v) acc) j t
      ∙ rw (lookup-cons k j v d, other)
          (elim (Option-cases (lookup j d)) [
            | inl absent ↦ rw (absent, lookup-insert k j (stored v) acc, other)
            | inr (w, there) ↦ rw there
          ])
]

-- What the loop of `Put` has made of the values.
pub record Kept (vs values acc : Dict Text) : Type 0 where
  pub keys : AllKeys values
  pub distinct : Distinct values
  pub before : (j w : Text) → lookup j acc ≡ some w → lookup j values ≡ some w
  pub given :
      All
        (λ (e : Text × Text). (k : Text) → canonical_key e.0 ≡ ok k → lookup k values ≡ some e.1)
        vs

eol-Free : (v : Text) → contains_any (codes "\r\n") v ≡ false → Free newline v
eol-Free [] h = refl
eol-Free (c ∷ v) h = ground (arith, eol-Free v)

-- The loop keeps keys in the kept form, each once, and each given value under its key.
pub canonical_values-Kept :
    (vs acc values : Dict Text)
    → AllKeys acc
    → Distinct acc
    → canonical_values vs acc ≡ ok values
    → Kept vs values acc
unfolding canonical_values
canonical_values-Kept [] acc values h d e =
    let same : acc ≡ values = cc in
    record {
      keys = rw (← same) h;
      distinct = rw (← same) d;
      before = λ j w l. rw (← same) l;
      given = tt;
    }
canonical_values-Kept ((key, v) ∷ vs) acc values h d e =
    let (k, key_is, go) = both_steps (canonical_key key) _ e in
    elim (Option-cases (lookup k acc)) [
      | inr (w, twice) ↦ cc (rw twice at go)
      | inl fresh ↦ elim (Bool-cases (contains_any (codes "\r\n") v)) [
        | inl eol ↦ cc (rw (fresh, eol) at go)
        | inr line ↦
            let more =
              canonical_values-Kept vs (insert k v acc) values
                (unfold insert in (canonical_key-ok key k key_is, eol-Free v line, h))
                (unfold insert in (fresh, d)) (rw (fresh, line) at go) in
            record {
              keys = more.keys;
              distinct = more.distinct;
              before =
                  λ j w l. more.before j w (ground (arith, =ₜ_iff k j, lookup-insert k j v acc));
              given = (
                λ j j_is.
                    let same : k ≡ j = cc in
                    rw (← same)
                      (more.before k v (ground (arith, =ₜ_refl k, lookup-insert k k v acc))),
                more.given,
              );
            }
      ]
    ]
