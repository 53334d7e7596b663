-- ===== src/ModelPresets/Keys.antt =====
-- core/modelpresets/store.go `canonicalKey`: the form of the keys that it gives.
use llamarig.Common.{
  ℕ, ◌≡◌, refl, ◌∙◌, ap, inl, inr, true, false, none, some, [], ◌∷◌, map, arith, Bool-cases,
  Option-cases,
}
use llamarig.Common.Text.{
  Text, codes, ◌=ₜ◌, =ₜ_refl, after_prefix, is_space, trim_right, trim_space,
}
use llamarig.Common.TextLaws.{trim_right_one, trim_right_more, drop_while_stop}
use llamarig.Common.Dict.{Dict, lookup}
use llamarig.Common.Results.{ok}
use llamarig.ModelPresets.{
  key_char, key_rest, key_pattern, key_aliases, unalias, check_key, canonical_trimmed,
  canonical_key, to_lower, to_upper, dashed,
}

-- A key in the form that the store keeps: of the pattern, and no alias.
pub record IsKey (k : Text) : Type 0 where
  pub matches : key_pattern k ≡ true
  pub plain : lookup k key_aliases ≡ none

key_char-solid : (c : ℕ) → key_char c ≡ true → is_space c ≡ false
unfolding is_space
key_char-solid c h = ground arith

key_char-lower : (c : ℕ) → key_char c ≡ true → to_lower c ≡ c
key_char-lower c h = ground arith

map-lower : (s : Text) → key_rest s ≡ true → map to_lower s ≡ s
unfolding key_rest
map-lower [] h = refl
map-lower (c ∷ s) h = cc (key_char-lower c (ground arith), map-lower s (ground arith))

trim_right-key : (c : ℕ) (s : Text) → key_rest (c ∷ s) ≡ true → trim_right is_space (c ∷ s) ≡ c ∷ s
unfolding key_rest
trim_right-key c [] h = trim_right_one is_space c (key_char-solid c (ground arith))
trim_right-key c (d ∷ s) h = trim_right_more is_space c d s (trim_right-key d s (ground arith))

-- A key has no space around it.
pub trim_space-key : (k : Text) → key_pattern k ≡ true → trim_space k ≡ k
unfolding trim_space key_pattern
trim_space-key [] h = cc
trim_space-key (c ∷ s) h =
    rw (drop_while_stop is_space c s (key_char-solid c (ground arith)))
      (trim_right-key c s (unfold key_rest in ground arith))

-- No key begins like an environment variable.
after_prefix-key : (k : Text) → key_pattern k ≡ true → after_prefix (codes "LLAMA_ARG_") k ≡ none
unfolding after_prefix key_pattern
after_prefix-key [] h = cc
after_prefix-key (c ∷ s) h = ground arith

map-lower-key : (k : Text) → key_pattern k ≡ true → map to_lower k ≡ k
unfolding key_pattern
map-lower-key [] h = refl
map-lower-key (c ∷ s) h = map-lower (c ∷ s) (unfold key_rest in ground arith)

key-ne-nil : (k : Text) → key_pattern k ≡ true → (k =ₜ []) ≡ false
unfolding key_pattern ◌=ₜ◌
key-ne-nil [] h = cc
key-ne-nil (c ∷ s) h = refl

check_key-IsKey : (key k : Text) → IsKey k → check_key key k ≡ ok k
unfolding check_key unalias
check_key-IsKey key k h = rw (h.matches, h.plain, unalias)

canonical_trimmed-IsKey : (key k : Text) → IsKey k → canonical_trimmed key k ≡ ok k
unfolding canonical_trimmed
canonical_trimmed-IsKey key k h =
    rw
      (
        key-ne-nil k h.matches,
        after_prefix-key k h.matches,
        canonical_trimmed,
        map-lower-key k h.matches,
        =ₜ_refl k,
      )
      (check_key-IsKey key k h)

-- A key in the kept form is kept.
pub canonical_key-IsKey : (k : Text) → IsKey k → canonical_key k ≡ ok k
unfolding canonical_key
canonical_key-IsKey k h =
    ap (canonical_trimmed k) (trim_space-key k h.matches) ∙ canonical_trimmed-IsKey k k h

AllTargets : Dict Text → Type 0
AllTargets [] = Unit
AllTargets ((k, a) ∷ d) = IsKey a × AllTargets d

lookup-AllTargets : (d : Dict Text) (k a : Text) → AllTargets d → lookup k d ≡ some a → IsKey a
unfolding lookup AllTargets
lookup-AllTargets [] k a h e = absurd (cc)
lookup-AllTargets ((j, b) ∷ d) k a (h, t) e = elim (Bool-cases (j =ₜ k)) [
  | inl here ↦ let b_is : b ≡ a = ground arith in rw (← b_is) h
  | inr on ↦ lookup-AllTargets d k a t (ground arith)
]

targets_are_keys : AllTargets key_aliases
unfolding AllTargets key_pattern lookup ◌=ₜ◌
targets_are_keys = (
  record { matches = refl; plain = refl },
  (
    record { matches = refl; plain = refl },
    (
      record { matches = refl; plain = refl },
      (
        record { matches = refl; plain = refl },
        (
          record { matches = refl; plain = refl },
          (
            record { matches = refl; plain = refl },
            (
              record { matches = refl; plain = refl },
              (
                record { matches = refl; plain = refl },
                (
                  record { matches = refl; plain = refl },
                  (
                    record { matches = refl; plain = refl },
                    (record { matches = refl; plain = refl }, tt),
                  ),
                ),
              ),
            ),
          ),
        ),
      ),
    ),
  ),
)

check_key-ok : (key k r : Text) → check_key key k ≡ ok r → IsKey r
unfolding check_key unalias
check_key-ok key k r h = elim (Bool-cases (key_pattern k)) [
  | inr bad ↦ absurd (cc (rw bad at h))
  | inl good ↦ elim (Option-cases (lookup k key_aliases)) [
    | inl plain ↦
        let r_is : k ≡ r = cc (rw (good, plain, unalias) at h) in
        rw (← r_is) (record { matches = good; plain = plain })
    | inr (a, alias) ↦
        let r_is : a ≡ r = cc (rw (good, alias, unalias) at h) in
        rw (← r_is) (lookup-AllTargets key_aliases k a targets_are_keys alias)
  ]
]

canonical_trimmed-ok : (key t r : Text) → canonical_trimmed key t ≡ ok r → IsKey r
unfolding canonical_trimmed
canonical_trimmed-ok key t r h = elim (Bool-cases (t =ₜ [])) [
  | inl empty ↦ absurd (cc (rw empty at h))
  | inr full ↦ elim (Option-cases (after_prefix (codes "LLAMA_ARG_") t)) [
    | inl cli ↦ elim (Bool-cases (t =ₜ map to_lower t)) [
      | inl lower ↦ check_key-ok key t r (rw (full, cli, canonical_trimmed, lower) at h)
      | inr mixed ↦ absurd (cc (rw (full, cli, canonical_trimmed, mixed) at h))
    ]
    | inr (tail, env) ↦ elim (Bool-cases (t =ₜ map to_upper t)) [
      | inl upper ↦
          check_key-ok key (map to_lower (map dashed tail)) r
            (rw (full, env, canonical_trimmed, upper) at h)
      | inr mixed ↦ absurd (cc (rw (full, env, canonical_trimmed, mixed) at h))
    ]
  ]
]

-- What `canonicalKey` gives is in the kept form.
pub canonical_key-ok : (key r : Text) → canonical_key key ≡ ok r → IsKey r
unfolding canonical_key
canonical_key-ok key r h = canonical_trimmed-ok key (trim_space key) r h

-- A key that `canonicalKey` returns matches the pattern, is no alias, and is returned again by
-- `canonicalKey`.
pub canonical_key_idem :
    (key k : Text)
    → canonical_key key ≡ ok k
    → (key_pattern k ≡ true) × (lookup k key_aliases ≡ none) × (canonical_key k ≡ ok k)
canonical_key_idem key k h =
    let is_key = canonical_key-ok key k h in
    (is_key.matches, is_key.plain, canonical_key-IsKey k is_key)
