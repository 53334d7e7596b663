-- ===== src/Common/Dict.antt =====
-- A Go map with string keys, as an association list; a key that is met first hides the others.
use mathlib.Core.Option
use llamarig.Common.{◌≡◌, refl, Option, none, some, List, [], ◌∷◌, arith, if◌then◌else◌}
use llamarig.Common.Text.{Text, ◌=ₜ◌, =ₜ_iff}

abbrev pub Dict {ℓ} : Type ℓ → Type ℓ
Dict V = List (Text × V)

module _ {ℓ} {V : Type ℓ} where
  -- `v, ok := d[k]`
  unfoldable pub lookup : Text → Dict V → Option V
  lookup k [] = none
  lookup k ((j, v) ∷ d) = if j =ₜ k then some v else lookup k d

  -- `d[k] = v`
  unfoldable pub insert : Text → V → Dict V → Dict V
  insert k v d = (k, v) ∷ d

  -- `delete(d, k)`
  unfoldable pub erase : Text → Dict V → Dict V
  erase k [] = []
  erase k ((j, v) ∷ d) = if j =ₜ k then erase k d else (j, v) ∷ erase k d

  -- A write through the pointer that the map holds at `k`, if it holds one.
  unfoldable pub adjust : Text → (V → V) → Dict V → Dict V
  adjust k f [] = []
  adjust k f ((j, v) ∷ d) = (if j =ₜ k then (j, f v) else (j, v)) ∷ adjust k f d

  pub lookup-insert :
      (k j : Text) (v : V) (d : Dict V)
      → lookup j (insert k v d) ≡ (if k =ₜ j then some v else lookup j d)
  unfolding lookup insert
  lookup-insert k j v d = refl

  pub lookup-erase :
      (k j : Text) (d : Dict V) → lookup j (erase k d) ≡ (if k =ₜ j then none else lookup j d)
  unfolding lookup erase
  lookup-erase k j [] = ground arith
  lookup-erase k j ((i, v) ∷ d) =
      ground (arith, =ₜ_iff i k, =ₜ_iff k j, =ₜ_iff i j, lookup-erase k j d)

  pub lookup-adjust :
      (k j : Text) (f : V → V) (d : Dict V)
      → lookup j (adjust k f d) ≡ (if k =ₜ j then Option.map f (lookup j d) else lookup j d)
  unfolding lookup adjust
  lookup-adjust k j f [] = ground arith
  lookup-adjust k j f ((i, v) ∷ d) =
      ground (arith, =ₜ_iff i k, =ₜ_iff k j, =ₜ_iff i j, lookup-adjust k j f d)
