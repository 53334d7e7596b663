-- ===== src/Common/Results.antt =====
-- The two results of a Go function that may fail: a value, or an error of a kind of the caller's.
use llamarig.Common.{◌≡◌, refl, ◌⊎◌, inl, inr}

pub data Result {ℓ} (E : Type 0) (A : Type ℓ) : Type ℓ where
  ok : A → Result E A
  err : E → Result E A

module _ {E : Type 0} where
  infixl 5 ◌>>=◌ ◌>>◌
  -- `if err != nil { return …, err }` between two fallible steps.
  abbrev pub ◌>>=◌ {ℓ κ} : {V : Type ℓ} {W : Type κ} → Result E V → (V → Result E W) → Result E W
  err e >>= next = err e
  ok v >>= next = next v

  abbrev pub ◌>>◌ {κ} : {W : Type κ} → Result E (Unit {0}) → Result E W → Result E W
  step >> next = step >>= λ _. next

  pub Result-cases {ℓ} :
      {V : Type ℓ} (r : Result E V) → ((v : V) × (r ≡ ok v)) ⊎ ((e : E) × (r ≡ err e))
  Result-cases (err e) = inr (e, refl)
  Result-cases (ok v) = inl (v, refl)

  -- Where two steps succeed, each does.
  pub both_steps {ℓ κ} :
      {V : Type ℓ} {W : Type κ} {w : W} (first : Result E V) (next : V → Result E W)
      → (first >>= next) ≡ ok w
      → (v : V) × (first ≡ ok v) × (next v ≡ ok w)
  both_steps (err e) next h = cc
  both_steps (ok v) next h = (v, refl, h)
