-- ===== src/ModelCatalog/Fit.antt =====
-- core/modelcatalog/fit.go: what a level promises, also where the estimate runs over int64.
use llamarig.Common.{
  ℕ, ◌+◌, ◌-◌, ◌^◌, ◌<◌, ◌≡◌, refl, sym, ◌∙◌, ◌||◌, inl, inr, Bool, true, false, arith, leb,
  Bool-cases,
}
use llamarig.Common.Text.{Text, codes}
use llamarig.Common.Int.{ℤ, pos, negsuc, add64, add64_pos}
use llamarig.ModelCatalog.{
  MachineProfile, FittedFile, leb_ℤ, capacity_of, verdict, estimate_fit, estimate_file_fit,
  passes_min_fit,
}

add64_over :
    (a b : ℕ)
    → a < 2 ^ 63
    → b < 2 ^ 63
    → leb (2 ^ 63) (a + b) ≡ true
    → (m : ℕ) × (add64 (pos a) (pos b) ≡ negsuc m)
unfolding add64
add64_over a b ha hb h = (2 ^ 64 - 1 - (a + b), ground arith)

verdict-passes :
    (unknown within_most within_all : Bool)
    → (unknown ≡ true → within_all ≡ false)
    → (within_most ≡ true → within_all ≡ true)
    → passes_min_fit (verdict unknown within_most within_all) (codes "marginal") ≡ within_all
unfolding passes_min_fit verdict
verdict-passes true m false h k = refl
verdict-passes true m true h k = sym (h refl)
verdict-passes false true true h k = refl
verdict-passes false true false h k = sym (k refl)
verdict-passes false false true h k = refl
verdict-passes false false false h k = refl

verdict-unknown :
    (first second within_most within_all : Bool)
    → first ≡ true
    → passes_min_fit (verdict (first || second) within_most within_all) (codes "marginal") ≡ false
unfolding passes_min_fit verdict
verdict-unknown true s m a h = refl
verdict-unknown false s m a h = cc

neg_unknown : (m : ℕ) → leb_ℤ (negsuc m) (pos 0) ≡ true
neg_unknown m = ground arith

le_trans_ℤ : (a b c : ℤ) → leb_ℤ b c ≡ true → leb_ℤ a b ≡ true → leb_ℤ a c ≡ true
le_trans_ℤ a b c h k = ground arith

leb_pos : (r c : ℕ) → leb_ℤ (pos r) (pos c) ≡ leb r c
leb_pos r c = ground arith

too_much : (r c : ℕ) → c < 2 ^ 63 → leb (2 ^ 63) r ≡ true → leb r c ≡ false
too_much r c h over = ground (arith, over)

module _ (most : ℤ → ℤ) (gib : ℤ → Text) where
  fit_pos :
      (r c : ℕ) (machine : MachineProfile)
      → capacity_of machine ≡ pos c
      → 0 < r
      → leb_ℤ (most (pos c)) (pos c) ≡ true
      → passes_min_fit (estimate_fit most gib (pos r) machine).level (codes "marginal") ≡ leb r c
  unfolding estimate_fit
  fit_pos r c machine cap h k = rw cap (
      verdict-passes (leb_ℤ (pos r) (pos 0) || leb_ℤ (pos c) (pos 0)) (leb_ℤ (pos r) (most (pos c)))
        (leb_ℤ (pos r) (pos c)) (ground (arith, h)) (le_trans_ℤ (pos r) (most (pos c)) (pos c) k)
      ∙ leb_pos r c)

  fit_neg :
      (m : ℕ) (machine : MachineProfile)
      → passes_min_fit (estimate_fit most gib (negsuc m) machine).level (codes "marginal") ≡ false
  unfolding estimate_fit
  fit_neg m machine =
      verdict-unknown (leb_ℤ (negsuc m) (pos 0)) (leb_ℤ (capacity_of machine) (pos 0))
        (leb_ℤ (negsuc m) (most (capacity_of machine))) (leb_ℤ (negsuc m) (capacity_of machine))
        (neg_unknown m)

  -- Where the part of the capacity that counts as fitting is at most the capacity: a file of a size
  -- that is no negative int64 passes the filter "marginal" exactly where the size and the overhead,
  -- added without wrap-around, are at most the capacity that counts.
  pub estimate_file_fit-passes :
      (file : FittedFile) (machine : MachineProfile) (n c : ℕ)
      → file.size_bytes ≡ pos n
      → n < 2 ^ 63
      → capacity_of machine ≡ pos c
      → c < 2 ^ 63
      → leb_ℤ (most (pos c)) (pos c) ≡ true
      → passes_min_fit (estimate_file_fit most gib file machine).fit_level (codes "marginal")
        ≡ leb (n + 2 ^ 29) c
  unfolding estimate_file_fit
  estimate_file_fit-passes file machine n c size small cap small_c k =
      elim (Bool-cases (leb (2 ^ 63) (n + 2 ^ 29))) [
        | inr within ↦
            rw (size, add64_pos n (2 ^ 29) (ground (arith, within)))
              (fit_pos (n + 2 ^ 29) c machine cap (omega arith) k)
        | inl over ↦
            let (m, wrapped) = add64_over n (2 ^ 29) small (omega arith) over in
            rw (size, wrapped) (fit_neg m machine ∙ sym (too_much (n + 2 ^ 29) c small_c over))
      ]
