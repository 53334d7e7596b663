-- ===== src/AuditLog/Clock/Digits.antt =====
-- A time that is formatted is parsed again.
use native.Mathlib.Numerals.{unary_clauses}
use llamarig.Common.{
  ℕ, zero, suc, ◌+◌, ◌-◌, ◌*◌, ◌/◌, ◌%◌, ◌^◌, ◌<◌, ◌≡◌, refl, ap, ◌∙◌, true, some, [], ◌∷◌, arith,
}
use llamarig.Common.Text.{Text}
use llamarig.AuditLog.Clock.{Clock, pad_onto, format_clock, take_number, in_range, parse_clock}

take_number_more :
    (k n : ℕ) (s : Text)
    → take_number (suc k) n s ≡ take_number 1 (take_number k n s).0 (take_number k n s).1
unfolding take_number
take_number_more zero n s = refl
take_number_more (suc k) n [] = refl
take_number_more (suc k) n (c ∷ s) = take_number_more k (n * 10 + (c - 48)) s

-- A number of at most so many digits is read back.
pub take_number-pad_onto :
    (k n : ℕ) (s : Text) → n < 10 ^ k → take_number k 0 (pad_onto k n s) ≡ (n, s)
unfolding take_number pad_onto
take_number-pad_onto zero n s h = ground arith
take_number-pad_onto (suc k) n s h =
    let small : n < 10 ^ k * 10 = simp unary_clauses at h in
    let front = take_number-pad_onto k (n / 10) ((48 + n % 10) ∷ s) (omega arith) in
    let value : n / 10 * 10 + (48 + n % 10 - 48) ≡ n = omega arith in
    take_number_more k 0 (pad_onto k (n / 10) ((48 + n % 10) ∷ s))
    ∙ ap (λ (t : ℕ × Text). take_number 1 t.0 t.1) front
    ∙ ap (λ (v : ℕ). (v, s)) value

abbrev pub IsClock : Clock → Type 0
IsClock t = (t.year < 10 ^ 4) × (in_range t ≡ true) × (t.nano < 10 ^ 9)

small_fields :
    (t : Clock)
    → in_range t ≡ true
    → (t.month < 10 ^ 2)
      × (t.day < 10 ^ 2)
      × (t.hour < 10 ^ 2)
      × (t.minute < 10 ^ 2)
      × (t.second < 10 ^ 2)
unfolding in_range
small_fields t h = ground arith

-- What is formatted is parsed to the same time.
pub parse_clock-format_clock : (t : Clock) → IsClock t → parse_clock (format_clock t []) ≡ some t
unfolding parse_clock format_clock
parse_clock-format_clock t (year_fits, valid, nano_fits) =
    let (month_fits, day_fits, hour_fits, minute_fits, second_fits) = small_fields t valid in
    let nano_text = pad_onto 9 t.nano (b'Z' ∷ []) in
    let second_text = pad_onto 2 t.second (b'.' ∷ nano_text) in
    let minute_text = pad_onto 2 t.minute second_text in
    let hour_text = pad_onto 2 t.hour minute_text in
    let day_text = pad_onto 2 t.day (b'T' ∷ hour_text) in
    let month_text = pad_onto 2 t.month day_text in
    rw (
      take_number-pad_onto 4 t.year month_text year_fits,
      take_number-pad_onto 2 t.month day_text month_fits,
      take_number-pad_onto 2 t.day (b'T' ∷ hour_text) day_fits,
      take_number-pad_onto 2 t.hour minute_text hour_fits,
      take_number-pad_onto 2 t.minute second_text minute_fits,
      take_number-pad_onto 2 t.second (b'.' ∷ nano_text) second_fits,
      take_number-pad_onto 9 t.nano (b'Z' ∷ []) nano_fits,
      valid,
    )
