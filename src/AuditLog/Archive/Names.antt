-- ===== src/AuditLog/Archive/Names.antt =====
-- The name that an archive is given is read back as the log's name and the time.
use llamarig.Common.{
  ℕ, suc, ◌+◌, ◌-◌, ◌%◌, ◌≡◌, refl, ap, ◌∙◌, true, some, [], ◌∷◌, ◌++◌, arith, length, take, drop,
  length-append,
}
use llamarig.Common.Text.{Text, codes}
use llamarig.AuditLog.{is_log_name}
use llamarig.AuditLog.Clock.{Clock, pad_onto, format_clock}
use llamarig.AuditLog.Archive.{
  archive_id, fits, stamp_shape, is_digit, matched_at, match_archive_name,
}

digit_fits : (n : ℕ) → is_digit (48 + n % 10) ≡ true
digit_fits n = ground arith

fits_stamp : (now : Clock) → fits stamp_shape (b'-' ∷ format_clock now (codes ".log")) ≡ true
unfolding fits format_clock pad_onto
fits_stamp now = simp digit_fits

-- The part that is the time.
take_stamp : (now : Clock) → take 26 (format_clock now (codes ".log")) ≡ format_clock now []
unfolding format_clock pad_onto
take_stamp now = refl

length-stamp : (now : Clock) → length (b'-' ∷ format_clock now (codes ".log")) ≡ 31
unfolding format_clock pad_onto
length-stamp now = refl

drop_name : (name rest : Text) → drop (length name) (name ++ rest) ≡ rest
drop_name [] rest = refl
drop_name (c ∷ name) rest = drop_name name rest

take_name : (name rest : Text) → take (length name) (name ++ rest) ≡ name
take_name [] rest = refl
take_name (c ∷ name) rest = ap (◌∷◌ c) (take_name name rest)

drop_past : (name : Text) (c : ℕ) (rest : Text) → drop (suc (length name)) (name ++ c ∷ rest) ≡ rest
drop_past [] c rest = refl
drop_past (x ∷ name) c rest = drop_past name c rest

matched_at-append :
    (name : Text) (c : ℕ) (rest : Text)
    → is_log_name name ≡ true
    → fits stamp_shape (c ∷ rest) ≡ true
    → matched_at (length name) (name ++ c ∷ rest) ≡ some (name, take 26 rest)
matched_at-append name c rest valid shape =
    rw (take_name name (c ∷ rest), drop_name name (c ∷ rest), drop_past name c rest, valid, shape)

-- The id of an archive matches, and gives back the log's name and the time.
pub match_archive_name-archive_id :
    (name : Text) (now : Clock)
    → is_log_name name ≡ true
    → match_archive_name (archive_id name now) ≡ some (name, format_clock now [])
unfolding match_archive_name archive_id
match_archive_name-archive_id name now valid =
    let suffix = b'-' ∷ format_clock now (codes ".log") in
    let at : length (name ++ suffix) - 31 ≡ length name =
      omega (arith, length-append name suffix, length-stamp now) in
    ap (λ (k : ℕ). matched_at k (name ++ suffix)) at
    ∙ matched_at-append name b'-' (format_clock now (codes ".log")) valid (fits_stamp now)
    ∙ ap (λ (t : Text). some (name, t)) (take_stamp now)
