-- ===== src/AuditLog/Clock.antt =====
-- The times in the names of archives: what logs.go uses of package time, in UTC and in the years 0
-- to 9999 (platform/audit/logs.go).
pub mod Digits
use llamarig.Common.{
  ℕ, zero, suc, ◌+◌, ◌-◌, ◌*◌, ◌/◌, ◌%◌, Bool, true, false, ◌&&◌, ◌||◌, not, Option, none, some,
  List, [], ◌∷◌, ltb, leb, ◌==◌, if◌then◌else◌, drop,
}
use llamarig.Common.Text.{Text}

-- The fields of a `time.Time`.
pub record Clock : Type 0 where
  pub year : ℕ
  pub month : ℕ
  pub day : ℕ
  pub hour : ℕ
  pub minute : ℕ
  pub second : ℕ
  pub nano : ℕ

-- So many digits of a number, in front of a text.
unfoldable pub pad_onto : ℕ → ℕ → Text → Text
pad_onto zero n s = s
pad_onto (suc k) n s = pad_onto k (n / 10) ((48 + n % 10) ∷ s)

-- `Format("20060102T150405.000000000Z")`.
unfoldable pub format_clock : Clock → Text → Text
format_clock t rest = pad_onto 4 t.year (
    pad_onto 2 t.month (
      pad_onto 2 t.day (
        b'T'
        ∷ pad_onto 2 t.hour
            (pad_onto 2 t.minute (pad_onto 2 t.second (b'.' ∷ pad_onto 9 t.nano (b'Z' ∷ rest)))))))

-- The number that so many digits write, and the text behind them.
unfoldable pub take_number : ℕ → ℕ → Text → ℕ × Text
take_number zero n s = (n, s)
take_number (suc k) n [] = (n, [])
take_number (suc k) n (c ∷ s) = take_number k (n * 10 + (c - 48)) s

abbrev pub is_leap : ℕ → Bool
is_leap y = y % 4 == 0 && (not (y % 100 == 0) || y % 400 == 0)

unfoldable pub days_in : ℕ → ℕ → ℕ
days_in y m =
    if m == 2
    then (if is_leap y then 29 else 28)
    else if m == 4 || m == 6 || m == 9 || m == 11
    then 30
    else 31

-- The ranges that `time.Parse` checks.
unfoldable pub in_range : Clock → Bool
unfolding days_in
in_range t =
    leb 1 t.month
    && leb t.month 12
    && leb 1 t.day
    && leb t.day (days_in t.year t.month)
    && ltb t.hour 24
    && ltb t.minute 60
    && ltb t.second 60

abbrev pub checked : Clock → Option Clock
checked t = if in_range t then some t else none

-- `time.Parse` with that layout, of a text that has its shape.
unfoldable pub parse_clock : Text → Option Clock
parse_clock s =
    let (year, s) = take_number 4 0 s in
    let (month, s) = take_number 2 0 s in
    let (day, s) = take_number 2 0 s in
    let (hour, s) = take_number 2 0 (drop 1 s) in
    let (minute, s) = take_number 2 0 s in
    let (second, s) = take_number 2 0 s in
    let (nano, s) = take_number 9 0 (drop 1 s) in
    checked (record {
      year = year;
      month = month;
      day = day;
      hour = hour;
      minute = minute;
      second = second;
      nano = nano;
    })

-- The leap years before a year, from the year 0 on.
abbrev pub leap_years : ℕ → ℕ
leap_years y = (y + 3) / 4 - (y + 99) / 100 + (y + 399) / 400

-- The days of the months before a month.
unfoldable pub days_before : ℕ → ℕ → ℕ
unfolding days_in
days_before y zero = 0
days_before y (suc m) = days_before y m + (if m == 0 then 0 else days_in y m)

-- Nanoseconds since the beginning of the year 0.
unfoldable pub instant : Clock → ℕ
unfolding days_before
instant t =
    let days = 365 * t.year + leap_years t.year + days_before t.year t.month + (t.day - 1) in
    (((days * 24 + t.hour) * 60 + t.minute) * 60 + t.second) * 1000000000 + t.nano
