-- ===== src/Clock/Civil.antt =====
-- Python's `date(year, month, day)`, as the number of its day (`toordinal`), and `weekday`: Monday
-- is 0 and Sunday is 6.
use on_track_rostering.Prelude.{
  ℕ, ◌+◌, ◌-◌, ◌*◌, ◌/◌, ◌%◌, Bool, ◌&&◌, ◌||◌, not, ◌==◌, ltb, if◌then◌else◌,
}
use on_track_rostering.Clock.{Date}

pub record Civil : Type 0 where
  pub year : ℕ
  pub month : ℕ
  pub day : ℕ

abbrev pub is_leap : ℕ → Bool
is_leap year = year % 4 == 0 && (not (year % 100 == 0) || year % 400 == 0)

-- The days of a common year before a month.
abbrev pub days_before : ℕ → ℕ
days_before month =
    if month == 1
    then 0
    else if month == 2
    then 31
    else if month == 3
    then 59
    else if month == 4
    then 90
    else if month == 5
    then 120
    else if month == 6
    then 151
    else if month == 7
    then 181
    else if month == 8
    then 212
    else if month == 9
    then 243
    else if month == 10
    then 273
    else if month == 11
    then 304
    else 334

unfoldable pub date : ℕ → ℕ → ℕ → Date
date year month day =
    365 * (year - 1)
    + (year - 1) / 4
    - (year - 1) / 100
    + (year - 1) / 400
    + days_before month
    + (if is_leap year && ltb 2 month then 1 else 0)
    + day

abbrev pub weekday : Date → ℕ
weekday value = (value + 6) % 7
