-- ===== src/Holidays/Weekdays.antt =====
-- The weekdays of the days that app/core/holidays.py computes.
use on_track_rostering.Prelude.{ℕ, ◌+◌, ◌-◌, ◌*◌, ◌%◌, ◌≤◌, ◌<◌, ◌≡◌, ◌≢◌, arith}
use on_track_rostering.Clock.{Date}
use on_track_rostering.Clock.Civil.{date, weekday}
use on_track_rostering.Holidays.{nth_weekday, mondayised, nearest_monday, pair}

-- The n-th given weekday of a month falls on that weekday, in the n-th seven days of the month.
pub nth_weekday_in :
    (year month day nth : ℕ)
    → day < 7
    → 1 ≤ nth
    → (weekday (nth_weekday year month day nth) ≡ day)
      × (date year month 1 + 7 * (nth - 1) ≤ nth_weekday year month day nth)
      × (nth_weekday year month day nth < date year month 1 + 7 * nth)
unfolding nth_weekday
nth_weekday_in year month day nth h k = let first = date year month 1 in go first
  where
    go :
        (first : ℕ)
        → (weekday (first + ((day + 7 - weekday first) % 7 + 7 * (nth - 1))) ≡ day)
          × (first + 7 * (nth - 1) ≤ first + ((day + 7 - weekday first) % 7 + 7 * (nth - 1)))
          × (first + ((day + 7 - weekday first) % 7 + 7 * (nth - 1)) < first + 7 * nth)
    go first = (omega arith, omega arith, omega arith)

-- A holiday of a weekend is observed on the first weekday after it, and another one on its day.
pub mondayised_first :
    (value : Date)
    → (weekday (mondayised value) < 5)
      × (value ≤ mondayised value)
      × ((d : Date) → value ≤ d → weekday d < 5 → mondayised value ≤ d)
unfolding mondayised
mondayised_first value = (ground arith, ground arith, λ d h k. ground arith)

-- The nearest Monday is a Monday at most three days away, and there is no other.
pub nearest_monday_unique :
    (value : Date)
    → 7 ≤ value
    → (weekday (nearest_monday value) ≡ 0)
      × (value ≤ nearest_monday value + 3)
      × (nearest_monday value ≤ value + 3)
      × ((d : Date) → weekday d ≡ 0 → value ≤ d + 3 → d ≤ value + 3 → d ≡ nearest_monday value)
unfolding nearest_monday
nearest_monday_unique value h = (ground arith, ground arith, ground arith, λ d m a b. ground arith)

-- Two holidays on days that follow each other are observed on two days that follow each other. They
-- are weekdays, except where the first holiday is a Friday: then the second stays on its Saturday.
pub pair_weekdays :
    (first : Date)
    → ((pair first (first + 1)).1 ≡ (pair first (first + 1)).0 + 1)
      × (weekday first ≢ 4
          → (weekday (pair first (first + 1)).0 < 5) × (weekday (pair first (first + 1)).1 < 5))
      × (weekday first ≡ 4
          → ((pair first (first + 1)).1 ≡ first + 1) × (weekday (pair first (first + 1)).1 ≡ 5))
unfolding pair
pair_weekdays first =
    (ground arith, λ h. (ground arith, ground arith), λ h. (ground arith, ground arith))
