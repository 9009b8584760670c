-- ===== src/Examples/Calendar.antt =====
-- Public holidays of known years, and texts of times.
use on_track_rostering.Prelude.{◌+◌, ◌*◌, ◌%◌, some, ◌≡◌, ◌≢◌, ◌≤◌, ◌<◌, refl, none, some, arith}
use on_track_rostering.Errors.{ok, err}
use on_track_rostering.Text.{strip, codes}
use on_track_rostering.Clock.{Date, minute, day}
use on_track_rostering.Clock.Display.{display_time, parse_time, out_of_day, not_a_time}
use on_track_rostering.Clock.Display.RoundTrip.{parse_time-display_time, parse_time-bounds}
use on_track_rostering.Clock.Civil.{date, weekday}
use on_track_rostering.Holidays.{
  easter, nth_weekday, mondayised, nearest_monday, pair, holidays_for_year, holiday_for_date,
  anniversary_rows,
}
use on_track_rostering.Holidays.Weekdays.{nearest_monday_unique, pair_weekdays}
use on_track_rostering.Holidays.Easter.{easter_sunday}

-- 1 January 1970 is day 719163, a Thursday.
epoch : (date 1970 1 1 ≡ 719163) × (weekday (date 1970 1 1) ≡ 3)
unfolding date
epoch = (refl, refl)

easter_2026 : easter 2026 ≡ date 2026 4 5
unfolding easter date
easter_2026 = refl

waitangi_2027 :
    holiday_for_date (record { year = 2027; month = 2; day = 8 }) "otago"
    ≡ "Waitangi Day (observed)"
unfolding holiday_for_date holidays_for_year anniversary_rows nearest_monday nth_weekday mondayised
    pair easter date
waitangi_2027 = refl

-- In 2020 Boxing Day is a Saturday, and its Monday is no holiday.
boxing_2020 : holiday_for_date (record { year = 2020; month = 12; day = 28 }) "" ≡ ""
unfolding holiday_for_date holidays_for_year anniversary_rows nearest_monday nth_weekday mondayised
    pair easter date
boxing_2020 = refl

nearest_monday_unique_example :
    (weekday (nearest_monday 740000) ≡ 0)
    × (740000 ≤ nearest_monday 740000 + 3)
    × (nearest_monday 740000 ≤ 740003)
    × ((d : Date) → weekday d ≡ 0 → 740000 ≤ d + 3 → d ≤ 740003 → d ≡ nearest_monday 740000)
nearest_monday_unique_example = nearest_monday_unique 740000 (omega arith)

-- 737784 is 25 December 2020, a Friday.
pair_weekdays_example :
    ((pair 737784 737785).1 ≡ (pair 737784 737785).0 + 1)
    × (weekday 737784 ≢ 4
        → (weekday (pair 737784 737785).0 < 5) × (weekday (pair 737784 737785).1 < 5))
    × (weekday 737784 ≡ 4
        → ((pair 737784 737785).1 ≡ 737785) × (weekday (pair 737784 737785).1 ≡ 5))
pair_weekdays_example = pair_weekdays 737784

easter_sunday_example :
    (weekday (easter 2026) ≡ 6) × (date 2026 3 22 ≤ easter 2026) × (easter 2026 ≤ date 2026 4 25)
easter_sunday_example = easter_sunday 2026 (omega arith) (omega arith)

-- 09:30, with and without a colon.
half_past_nine :
    (parse_time " 930 " ≡ ok (some (570 * minute)))
    × (parse_time "9:30" ≡ ok (some (570 * minute)))
    × (parse_time "24:00" ≡ err out_of_day)
    × (parse_time "9" ≡ err not_a_time)
unfolding parse_time strip codes
half_past_nine = (refl, refl, refl, refl)

parse_time-display_time_example :
    (parse_time (display_time (some (570 * minute + 5))) ≡ ok (some (570 * minute)))
    × (parse_time (display_time none) ≡ ok none)
parse_time-display_time_example = parse_time-display_time (570 * minute + 5) (omega arith)

parsed : parse_time "9:30" ≡ ok (some (570 * minute))
parsed = half_past_nine.1

parse_time-bounds_example : (570 * minute < day) × ((570 * minute) % minute ≡ 0)
parse_time-bounds_example = parse_time-bounds "9:30" (570 * minute) parsed
