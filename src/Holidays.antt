-- ===== src/Holidays.antt =====
-- app/core/holidays.py: the public holidays of a year. The normalised key of a region
-- (`region.strip().casefold()` with its replacements) is given.
pub mod Weekdays
pub mod Easter
use on_track_rostering.Prelude.{
  ℕ, ◌+◌, ◌-◌, ◌*◌, ◌/◌, ◌%◌, Bool, true, false, Option, none, some, List, [], ◌∷◌, ◌++◌, String,
  ◌==◌, leb, map, filter, find?, any, if◌then◌else◌,
}
use text.Mathlib.Text.{◌==◌ as str_eq}
use Prim.Native.String.{◌++◌ as ◌+++◌}
use on_track_rostering.Clock.{Date}
use on_track_rostering.Clock.Civil.{Civil, date, weekday}

-- MATARIKI_DATES.
abbrev pub matariki_dates : List (ℕ × ℕ × ℕ)
matariki_dates =
    (2022, 6, 24)
    ∷ (2023, 7, 14)
    ∷ (2024, 6, 28)
    ∷ (2025, 6, 20)
    ∷ (2026, 7, 10)
    ∷ (2027, 6, 25)
    ∷ (2028, 7, 14)
    ∷ (2029, 7, 6)
    ∷ (2030, 6, 21)
    ∷ (2031, 7, 11)
    ∷ (2032, 7, 2)
    ∷ (2033, 6, 24)
    ∷ (2034, 7, 7)
    ∷ (2035, 6, 29)
    ∷ (2036, 7, 18)
    ∷ (2037, 7, 10)
    ∷ (2038, 6, 25)
    ∷ (2039, 7, 15)
    ∷ (2040, 7, 6)
    ∷ (2041, 7, 19)
    ∷ (2042, 7, 11)
    ∷ (2043, 7, 3)
    ∷ (2044, 6, 24)
    ∷ (2045, 7, 7)
    ∷ (2046, 6, 29)
    ∷ (2047, 7, 19)
    ∷ (2048, 7, 3)
    ∷ (2049, 6, 25)
    ∷ (2050, 7, 15)
    ∷ (2051, 6, 30)
    ∷ (2052, 6, 21)
    ∷ []

-- `_easter`. Subtractions are last, so that they never stop at 0.
unfoldable pub easter : ℕ → Date
unfolding date
easter year =
    let a = year % 19 in
    let b = year / 100 in
    let c = year % 100 in
    let d = b / 4 in
    let e = b % 4 in
    let f = (b + 8) / 25 in
    let g = (b + 1 - f) / 3 in
    let h = (19 * a + b + 15 - d - g) % 30 in
    let i = c / 4 in
    let k = c % 4 in
    let weekday_offset = (32 + 2 * e + 2 * i - h - k) % 7 in
    let m = (a + 11 * h + 22 * weekday_offset) / 451 in
    let month = (h + weekday_offset + 114 - 7 * m) / 31 in
    date year month ((h + weekday_offset + 114 - 7 * m) % 31 + 1)

-- `_nth_weekday`.
unfoldable pub nth_weekday : ℕ → ℕ → ℕ → ℕ → Date
unfolding date
nth_weekday year month day nth =
    let first = date year month 1 in first + ((day + 7 - weekday first) % 7 + 7 * (nth - 1))

-- `_mondayised`.
unfoldable pub mondayised : Date → Date
mondayised value = value + (if weekday value == 5 then 2 else if weekday value == 6 then 1 else 0)

-- `_nearest_monday`.
unfoldable pub nearest_monday : Date → Date
nearest_monday value =
    if leb (weekday value) 3 then value - weekday value else value + (7 - weekday value)

-- `_pair`.
unfoldable pub pair : Date → Date → Date × Date
pair first second =
    if weekday first == 5
    then (first + 2, second + 2)
    else if weekday first == 6
    then (first + 1, second + 1)
    else (first, second)

-- What `add` adds: a day with a name.
abbrev pub Row : Type 0
Row = Date × String

abbrev pub observed_row : Date → Date → String → List Row
observed_row observed actual name =
    if observed == actual then [] else (observed, name +++ " (observed)") ∷ []

-- Two holidays on days that follow each other.
abbrev pub pair_rows : Date → Date → String → String → List Row
pair_rows first second one other =
    let observed = pair first second in
    (first, one) ∷ (second, other) ∷ observed_row observed.0 first one
    ++ observed_row observed.1 second other

abbrev pub mondayised_rows : Date → String → List Row
mondayised_rows actual name = (actual, name) ∷ observed_row (mondayised actual) actual name

abbrev pub matariki_rows : ℕ → List Row
matariki_rows year = elim (find? (λ (y, _, _). y == year) matariki_dates) [
  | none ↦ []
  | some (y, month, day) ↦ (date year month day, "Matariki") ∷ []
]

abbrev pub is_one_of : String → List String → Bool
is_one_of key names = any (λ n. str_eq key n) names

-- The anniversary day of a region.
unfoldable pub anniversary_rows : ℕ → String → List Row
unfolding nth_weekday nearest_monday easter date
anniversary_rows year key =
    if is_one_of key ("auckland" ∷ "northland" ∷ "waikato" ∷ "bay-of-plenty" ∷ "gisborne" ∷ [])
    then (nearest_monday (date year 1 29), "Auckland Anniversary Day") ∷ []
    else if str_eq key "wellington"
    then (nearest_monday (date year 1 22), "Wellington Anniversary Day") ∷ []
    else if is_one_of key ("nelson" ∷ "tasman" ∷ "buller's" ∷ "buller" ∷ [])
    then (nearest_monday (date year 2 1), "Nelson Anniversary Day") ∷ []
    else if str_eq key "taranaki"
    then (nth_weekday year 3 0 2, "Taranaki Anniversary Day") ∷ []
    else if is_one_of key ("hawkes-bay" ∷ "hawke's-bay" ∷ [])
    then (nth_weekday year 10 0 4 - 3, "Hawke's Bay Anniversary Day") ∷ []
    else if str_eq key "marlborough"
    then (nth_weekday year 10 0 4 + 7, "Marlborough Anniversary Day") ∷ []
    else if str_eq key "canterbury"
    then (nth_weekday year 11 1 2 + 3, "Canterbury Anniversary Day") ∷ []
    else if str_eq key "south-canterbury"
    then (nth_weekday year 9 0 4, "South Canterbury Anniversary Day") ∷ []
    else if str_eq key "westland"
    then (nearest_monday (date year 12 1), "Westland Anniversary Day") ∷ []
    else if str_eq key "otago"
    then (nearest_monday (date year 3 23), "Otago Anniversary Day") ∷ []
    else if str_eq key "southland"
    then (easter year + 2, "Southland Anniversary Day") ∷ []
    else []

-- `holidays_for_year`: the rows in the order in which they are added, which is the order of the names
-- of a day.
unfoldable pub holidays_for_year : ℕ → String → List Row
unfolding date easter nth_weekday mondayised pair anniversary_rows
holidays_for_year year key =
    pair_rows (date year 1 1) (date year 1 2) "New Year's Day" "Day after New Year's Day"
    ++ (mondayised_rows (date year 2 6) "Waitangi Day"
        ++ (mondayised_rows (date year 4 25) "ANZAC Day"
            ++ ((easter year - 2, "Good Friday")
                  ∷ (easter year + 1, "Easter Monday")
                  ∷ (nth_weekday year 6 0 1, "King's Birthday")
                  ∷ matariki_rows year
                ++ ((nth_weekday year 10 0 4, "Labour Day")
                      ∷ pair_rows (date year 12 25) (date year 12 26) "Christmas Day" "Boxing Day"
                    ++ anniversary_rows year key))))

-- `.get(value, ())`.
abbrev pub names_on : Date → List Row → List String
names_on value rows = map (λ (d, name). name) (filter (λ (d, name). d == value) rows)

abbrev pub joined : List String → String
joined [] = ""
joined (name ∷ []) = name
joined (name ∷ other ∷ names) = name +++ (" / " +++ joined (other ∷ names))

-- `holiday_for_date`.
unfoldable pub holiday_for_date : Civil → String → String
unfolding holidays_for_year date
holiday_for_date value key =
    joined (names_on (date value.year value.month value.day) (holidays_for_year value.year key))

-- `holiday_info_for_date`: the names of a day that has some.
unfoldable pub holiday_info_for_date : Civil → String → Option (List String)
unfolding holidays_for_year date
holiday_info_for_date value key =
    elim (names_on (date value.year value.month value.day) (holidays_for_year value.year key)) [
      | [] ↦ none
      | name ∷ names ↦ some (name ∷ names)
    ]
