-- ===== src/Holidays/Easter.antt =====
-- Easter of app/core/holidays.py, over the years of the program's use.
use on_track_rostering.Prelude.{
  ℕ, ◌≤◌, ◌<◌, ◌≡◌, refl, arith, Bool, true, ◌&&◌, ◌==◌, leb, holds_from, holds_from-each,
}
use on_track_rostering.Clock.Civil.{date, weekday}
use on_track_rostering.Holidays.{easter}

abbrev is_easter : ℕ → Bool
is_easter year =
    weekday (easter year) == 6
    && leb (date year 3 22) (easter year)
    && leb (easter year) (date year 4 25)

checked : holds_from is_easter 1900 300 ≡ true
unfolding easter date
checked = refl

-- In the years from 1900 to 2199, Easter is a Sunday from 22 March to 25 April.
pub easter_sunday :
    (year : ℕ)
    → 1900 ≤ year
    → year < 2200
    → (weekday (easter year) ≡ 6) × (date year 3 22 ≤ easter year) × (easter year ≤ date year 4 25)
easter_sunday year h k =
    let test = holds_from-each is_easter 1900 300 checked year h (omega arith) in
    (ground arith, ground arith, ground arith)
