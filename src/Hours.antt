-- ===== src/Hours.antt =====
-- app/hours/service.py: the fortnights of the hours pages, and the text of a number of minutes.
pub mod Fortnights
use Prim.Native.String.{◌++◌ as ◌+++◌}
use on_track_rostering.Prelude.{ℕ, ◌+◌, ◌-◌, ◌*◌, ◌/◌, ◌%◌, String, ◌==◌, leb, if◌then◌else◌}
use on_track_rostering.Text.{decimal}
use on_track_rostering.Clock.{Date}

-- A signed number of fortnights.
pub data Offset : Type 0 where
  ahead : ℕ → Offset
  back : ℕ → Offset

-- The start of the fortnight of a day: `//` rounds down on either side of the anchor.
abbrev pub current_start : Date → Date → Date
current_start current anchor =
    if leb anchor current
    then anchor + (current - anchor) / 14 * 14
    else anchor - (anchor - current + 13) / 14 * 14

abbrev pub moved : Offset → Date → Date
moved (ahead n) start = start + n * 14
moved (back n) start = start - n * 14

unfoldable pub fortnight_bounds : Offset → Date → Date → Date × Date
fortnight_bounds offset current anchor =
    let start = moved offset (current_start current anchor) in (start, start + 13)

unfoldable pub format_minutes : ℕ → String
format_minutes minutes =
    let remainder = minutes % 60 in
    decimal (minutes / 60)
    +++ ("h" +++ (if remainder == 0 then "" else " " +++ (decimal remainder +++ "m")))
