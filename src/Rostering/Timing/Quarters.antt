-- ===== src/Rostering/Timing/Quarters.antt =====
-- Rounding to quarter hours, and clock times after a reference.
use on_track_rostering.Prelude.{ℕ, ◌+◌, ◌-◌, ◌*◌, ◌/◌, ◌%◌, ◌≤◌, ◌<◌, ◌≡◌, arith}
use on_track_rostering.Clock.{Time, DateTime, time_of, minute, day}
use on_track_rostering.Rostering.Timing.{
  floor_to_quarter, ceil_to_quarter, clock_after, race_clear_at,
}

abbrev pub quarter : ℕ
quarter = 900000000

pub floor_to_quarter-eq : (v : DateTime) → floor_to_quarter v ≡ v / quarter * quarter
unfolding floor_to_quarter
floor_to_quarter-eq v = ground arith

pub ceil_to_quarter-eq :
    (v : DateTime) → ceil_to_quarter v ≡ (v + (quarter - 1)) / quarter * quarter
unfolding ceil_to_quarter
ceil_to_quarter-eq v = ground arith

-- Rounding down gives the last quarter-hour boundary that is not after the value: a boundary that
-- is not after the value is not after the result, and the result is one.
pub floor_to_quarter-greatest :
    (v : DateTime)
    → (floor_to_quarter v % quarter ≡ 0)
      × (floor_to_quarter v ≤ v)
      × ((q : ℕ) → q * quarter ≤ v → q * quarter ≤ floor_to_quarter v)
floor_to_quarter-greatest v =
    rw (floor_to_quarter-eq v) (omega arith, omega arith, λ q h. omega arith)

-- Rounding up gives the first quarter-hour boundary that is not before the value, whatever the
-- seconds and microseconds.
pub ceil_to_quarter-least :
    (v : DateTime)
    → (ceil_to_quarter v % quarter ≡ 0)
      × (v ≤ ceil_to_quarter v)
      × ((q : ℕ) → v ≤ q * quarter → ceil_to_quarter v ≤ q * quarter)
ceil_to_quarter-least v = rw (ceil_to_quarter-eq v) (omega arith, omega arith, λ q h. omega arith)

pub ceil_to_quarter-lt : (v : DateTime) → ceil_to_quarter v < v + quarter
ceil_to_quarter-lt v = rw (ceil_to_quarter-eq v) (omega arith)

pub clock_after-bounds :
    (value : Time) (reference : DateTime)
    → value < day
    → (reference ≤ clock_after value reference) × (clock_after value reference < reference + day)
unfolding clock_after
clock_after-bounds value reference h = ground arith

-- A clock time below a day, taken after a reference, is shown by the clock within the day that starts at the
-- reference, and no other instant of that day shows it.
pub clock_after_unique :
    (value : Time) (reference : DateTime)
    → value < day
    → (reference ≤ clock_after value reference)
      × (clock_after value reference < reference + day)
      × (time_of (clock_after value reference) ≡ value)
      × ((x : DateTime)
          → time_of x ≡ value
          → reference ≤ x
          → x < reference + day
          → x ≡ clock_after value reference)
unfolding clock_after
clock_after_unique value reference h =
    (ground arith, ground arith, ground arith, λ x e lo hi. ground arith)

-- The track is clear at the first quarter-hour boundary at least ten minutes after the start of the
-- last race, so less than twenty-five minutes after it.
pub race_clear_at-bounds :
    (last : DateTime)
    → (race_clear_at last % quarter ≡ 0)
      × (last + 10 * minute ≤ race_clear_at last)
      × (race_clear_at last < last + 25 * minute)
unfolding race_clear_at
race_clear_at-bounds last = rw (ceil_to_quarter-eq (last + 10 * minute)) (omega arith)
