-- ===== src/Hours/Fortnights.antt =====
-- The fortnights follow one another from the anchor on, and back from it.
use on_track_rostering.Prelude.{ℕ, suc, ◌+◌, ◌*◌, ◌%◌, ◌≤◌, ◌≡◌, arith}
use on_track_rostering.Clock.{Date}
use on_track_rostering.Hours.{ahead, back, fortnight_bounds}

-- The fortnight without an offset holds the day, and starts a whole number of fortnights from the
-- anchor, on either side of it. It is fourteen days long, each offset ahead starts the day after the
-- one before it ends, and an offset back ends the day before the next one starts, as long as the
-- calendar reaches.
pub fortnight_bounds_tile :
    (current anchor : Date) (n : ℕ)
    → 13 ≤ current
    → ((fortnight_bounds (ahead 0) current anchor).0 ≤ current)
      × (current ≤ (fortnight_bounds (ahead 0) current anchor).1)
      × ((fortnight_bounds (ahead 0) current anchor).0 % 14 ≡ anchor % 14)
      × ((fortnight_bounds (ahead n) current anchor).1
          ≡ (fortnight_bounds (ahead n) current anchor).0 + 13)
      × ((fortnight_bounds (ahead (suc n)) current anchor).0
          ≡ (fortnight_bounds (ahead n) current anchor).1 + 1)
      × (n * 14 + 27 ≤ current
          → (fortnight_bounds (back (suc n)) current anchor).1 + 1
            ≡ (fortnight_bounds (back n) current anchor).0)
unfolding fortnight_bounds
fortnight_bounds_tile current anchor n h =
    (ground arith, ground arith, ground arith, ground arith, ground arith, λ k. ground arith)
