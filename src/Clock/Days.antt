-- ===== src/Clock/Days.antt =====
-- Facts about times of day and the days that they fall on.
use on_track_rostering.Prelude.{ℕ, ◌+◌, ◌*◌, ◌<◌, ◌≡◌, ◌⊎◌, some, arith}
use on_track_rostering.Clock.{Date, minute, worked_minutes}

-- For clock times with whole minutes, a worked span is the number of minutes to the next time that
-- the clock shows the finish, which is below one day.
pub worked_minutes-exact :
    (d : Date) (s e : ℕ)
    → s < 1440
    → e < 1440
    → (worked_minutes d (some (s * minute)) (some (e * minute)) < 1440)
      × ((s + worked_minutes d (some (s * minute)) (some (e * minute)) ≡ e)
          ⊎ (s + worked_minutes d (some (s * minute)) (some (e * minute)) ≡ e + 1440))
unfolding worked_minutes
worked_minutes-exact d s e hs he = ground arith
