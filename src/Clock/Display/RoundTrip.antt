-- ===== src/Clock/Display/RoundTrip.antt =====
-- A time that is shown is read again, and what is read is a whole minute of the day.
use on_track_rostering.Prelude.{
  ℕ, ◌+◌, ◌*◌, ◌/◌, ◌%◌, ◌<◌, ◌≡◌, refl, arith, inl, inr, Bool, true, false, ◌&&◌, Option, none,
  some, List, [], ◌∷◌, String, ◌==◌, ltb, Bool-cases, holds_from, holds_from-each,
}
use on_track_rostering.Text.{strip, codes}
use on_track_rostering.Errors.{Result, ok, err, ok-injective}
use on_track_rostering.Clock.{Time, minute, hour, day}
use on_track_rostering.Clock.Display.{display_time, parse_time, clock_of, clock_parts, parse_codes}

abbrev is_read_as : Time → Result (Option Time) → Bool
is_read_as t (err e) = false
is_read_as t (ok none) = false
is_read_as t (ok (some u)) = u == t

is_read_as-eq : (t : Time) (r : Result (Option Time)) → is_read_as t r ≡ true → r ≡ ok (some t)
is_read_as-eq t (err e) h = cc
is_read_as-eq t (ok none) h = cc
is_read_as-eq t (ok (some u)) h = ground arith

-- The minutes of a day.
abbrev reads_minute : ℕ → Bool
reads_minute n = is_read_as (n * minute) (parse_time (display_time (some (n * minute))))

checked : holds_from reads_minute 0 1440 ≡ true
unfolding parse_time display_time strip codes
checked = refl

-- What is shown depends on the minute alone.
display_time-minute : (t : Time) → display_time (some t) ≡ display_time (some (t / minute * minute))
unfolding display_time
display_time-minute t =
    let h : t / minute * minute / hour ≡ t / hour = omega arith in
    let m : t / minute * minute / minute ≡ t / minute = omega arith in rw (h, m) refl

-- A time of the day that is shown is read again as its whole minute, and no time as none.
pub parse_time-display_time :
    (t : Time)
    → t < day
    → (parse_time (display_time (some t)) ≡ ok (some (t / minute * minute)))
      × (parse_time (display_time none) ≡ ok none)
unfolding parse_time display_time strip codes
parse_time-display_time t h = (
  rw (display_time-minute t) (
      is_read_as-eq (t / minute * minute) (parse_time (display_time (some (t / minute * minute))))
        (holds_from-each reads_minute 0 1440 checked (t / minute) (omega arith) (omega arith))),
  refl,
)

clock_of-bounds :
    (parts : Option (ℕ × ℕ)) (t : Time)
    → clock_of parts ≡ ok (some t)
    → (t < day) × (t % minute ≡ 0)
clock_of-bounds none t e = cc
clock_of-bounds (some (h, m)) t e = elim (Bool-cases (ltb h 24 && ltb m 60)) [
  | inr n ↦ cc (rw n at e)
  | inl y ↦
      let same : h * hour + m * minute ≡ t = cc (ok-injective (rw y at e)) in
      (ground arith, ground arith)
]

-- Whatever text is read as a time, the time is a whole minute of the day.
pub parse_time-bounds :
    (text : String) (t : Time) → parse_time text ≡ ok (some t) → (t < day) × (t % minute ≡ 0)
unfolding parse_time
parse_time-bounds text t h = go (codes (strip text)) h
  where
    go : (cs : List ℕ) → parse_codes cs ≡ ok (some t) → (t < day) × (t % minute ≡ 0)
    go [] e = cc
    go (c ∷ cs) e = clock_of-bounds (clock_parts (c ∷ cs)) t e
