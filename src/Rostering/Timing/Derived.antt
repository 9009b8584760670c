-- ===== src/Rostering/Timing/Derived.antt =====
-- What `derive_race_day_timing` derives, and when it refuses.
use on_track_rostering.Prelude.{
  ℕ, ◌+◌, ◌*◌, ◌≤◌, ◌≡◌, ◌↔◌, ◌∙◌, refl, false, some, arith, get_or, any, ltb, Bool-cases, inl, inr,
}
use on_track_rostering.Errors.{ok, err}
use on_track_rostering.Clock.{
  Date, Time, DateTime, combine, time_of, minute, day, plus_minutes, minus_minutes,
}
use on_track_rostering.Rostering.Timing.{
  TimingInput, RaceDayTiming, floor_to_quarter, clock_after, race_clear_at, out_of_range,
  derive_race_day_timing, derived_timing, durations,
}
use on_track_rostering.Rostering.Timing.Quarters.{floor_to_quarter-eq}

-- A duration that is given is at most a day.
pub record InRange (t : TimingInput) : Type 0 where
  pub setup : t.setup_lead_minutes ≤ 1440
  pub pack_up : t.pack_up_minutes ≤ 1440
  pub travel : get_or t.track_travel_minutes 0 ≤ 1440
  pub back : get_or t.return_travel_minutes 0 ≤ 1440

-- The derivation succeeds exactly when every given duration is at most 1440 minutes, and refuses
-- with its message otherwise.
pub derive_race_day_timing-ok_iff :
    (t : TimingInput)
    → (((r : RaceDayTiming) × (derive_race_day_timing t ≡ ok r)) ↔ InRange t)
      × (¬ InRange t → derive_race_day_timing t ≡ err out_of_range)
unfolding derive_race_day_timing
derive_race_day_timing-ok_iff t = (
  (λ (r, h). ground arith, λ h. (derived_timing t, ground arith)),
  λ bad. elim (Bool-cases (any (λ value. ltb 1440 value) (durations t))) [
    | inl e ↦ rw e
    | inr e ↦ absurd (bad (ground arith))
  ],
)

floor-combine :
    (d : Date) (t : Time) → time_of (floor_to_quarter (combine d t)) ≡ time_of (floor_to_quarter t)
floor-combine d t = rw (floor_to_quarter-eq (combine d t), floor_to_quarter-eq t) (omega arith)

floor-combine-ge : (d : Date) (t : Time) → d * day ≤ floor_to_quarter (combine d t)
floor-combine-ge d t = rw (floor_to_quarter-eq (combine d t)) (omega arith)

time_of-minus :
    (v : DateTime) (m : ℕ)
    → m * minute ≤ v
    → time_of (time_of (minus_minutes v m) + m * minute) ≡ time_of v
time_of-minus v m h = omega arith

time_of-plus :
    (v : DateTime) (m : ℕ) → time_of (plus_minutes v m) ≡ time_of (time_of v + m * minute)
time_of-plus v m = omega arith

-- With nothing overridden, both race times given and a work date past day zero, the derived clock times satisfy the rule of
-- the race day, read on the clock: on track plus setup is the floor of the first race, start plus
-- track travel is on track, pack-up complete is race clear plus pack-up, finish is that plus return travel.
pub derive_race_day_timing-rule :
    (t : TimingInput) (r : RaceDayTiming) (first last : Time)
    → derive_race_day_timing t ≡ ok r
    → 1 ≤ t.work_date
    → t.first_race_time ≡ some first
    → t.last_race_time ≡ some last
    → t.on_track_is_override ≡ false
    → t.start_is_override ≡ false
    → t.finish_is_override ≡ false
    → (on_track start clear done finish : Time) × (r.on_track ≡ some on_track)
      × (r.start ≡ some start)
      × (r.race_clear ≡ some clear)
      × (r.pack_up_complete ≡ some done)
      × (r.finish ≡ some finish)
      × (time_of (on_track + t.setup_lead_minutes * minute) ≡ time_of (floor_to_quarter first))
      × (time_of (start + get_or t.track_travel_minutes 0 * minute) ≡ on_track)
      × (clear ≡ time_of (race_clear_at (clock_after last (combine t.work_date on_track))))
      × (done ≡ time_of (clear + t.pack_up_minutes * minute))
      × (finish ≡ time_of (done + get_or t.return_travel_minutes 0 * minute))
unfolding derive_race_day_timing
derive_race_day_timing-rule t r first last h one ef el eo es en = (
  a,
  b,
  time_of clear,
  time_of done,
  time_of (plus_minutes done (get_or t.return_travel_minutes 0)),
  ground arith,
  ground arith,
  ground arith,
  ground arith,
  ground arith,
  time_of-minus floor t.setup_lead_minutes
        (omega (arith, floor-combine-ge t.work_date first, fits.setup))
      ∙ floor-combine t.work_date first,
  time_of-minus (combine t.work_date a) (get_or t.track_travel_minutes 0)
        (omega (arith, fits.travel))
      ∙ omega arith,
  refl,
  time_of-plus clear t.pack_up_minutes,
  time_of-plus done (get_or t.return_travel_minutes 0),
)
  where
    fits : InRange t
    fits = (derive_race_day_timing-ok_iff t).0.0 (r, h)

    floor : DateTime
    floor = floor_to_quarter (combine t.work_date first)

    a : Time
    a = time_of (minus_minutes floor t.setup_lead_minutes)

    b : Time
    b = time_of (minus_minutes (combine t.work_date a) (get_or t.track_travel_minutes 0))

    clear : DateTime
    clear = race_clear_at (clock_after last (combine t.work_date a))

    done : DateTime
    done = plus_minutes clear t.pack_up_minutes
