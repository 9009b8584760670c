-- ===== src/Examples/Timing.antt =====
-- Timing, travel and worked time on the example day, and on a race day from noon to 16:40.
use on_track_rostering.Prelude.{◌+◌, ◌*◌, ◌≤◌, ◌<◌, ◌≡◌, ◌⊎◌, refl, none, some, true, false, arith}
use on_track_rostering.Errors.{ok}
use on_track_rostering.Clock.{Time, DateTime, minute, day, time_of, date_of, combine}
use on_track_rostering.Rostering.Timing.{
  TimingInput, RaceDayTiming, floor_to_quarter, ceil_to_quarter, clock_after, race_clear_at,
  derive_race_day_timing,
}
use on_track_rostering.Rostering.Timing.Quarters.{clock_after_unique}
use on_track_rostering.Rostering.Timing.Derived.{derive_race_day_timing-rule}
use on_track_rostering.Rostering.Travel.Effective.{effective_person_travel, clock_on_workday}
use on_track_rostering.Rostering.Travel.Interval.{
  interval_start, interval_finish, effective_person_interval, roll_past,
}
use on_track_rostering.Rostering.Travel.Rollover.{interval_ordered, truck_interval-offset_again}
use on_track_rostering.Rostering.Travel.Window.{IsWithin, interval_window}
use on_track_rostering.Rostering.Travel.Standard.{TravelInput, pos}
use on_track_rostering.Examples.{published_day, driver, assignment}

abbrev starts : DateTime
starts = combine 20000 (600 * minute)

abbrev ends : DateTime
ends = combine 20000 (1080 * minute)

row_starts : (effective_person_interval published_day (assignment 21 1)).start ≡ some starts
unfolding effective_person_interval interval_start clock_on_workday
row_starts = refl

row_ends : (effective_person_interval published_day (assignment 21 1)).finish ≡ some ends
unfolding effective_person_interval interval_start interval_finish clock_on_workday roll_past
row_ends = refl

interval_ordered_example :
    (f : DateTime) × (interval_finish published_day
        (assignment 21 1)
        (effective_person_travel published_day (assignment 21 1))
      ≡ some f)
    × (starts < ends)
    × (time_of ends ≡ time_of f)
    × ((ends ≡ f) ⊎ (ends ≤ starts + day))
interval_ordered_example =
    interval_ordered published_day (assignment 21 1) starts ends row_starts row_ends

row-IsWithin : IsWithin published_day (assignment 21 1)
row-IsWithin = record {
  same_day = λ start end hs he. ground arith;
  start = omega arith;
  end = omega arith;
  last_race = omega arith;
  last_trial = tt;
  on_track = omega arith;
  own_start = tt;
  own_end = tt;
  hotel = omega arith;
  own_hotel = omega arith;
  pack_up = omega arith;
  truck = omega arith;
  own_return = omega arith;
}

interval_window_example : (20000 ≤ date_of starts + 1) × (date_of ends ≤ 20000 + 3)
interval_window_example =
    interval_window published_day (assignment 21 1) starts ends row-IsWithin row_starts row_ends

truck_interval-offset_again_example :
    (t : Time) × (s : DateTime) × ((effective_person_travel published_day driver).start ≡ some t)
    × ((effective_person_interval published_day driver).start ≡ some s)
    × (t + 15 * minute ≡ 600 * minute)
    × (s + 15 * minute ≡ combine 20000 t)
truck_interval-offset_again_example =
    truck_interval-offset_again published_day driver (600 * minute) (1080 * minute) (600 * minute)
      refl refl refl refl (omega arith) (omega arith) (omega arith) (omega arith)

abbrev race_day : TimingInput
race_day = record {
  work_date = 20000;
  first_race_time = some (727 * minute);
  last_race_time = some (1000 * minute);
  setup_lead_minutes = 60;
  track_travel_minutes = some 45;
  pack_up_minutes = 60;
  return_travel_minutes = some 45;
  on_track_time = none;
  on_track_is_override = false;
  start_time = none;
  start_is_override = false;
  finish_time = none;
  finish_is_override = false;
}

-- On track at 11:00, clear at 17:00, home at 18:45.
abbrev race_day_timing : RaceDayTiming
race_day_timing = record {
  first_race_floor = some (720 * minute);
  on_track = some (660 * minute);
  start = some (615 * minute);
  race_clear = some (1020 * minute);
  pack_up_complete = some (1080 * minute);
  finish = some (1125 * minute);
}

derived : derive_race_day_timing race_day ≡ ok race_day_timing
unfolding derive_race_day_timing floor_to_quarter ceil_to_quarter clock_after race_clear_at
derived = refl

derive_race_day_timing-rule_example :
    (on_track start clear done finish : Time) × (race_day_timing.on_track ≡ some on_track)
    × (race_day_timing.start ≡ some start)
    × (race_day_timing.race_clear ≡ some clear)
    × (race_day_timing.pack_up_complete ≡ some done)
    × (race_day_timing.finish ≡ some finish)
    × (time_of (on_track + 60 * minute) ≡ time_of (floor_to_quarter (727 * minute)))
    × (time_of (start + 45 * minute) ≡ on_track)
    × (clear ≡ time_of (race_clear_at (clock_after (1000 * minute) (combine 20000 on_track))))
    × (done ≡ time_of (clear + 60 * minute))
    × (finish ≡ time_of (done + 45 * minute))
derive_race_day_timing-rule_example =
    derive_race_day_timing-rule race_day race_day_timing (727 * minute) (1000 * minute) derived
      (omega arith) refl refl refl refl refl

abbrev overnight : TravelInput
overnight = record {
  race_date = 20000;
  on_track_time = 660 * minute;
  last_race_time = some (1000 * minute);
  departure_time = 900 * minute;
  travel_to_hotel_minutes = pos 180;
  hotel_to_track_minutes = pos 20;
  pack_up_minutes = pos 60;
  return_travel_minutes = some (pos 200);
  explicit_finish_time = none;
  apply_race_clearance = true;
}

-- A clock time of 00:10 after 23:00.
clock_after_unique_example :
    (combine 20000 (1380 * minute) ≤ clock_after (10 * minute) (combine 20000 (1380 * minute)))
    × (clock_after (10 * minute) (combine 20000 (1380 * minute))
        < combine 20000 (1380 * minute) + day)
    × (time_of (clock_after (10 * minute) (combine 20000 (1380 * minute))) ≡ 10 * minute)
    × ((x : DateTime)
        → time_of x ≡ 10 * minute
        → combine 20000 (1380 * minute) ≤ x
        → x < combine 20000 (1380 * minute) + day
        → x ≡ clock_after (10 * minute) (combine 20000 (1380 * minute)))
clock_after_unique_example =
    clock_after_unique (10 * minute) (combine 20000 (1380 * minute)) (omega arith)
