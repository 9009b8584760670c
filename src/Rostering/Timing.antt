-- ===== src/Rostering/Timing.antt =====
-- app/rostering/timing.py
pub mod Quarters
pub mod Derived
use on_track_rostering.Prelude.{
  ℕ, ◌+◌, ◌-◌, ◌*◌, ◌%◌, Bool, true, false, ◌||◌, Option, none, some, List, [], ◌∷◌, ◌++◌, any, ltb,
  ◌==◌, not, get_or, if◌then◌else◌,
}
use mathlib.Core.Option
use on_track_rostering.Errors.{Result, ok, err, Error, value_error, ◌>>=◌, ◌>>◌, reject_if}
use on_track_rostering.Clock.{
  Date, Time, DateTime, day, minute, combine, date_of, time_of, minute_of, second_of,
  microsecond_of, replace_minute, replace_second, plus_minutes, minus_minutes,
}

abbrev pub last_race_clearance_minutes : ℕ
last_race_clearance_minutes = 10

pub record RaceDayTiming : Type 0 where
  pub first_race_floor : Option Time
  pub on_track : Option Time
  pub start : Option Time
  pub race_clear : Option Time
  pub pack_up_complete : Option Time
  pub finish : Option Time

unfoldable pub floor_to_quarter : DateTime → DateTime
floor_to_quarter value = replace_minute value (minute_of value - minute_of value % 15)

unfoldable pub ceil_to_quarter : DateTime → DateTime
ceil_to_quarter value = replace_second (
    if not (second_of value == 0)
      || not (microsecond_of value == 0)
      || not (minute_of value % 15 == 0)
    then plus_minutes value (15 - minute_of value % 15)
    else value)

-- `clock_after(value, reference=reference)`.
unfoldable pub clock_after : Time → DateTime → DateTime
clock_after value reference =
    let result = combine (date_of reference) value in
    if ltb result reference then result + day else result

unfoldable pub race_clear_at : DateTime → DateTime
race_clear_at last_race_at = ceil_to_quarter (plus_minutes last_race_at last_race_clearance_minutes)

-- `*(() if value is None else (value,))`.
abbrev given : Option ℕ → List ℕ
given none = []
given (some value) = value ∷ []

-- The keyword arguments of `derive_race_day_timing`.
pub record TimingInput : Type 0 where
  pub work_date : Date
  pub first_race_time : Option Time
  pub last_race_time : Option Time
  pub setup_lead_minutes : ℕ
  pub track_travel_minutes : Option ℕ
  pub pack_up_minutes : ℕ
  pub return_travel_minutes : Option ℕ
  pub on_track_time : Option Time
  pub on_track_is_override : Bool
  pub start_time : Option Time
  pub start_is_override : Bool
  pub finish_time : Option Time
  pub finish_is_override : Bool

durations : TimingInput → List ℕ
durations t =
    t.setup_lead_minutes
    ∷ t.pack_up_minutes
    ∷ (given t.track_travel_minutes ++ given t.return_travel_minutes)

first_floor : TimingInput → Option DateTime
first_floor t = Option.map (λ time. floor_to_quarter (combine t.work_date time)) t.first_race_time

derived_on_track : TimingInput → Option Time
derived_on_track t =
    if t.on_track_is_override
    then t.on_track_time
    else Option.map (λ floor. time_of (minus_minutes floor t.setup_lead_minutes)) (first_floor t)

derived_start : TimingInput → Option Time
derived_start t =
    if t.start_is_override
    then t.start_time
    else Option.map
        (λ time.
          time_of (minus_minutes (combine t.work_date time) (get_or t.track_travel_minutes 0)))
        (derived_on_track t)

derived_race_clear : TimingInput → Option DateTime
derived_race_clear t =
    Option.map
      (λ last.
        race_clear_at (clock_after last (combine t.work_date (get_or (derived_on_track t) 0))))
      t.last_race_time

derived_pack_up : TimingInput → Option DateTime
derived_pack_up t =
    Option.map (λ clear. plus_minutes clear t.pack_up_minutes) (derived_race_clear t)

derived_finish : TimingInput → Option Time
derived_finish t =
    if t.finish_is_override
    then t.finish_time
    else Option.map (λ done. time_of (plus_minutes done (get_or t.return_travel_minutes 0)))
        (derived_pack_up t)

abbrev pub out_of_range : Error
out_of_range = value_error "Race Day timing durations must be between 0 and 1440 minutes."

derived_timing : TimingInput → RaceDayTiming
unfolding first_floor derived_on_track derived_start derived_race_clear derived_pack_up
    derived_finish
derived_timing t = record {
  first_race_floor = Option.map time_of (first_floor t);
  on_track = derived_on_track t;
  start = derived_start t;
  race_clear = Option.map time_of (derived_race_clear t);
  pack_up_complete = Option.map time_of (derived_pack_up t);
  finish = derived_finish t;
}

-- A duration is a natural number here, so of the test for a value below 0 or above 1440 the second
-- half is left.
unfoldable pub derive_race_day_timing : TimingInput → Result RaceDayTiming
unfolding durations derived_timing
derive_race_day_timing t = do
  reject_if (any (λ value. ltb 1440 value) (durations t)) out_of_range
  ok (derived_timing t)
