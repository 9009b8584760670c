-- ===== src/Rostering/Travel/Standard.antt =====
-- `calculate_standard_travel`: the overnight plan of a race or trials day.
pub mod Plan
use on_track_rostering.Prelude.{
  ℕ, suc, List, [], ◌∷◌, any, ◌-◌, ◌*◌, Bool, true, false, ◌&&◌, ◌||◌, Option, none, some, ◌==◌,
  is_some, is_none, get_or, or_else, if◌then◌else◌,
}
use on_track_rostering.Errors.{Error, Result, ok, err, value_error, ◌>>=◌, ◌>>◌, reject_if}
use on_track_rostering.Clock.{Date, Time, DateTime, combine, time_of, plus_minutes, minus_minutes}
use on_track_rostering.Rostering.Timing.{clock_after, race_clear_at, ceil_to_quarter}

pub record StandardTravelCalculation : Type 0 where
  pub travel_date : Date
  pub travel_start : Time
  pub travel_finish : Time
  pub race_start : Time
  pub race_clear : Time
  pub pack_up_done : Time
  pub race_finish : Time

-- A duration in minutes may be given as a negative integer, which the calculation refuses.
pub data ℤ : Type 0 where
  pos : ℕ → ℤ
  negsuc : ℕ → ℤ

abbrev pub is_negative : ℤ → Bool
is_negative (pos n) = false
is_negative (negsuc n) = true

-- An instant and a signed number of minutes after it, or before it.
abbrev pub minutes_after : DateTime → ℤ → DateTime
minutes_after t (pos n) = plus_minutes t n
minutes_after t (negsuc n) = minus_minutes t (suc n)

abbrev pub minutes_before : DateTime → ℤ → DateTime
minutes_before t (pos n) = minus_minutes t n
minutes_before t (negsuc n) = plus_minutes t (suc n)

-- The keyword arguments.
pub record TravelInput : Type 0 where
  pub race_date : Date
  pub on_track_time : Time
  pub last_race_time : Option Time
  pub departure_time : Time
  pub travel_to_hotel_minutes : ℤ
  pub hotel_to_track_minutes : ℤ
  pub pack_up_minutes : ℤ
  pub return_travel_minutes : Option ℤ
  pub explicit_finish_time : Option Time
  pub apply_race_clearance : Bool

abbrev pub incomplete_travel : Error
incomplete_travel =
    value_error "Last event and return travel are required unless Finish is supplied."

abbrev pub negative_durations : Error
negative_durations = value_error "Travel and pack-up durations cannot be negative."

-- `durations`, of which the least is negative exactly when one is.
abbrev pub given_duration : Option ℤ → List ℤ
given_duration none = []
given_duration (some m) = m ∷ []

abbrev pub travel_durations : TravelInput → List ℤ
travel_durations t =
    t.travel_to_hotel_minutes
    ∷ t.hotel_to_track_minutes
    ∷ t.pack_up_minutes
    ∷ given_duration t.return_travel_minutes

abbrev pub on_track_at : TravelInput → DateTime
on_track_at t = combine t.race_date t.on_track_time

abbrev pub travel_start_at : TravelInput → DateTime
travel_start_at t = combine (t.race_date - 1) t.departure_time

-- Race clear, where the last event is known.
abbrev pub race_clear_from : TravelInput → Time → DateTime
race_clear_from t last =
    let last_race_at = clock_after last (on_track_at t) in
    if t.apply_race_clearance then race_clear_at last_race_at else ceil_to_quarter last_race_at

abbrev pub pack_up_done_at : TravelInput → DateTime
pack_up_done_at t = elim t.last_race_time [
  | some last ↦ minutes_after (race_clear_from t last) t.pack_up_minutes
  | none ↦ clock_after (get_or t.explicit_finish_time 0) (on_track_at t)
]

abbrev pub race_clear_value : TravelInput → DateTime
race_clear_value t = elim t.last_race_time [
  | some last ↦ race_clear_from t last
  | none ↦ pack_up_done_at t
]

abbrev pub race_finish_at : TravelInput → DateTime
race_finish_at t = elim t.explicit_finish_time [
  | some finish ↦ clock_after finish (on_track_at t)
  | none ↦ minutes_after (pack_up_done_at t) (get_or t.return_travel_minutes (pos 0))
]

abbrev pub standard_plan : TravelInput → StandardTravelCalculation
standard_plan t = record {
  travel_date = t.race_date - 1;
  travel_start = time_of (travel_start_at t);
  travel_finish = time_of (minutes_after (travel_start_at t) t.travel_to_hotel_minutes);
  race_start = time_of (minutes_before (on_track_at t) t.hotel_to_track_minutes);
  race_clear = time_of (race_clear_value t);
  pack_up_done = time_of (pack_up_done_at t);
  race_finish = time_of (race_finish_at t);
}

unfoldable pub calculate_standard_travel : TravelInput → Result StandardTravelCalculation
calculate_standard_travel t = do
  reject_if (any is_negative (travel_durations t)) negative_durations
  reject_if
      (is_none t.explicit_finish_time
        && (is_none t.last_race_time || is_none t.return_travel_minutes))
      incomplete_travel
  ok (standard_plan t)
